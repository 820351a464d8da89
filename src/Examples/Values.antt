-- ===== src/Examples/Values.antt =====
-- Runs of the coders of values of crates/wave and of crates/wasmtime/src/codec.rs, over coders of
-- primitive values that meet the interfaces.
mod Coders
mod Sync
mod Async
mod Typed
