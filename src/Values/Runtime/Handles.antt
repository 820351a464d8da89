-- ===== src/Values/Runtime/Handles.antt =====
-- What crates/wasmtime/src/codec.rs does to futures and streams of the runtime: the calls on the
-- crate wasmtime.
use wrpc.Prelude.{Result}
use wrpc.Values.{Ty, MaybeTy, Source}

pub record Host : Type 0 where
  -- `try_into_future_reader` and `pipe`: what the deferred function then writes.
  pub pipe_future : MaybeTy → Source → Result Source
  pub pipe_stream : Ty → Source → Result Source
  -- `FutureReader::new` and `StreamReader::new`, and the conversion of the reader.
  pub new_reader : Source → Result Source
