-- ===== src/Examples.antt =====
-- Runs of the model at concrete inputs: on the LEB128 coder of `wrpc.Leb128.Varint` and a reader
-- over a byte slice.
mod Values
mod Framing
mod Headers
mod Sending
mod Serving
mod Receiving
mod Subscribing
mod Ingressing
mod Dropping
mod Storing
mod Arriving
mod Streaming
mod Listing
mod Packing
mod Introspecting
