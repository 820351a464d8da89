-- ===== src/Lib.antt =====
-- wRPC: the framing of invocations over one byte stream, and the multiplexing of the sub-streams
-- of asynchronous values on it. Paths below are those of the repository.
--
-- A client writes a header and frames, a server reads them, and results come back as frames. A
-- frame carries bytes for a path: the positions, in the value, of the asynchronous part that the
-- bytes belong to. Each side has `Outgoing` handles, which send frames through a channel to a
-- task that runs `egress`, and `Incoming` handles, which receive from channels that a task
-- running `ingress` fills. What connects a path to a channel is kept in `Subscriptions`.
--
-- - Prelude: numbers, tests, lists and `std::io::Result`, in which an error is its `ErrorKind`.
-- - Leb128, Reader: interfaces for what the crates wasm_tokio and tokio do, with what is
--   documented of them. Leb128/Varint and `slice` of Reader are instances of them.
-- - BTree: `BTreeMap` of the standard library with sequences as keys, as the list of its entries
--   in key order.
-- - Frame: crates/transport/src/frame/mod.rs and codec.rs. Encoder and Decoder are `Encoder` and
--   `Decoder`; one call of `decode` takes the state and the buffer, and returns the result, the
--   state after it and what is left of the buffer. Header has `encode_invocation` of
--   conn/client.rs, `read_name` and `HeaderDecoder::read`.
-- - Conn: crates/transport/src/frame/conn/mod.rs. Outgoing has the handle's `index`,
--   `write_bytes`, `close` and `poll_write`, and Stream below it the loops of
--   `write_stream_bytes` and `write_stream_read` of crates/transport/src/value.rs as step
--   relations. Egress has `egress`, FrameHead and
--   Ingress have what `ingress` does with one frame, up to its data and from there on, Incoming
--   has `index`, `drop`, `take_reader` and `poll_read` of the receiving handle, and Nested has
--   `remove_nested`. Subscriptions, with Indexing and Routing below it, has the state
--   `Subscriptions` and its functions under their names: those that change the state return it.
-- - AsyncPaths: which positions of a value are asynchronous, i.e. the paths that `Subscriptions`
--   is made of. `merge_wildcards` of crates/introspect/src/lib.rs, in Introspect `async_paths_ty`
--   of the same file, for bindings, with what names functions there, and in Types `async_paths`
--   and `params_async_paths` of crates/wasmtime/src/paths.rs, for the runtime.
-- - Server: crates/transport/src/frame/conn/server.rs: the functions that are served, and `accept`,
--   over the header of Frame. Calls has the calls one after the other, and Deliveries what they hand
--   to each stream.
-- - Values: the coding of values whose types are known at run time only. Wave has `encode` of
--   crates/wave/src/encode.rs as encode_value, and `read_value` and `decode_value` of decode.rs
--   there; Runtime has `encode` and `read_value` of crates/wasmtime/src/codec.rs as encode_val
--   and read_val, where futures and streams are deferred: the encoder gives the paths of their
--   sub-streams, which Subscribed compares with what AsyncPaths computes. Flags and Discriminants
--   are used by both.
-- - Lists: `list<T>` of crates/transport/src/value.rs over any coder of its elements:
--   `ListDecoder`, and `encode_list_own` with the loop that it shares with arrays; Arrays has
--   `ArrayDecoder`.
-- - Streams: the receiving of a byte stream, `StreamDecoderBytes` of crates/transport/src/value.rs
--   over `BufferedIncoming` of lib.rs there, as a step relation; EndToEnd has it behind the loops
--   that send, which are Stream and Stream/Reads of Conn/Outgoing.
-- - Pack: `fill` of crates/transport/src/pack.rs, which puts asynchronous values in their places.
-- - Keyvalue: the store in memory of crates/wasi-keyvalue-mem/src/lib.rs, whose `open`, `get` and
--   `set` are open_bucket, get_value and set, and whose two results, the answer and the outer error
--   of an invocation, are both in Answer; Spec has the store that it stands for, and Interleaving
--   the steps of calls at the same time.
-- - Examples: runs at concrete inputs.
--
-- Bytes and lengths are natural numbers. `u32::try_from` is `try_u32`, with its error; a `usize`
-- has 64 bits where `saturating_add` shows that. `write_bytes` and the loop of `ingress` over the
-- data of a frame run on fuel, of which the number of bytes is enough, since each round takes at
-- least one. The functions of Introspect run on fuel, of which Agree says how much is enough for
-- a type. The bound on the chunks of that loop is a constant of the crate wasm_tokio, and a
-- parameter. The number of handles of an element is not bounded.
--
-- A channel is a number and stands in `Subscriptions` where its ends stand in the source; a lock
-- makes one call of `Subscriptions` after the other, so any interleaving of handles and `ingress`
-- is a list of calls. Whether a receiver still holds data is a parameter `held` of the calls that
-- ask for it. Left out are the texts of errors, tracing, capacities of buffers, and what has been
-- written to a buffer when an encoder fails.
--
-- What the crates wasm_tokio, wasm_wave and wasmtime do for the coding of values is in the
-- interfaces Values/Prims, Values/Wave/Types and Values/Runtime/Handles: the coding of primitive
-- values and of names, the parts of a type, and the ends of futures and streams. The decoder of the
-- chunks of a stream of bytes is the interface ChunkDecoder of Streams. A value is the data it is
-- made of, with the bits of its numbers and the bytes of its names.
--
-- Not modelled: transports (TCP, QUIC, WebTransport, HTTP), which pass on bytes; the generators of
-- bindings; in crates/transport/src/frame/conn/mod.rs the loop of `ingress` over the frames and the
-- task that `Incoming::new` spawns around it; in crates/transport/src/value.rs the tasks of streams
-- whose items are not bytes, and the coders of futures, options and results; `Packer` and `unpack`
-- of crates/transport/src/pack.rs; resources in crates/wasmtime/src/codec.rs, and the passing on of
-- the items of its futures and streams; the rest of crates/wasmtime; the key-value store over Redis.
pub mod Prelude
pub mod Leb128
pub mod Reader
pub mod BTree
pub mod Frame
pub mod Conn
pub mod AsyncPaths
pub mod Server
pub mod Values
pub mod Keyvalue
pub mod Lists
pub mod Streams
pub mod Pack
pub mod Examples
