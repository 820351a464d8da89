-- ===== src/Examples/Arriving.antt =====
-- Runs of the task that receives a stream of bytes, of crates/transport/src/value.rs. The chunks
-- are read as lists of bytes.
use wrpc.Prelude.{
  ℕ, suc, ◌+◌, ◌≤◌, ◌≡◌, refl, true, List, [], ◌∷◌, ◌++◌, Option, none, some, Bytes, ok, length,
  u32_mod, ◌<◌, arith, broken_pipe,
}
use wrpc.Leb128.Varint.{varint, write}
use wrpc.Leb128.Varint as V
use wrpc.Lists.{decode_list, loop, encode_list_own, encode_iter_own}
use wrpc.Lists.Resume.{decode_list-IsResumable}
use wrpc.Lists.RoundTrip.{IsFresh, decode_list-encode_list_own}
use wrpc.Conn.Outgoing.{Channel, root, send, write_bytes, write_chunks}
use wrpc.Conn.Outgoing.Stream.{running, finished, put_chunk}
use wrpc.Conn.Outgoing.Stream.Reads as Reads
use wrpc.Conn.Outgoing.Stream.Reads.{ReadSteps, next_read}
use wrpc.Streams.{ChunkDecoder, BufferedIncoming, State, Steps, start}
use wrpc.Streams as Streams
use wrpc.Streams.Receives.{Steps-Receives, Yields}
use wrpc.Streams.Finishes.{receives_all, num_steps}
use wrpc.Streams.EndToEnd.{write_stream_bytes-Arrived, write_stream_read-Arrived}
use wrpc.Examples.Listing.{byte, byte-IsResumable, ByteLists, fresh, encode_byte, reads_bytes}
use wrpc.Examples.Streaming.{channel, after, items, run}

encoded_bytes :
    (c : Bytes) → (ds : List (Option ℕ)) × (encode_iter_own encode_byte varint c ≡ ok (c, ds))
unfolding encode_iter_own
encoded_bytes [] = ([], refl)
encoded_bytes (b ∷ c) = let (ds, e) = encoded_bytes c in (none ∷ ds, rw (e) refl)

reads_chunk :
    (s : ByteLists) (c rest : Bytes)
    → IsFresh byte encode_byte varint (λ u. Unit {0}) reads_bytes s
    → length c < u32_mod
    → (t : ByteLists) × (decode_list byte varint s ((varint.encode (length c) ++ c) ++ rest)
        ≡ (ok (some c), (t, rest)))
      × IsFresh byte encode_byte varint (λ u. Unit {0}) reads_bytes t
unfolding encode_list_own
reads_chunk s c rest h small =
    let (ds, e) = encoded_bytes c in
    decode_list-encode_list_own byte encode_byte varint (λ u. Unit {0}) reads_bytes c
      (varint.encode (length c) ++ c) ds s rest (rw (e) (ground arith)) h

abbrev chunks : ChunkDecoder varint ByteLists
chunks = record {
  decode = decode_list byte varint;
  Ready = IsFresh byte encode_byte varint (λ u. Unit {0}) reads_bytes;
  resumable = decode_list-IsResumable byte varint byte-IsResumable;
  decode_chunk = reads_chunk;
}

-- The first two bytes were read ahead.
abbrev incoming : BufferedIncoming
incoming = record { buffer = 2 ∷ 7 ∷ []; inner = 8 ∷ 1 ∷ 9 ∷ 0 ∷ []; failure = none }

abbrev received : List Bytes
received = (7 ∷ 8 ∷ []) ∷ (9 ∷ []) ∷ []

yields : Yields (decode_list byte varint) fresh (2 ∷ 7 ∷ 8 ∷ 1 ∷ 9 ∷ 0 ∷ []) received []
unfolding decode_list loop varint V.decode V.read V.answer
yields = (
  fresh,
  1 ∷ 9 ∷ 0 ∷ [],
  7,
  8 ∷ [],
  refl,
  refl,
  (fresh, 0 ∷ [], 9, [], refl, refl, (fresh, refl)),
)

whole_run :
    Steps
      (decode_list byte varint)
      (start fresh incoming)
      (Streams.State.finished (ok tt) true received)
whole_run =
    (receives_all (decode_list byte varint) (decode_list-IsResumable byte varint byte-IsResumable)
      received fresh incoming yields).0

receives_all_example :
    Steps
      (decode_list byte varint)
      (start fresh incoming)
      (Streams.State.finished (ok tt) true received)
    × ((q : State ByteLists) (steps : Steps (decode_list byte varint) (start fresh incoming) q)
        → num_steps
            (decode_list byte varint)
            (decode_list-IsResumable byte varint byte-IsResumable)
            received
            (start fresh incoming)
            q
            steps
          ≤ suc ((2 + 4) + 2))
receives_all_example =
    receives_all (decode_list byte varint) (decode_list-IsResumable byte varint byte-IsResumable)
      received fresh incoming yields

Steps-Receives_example : (received ≡ received) × (true ≡ true)
Steps-Receives_example =
    Steps-Receives (decode_list byte varint) (decode_list-IsResumable byte varint byte-IsResumable)
      received [] fresh incoming (Streams.State.finished (ok tt) true received) yields whole_run

write_stream_bytes-Arrived_example : (received ≡ received) × (true ≡ true)
write_stream_bytes-Arrived_example =
    write_stream_bytes-Arrived varint chunks root channel after items
      ((2 ∷ 7 ∷ 8 ∷ []) ∷ (1 ∷ 9 ∷ 0 ∷ []) ∷ []) tt fresh incoming
      (Streams.State.finished (ok tt) true received) (omega arith) (refl, tt) run refl refl
      whole_run

-- What is ready, and then a reader that gives one chunk.
abbrev header_sent : Channel
header_sent = record { sent = (0 ∷ [], 2 ∷ []) ∷ []; room = 3; error = broken_pipe }

abbrev all_sent : Channel
all_sent = record {
  sent = (0 ∷ [], 2 ∷ []) ∷ (0 ∷ [], 7 ∷ 8 ∷ 1 ∷ 9 ∷ 0 ∷ []) ∷ [];
  room = 2;
  error = broken_pipe;
}

reading :
    ReadSteps varint root
      (ok tt)
      (Reads.start varint root ((9 ∷ []) ∷ []) (7 ∷ 8 ∷ []) channel)
      (finished (ok tt) all_sent)
unfolding Reads.start next_read put_chunk varint write send write_bytes write_chunks
reading =
    Reads.step (running ((9 ∷ []) ∷ []) (7 ∷ 8 ∷ []) header_sent)
      (running [] (7 ∷ 8 ∷ 1 ∷ 9 ∷ []) header_sent) (finished (ok tt) all_sent)
      (Reads.takes ((9 ∷ []) ∷ []) (7 ∷ 8 ∷ []) header_sent refl)
      (Reads.step (running [] (7 ∷ 8 ∷ 1 ∷ 9 ∷ []) header_sent) (finished (ok tt) all_sent)
        (finished (ok tt) all_sent) (Reads.takes [] (7 ∷ 8 ∷ 1 ∷ 9 ∷ []) header_sent refl)
        (Reads.stay (finished (ok tt) all_sent)))

write_stream_read-Arrived_example : (received ≡ received) × (true ≡ true)
write_stream_read-Arrived_example =
    write_stream_read-Arrived varint chunks root (ok tt) channel all_sent ((9 ∷ []) ∷ [])
      ((2 ∷ []) ∷ (7 ∷ 8 ∷ 1 ∷ 9 ∷ 0 ∷ []) ∷ []) (7 ∷ 8 ∷ []) tt fresh incoming
      (Streams.State.finished (ok tt) true received) (omega arith) (refl, tt) reading refl refl
      whole_run
