-- ===== src/Examples/Streaming.antt =====
-- Runs of the loop that sends a stream of bytes, of crates/transport/src/value.rs.
use wrpc.Prelude.{◌+◌, ◌≤◌, ◌≡◌, refl, List, [], ◌∷◌, Bytes, Result, ok, broken_pipe, arith}
use wrpc.Leb128.Varint.{varint, write}
use wrpc.Conn.Outgoing.{Channel, root, send, write_bytes, write_chunks}
use wrpc.Conn.Outgoing.Chunks.{flatten}
use wrpc.Conn.Outgoing.Stream.{
  running, finished, put_chunk, next_item, send_pending, takes, sends, Steps, stay, step,
}
use wrpc.Conn.Outgoing.Stream.Framing.{framed, SentSince, Steps-Holds}
use wrpc.Conn.Outgoing.Stream.Finishes.{rounds, num_steps, always_ends}

abbrev pub channel : Channel
channel = record { sent = []; room = 4; error = broken_pipe }

abbrev pub items : List Bytes
items = (7 ∷ 8 ∷ []) ∷ [] ∷ (9 ∷ []) ∷ []

-- The first chunk is sent on its own, and the other ones with the end.
abbrev pub after : Channel
after = record {
  sent = (0 ∷ [], 2 ∷ 7 ∷ 8 ∷ []) ∷ (0 ∷ [], 1 ∷ 9 ∷ 0 ∷ []) ∷ [];
  room = 2;
  error = broken_pipe;
}

abbrev pub between : Channel
between = record { sent = (0 ∷ [], 2 ∷ 7 ∷ 8 ∷ []) ∷ []; room = 3; error = broken_pipe }

pub run : Steps varint root (running items [] channel) (finished (ok tt) after)
unfolding next_item send_pending put_chunk varint write send write_bytes write_chunks
run =
    step (running items [] channel) (running ([] ∷ (9 ∷ []) ∷ []) (2 ∷ 7 ∷ 8 ∷ []) channel)
      (finished (ok tt) after) (takes items [] channel refl)
      (step (running ([] ∷ (9 ∷ []) ∷ []) (2 ∷ 7 ∷ 8 ∷ []) channel)
        (running ([] ∷ (9 ∷ []) ∷ []) [] between) (finished (ok tt) after)
        (sends ([] ∷ (9 ∷ []) ∷ []) (2 ∷ 7 ∷ 8 ∷ []) channel (omega arith))
        (step (running ([] ∷ (9 ∷ []) ∷ []) [] between) (running ((9 ∷ []) ∷ []) [] between)
          (finished (ok tt) after) (takes ([] ∷ (9 ∷ []) ∷ []) [] between refl)
          (step (running ((9 ∷ []) ∷ []) [] between) (running [] (1 ∷ 9 ∷ []) between)
            (finished (ok tt) after) (takes ((9 ∷ []) ∷ []) [] between refl)
            (step (running [] (1 ∷ 9 ∷ []) between) (finished (ok tt) after)
              (finished (ok tt) after) (takes [] (1 ∷ 9 ∷ []) between refl)
              (stay (finished (ok tt) after))))))

Steps-Holds_example :
    (xs : List Bytes) × SentSince varint root channel after xs × (flatten xs ≡ framed varint items)
Steps-Holds_example = Steps-Holds varint root channel items (finished (ok tt) after) run

always_ends_example :
    (num_steps varint root (running items [] channel) (finished (ok tt) after) run
        + rounds (finished (ok tt) after)
      ≤ rounds (running items [] channel))
    × ((r : Result (Unit {0})) × (c : Channel) × Steps varint root
          (finished (ok tt) after)
          (finished r c))
always_ends_example =
    always_ends varint root (running items [] channel) (finished (ok tt) after) run
