-- ===== src/Conn/Outgoing/Stream.antt =====
-- `write_stream_bytes` of crates/transport/src/value.rs, on a handle of
-- crates/transport/src/frame/conn/mod.rs: its loop as a step relation, since `select!` takes any
-- branch that is ready. The items are the chunks that the stream still gives before it ends.
pub mod Framing
pub mod Finishes
pub mod Reads
use wrpc.Prelude.{
  ℕ, ◌^◌, ◌<◌, ◌≡◌, true, List, [], ◌∷◌, ◌++◌, Bytes, Result, ok, err, ◌>>=◌, try_u32, length, ltb,
}
use wrpc.Leb128.{Leb128}
use wrpc.Conn.Outgoing.{Channel, Outgoing, send, write_bytes}

-- `MAX_PENDING_STREAM_BATCH`.
abbrev pub max_pending : ℕ
max_pending = 2 ^ 20

-- In the loop: the items to come, what is in `buf`, and the channel.
pub data State : Type 0 where
  running : List Bytes → Bytes → Channel → State
  finished : Result (Unit {0}) → Channel → State

abbrev pub after_chunk : List Bytes → Channel → Result Bytes → State
after_chunk items c (err e) = finished (err e) c
after_chunk items c (ok buf) = running items buf c

abbrev pub after_send : List Bytes → Result (Unit {0}) × Channel → State
after_send items (err e, c) = finished (err e) c
after_send items (ok u, c) = running items [] c

abbrev pub after_end : Result (Unit {0}) × Channel → State
after_end (r, c) = finished r c

module _ (leb : Leb128) (o : Outgoing) where
  -- What a chunk adds to `buf`.
  unfoldable pub put_chunk : Bytes → Bytes → Result Bytes
  put_chunk buf [] = ok buf
  put_chunk buf (b ∷ bs) = do n ← try_u32 (length (b ∷ bs)); ok (buf ++ (leb.encode n ++ (b ∷ bs)))

  -- The branch of `items.next()`.
  unfoldable pub next_item : List Bytes → Bytes → Channel → State
  next_item [] buf c = after_end (write_bytes o c (buf ++ 0 ∷ []))
  next_item (chunk ∷ items) buf c = after_chunk items c (put_chunk buf chunk)

  -- The branch of `self.reserve()`.
  unfoldable pub send_pending : List Bytes → Bytes → Channel → State
  send_pending items buf c = after_send items (send c (o.path_buf, buf))

  -- One round of the loop, with the guard of its branch.
  pub data Step : State → State → Type 0 where
    takes :
        (items : List Bytes) (buf : Bytes) (c : Channel)
        → ltb (length buf) max_pending ≡ true
        → Step (running items buf c) (next_item items buf c)
    sends :
        (items : List Bytes) (buf : Bytes) (c : Channel)
        → 0 < length buf
        → Step (running items buf c) (send_pending items buf c)

  pub data Steps : State → State → Type 0 where
    stay : (s : State) → Steps s s
    step : (s t u : State) → Step s t → Steps t u → Steps s u
