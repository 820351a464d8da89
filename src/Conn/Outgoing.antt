-- ===== src/Conn/Outgoing.antt =====
-- `Outgoing` of crates/transport/src/frame/conn/mod.rs: a handle that sends frames on one path to
-- the task which runs `egress`.
pub mod Chunks
pub mod Stream
use wrpc.Prelude.{
  ℕ, zero, suc, ◌-◌, ◌^◌, List, [], ◌∷◌, ◌++◌, Bytes, Result, ok, err, ErrorKind, ◌>>=◌,
  invalid_input, try_u32, u32_mod, length, take, drop, min,
}
use wrpc.Leb128.{Leb128}
use wrpc.Frame.Encoder.{encode_elements}

-- `MAX_FRAME_DATA`.
abbrev pub max_frame_data : ℕ
max_frame_data = u32_mod - 1

-- The sending end of the channel to egress: the messages sent, how many more places egress gives
-- before it ends, and the error that `error_egress` then returns.
pub record Channel : Type 0 where
  pub sent : List (Bytes × Bytes)
  pub room : ℕ
  pub error : ErrorKind

pub record Outgoing : Type 0 where
  pub path : List ℕ
  pub path_buf : Bytes

-- The handle of the root that `Outgoing::new` returns.
abbrev pub root : Outgoing
root = record { path = []; path_buf = 0 ∷ [] }

-- `[self.path, path].concat()`, or `path` at the root.
abbrev pub join : List ℕ → List ℕ → List ℕ
join [] path = path
join (p ∷ ps) path = (p ∷ ps) ++ path

-- `reserve` and `send_reserved`: a message is sent, or the channel is found closed.
unfoldable pub send : Channel → Bytes × Bytes → Result (Unit {0}) × Channel
send c m = elim c.room [
  | zero ↦ (err c.error, c)
  | suc room ↦ (ok tt, record c { sent = c.sent ++ m ∷ []; room = room })
]

module _ (leb : Leb128) where
  -- `index` behind its guard.
  unfoldable pub index_at : List ℕ → Result Outgoing
  index_at path = do
    n ← try_u32 (length path)
    buf ← encode_elements leb path (leb.encode n)
    ok (record { path = path; path_buf = buf })

  unfoldable pub index : Outgoing → List ℕ → Result Outgoing
  index o [] = err invalid_input
  index o (p ∷ ps) = index_at (join o.path (p ∷ ps))

-- The rest of `write_bytes` after a message.
abbrev pub and_then :
    Result (Unit {0}) × Channel
    → (Channel → Result (Unit {0}) × Channel)
    → Result (Unit {0}) × Channel
and_then (ok u, c) f = f c
and_then (err e, c) f = (err e, c)

-- The loop of `write_bytes`, on fuel: each round takes at least a byte.
unfoldable pub write_chunks : ℕ → Outgoing → Channel → Bytes → Result (Unit {0}) × Channel
write_chunks fuel o c [] = (ok tt, c)
write_chunks zero o c (b ∷ bs) = (ok tt, c)
write_chunks (suc fuel) o c (b ∷ bs) =
    let n = min (length (b ∷ bs)) max_frame_data in
    and_then (send c (o.path_buf, take n (b ∷ bs))) λ c'. write_chunks fuel o c' (drop n (b ∷ bs))

unfoldable pub write_bytes : Outgoing → Channel → Bytes → Result (Unit {0}) × Channel
write_bytes o c buf = write_chunks (length buf) o c buf

unfoldable pub close : Outgoing → Channel → Result (Unit {0}) × Channel
close o c = send c (o.path_buf, [])

-- `poll_write`, once it is ready: the number of bytes taken.
unfoldable pub poll_write : Outgoing → Channel → Bytes → Result ℕ × Channel
poll_write o c [] = (ok 0, c)
poll_write o c (b ∷ bs) =
    let n = min (length (b ∷ bs)) max_frame_data in
    let (r, c') = send c (o.path_buf, take n (b ∷ bs)) in
    (elim r [ ok u ↦ ok n | err e ↦ err e ], c')
