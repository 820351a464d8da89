-- ===== src/Conn/Egress.antt =====
-- `egress` of crates/transport/src/frame/conn/mod.rs: it writes the messages of the `Outgoing`
-- handles to the byte stream, in order.
pub mod Frames
use wrpc.Prelude.{List, [], ◌∷◌, ◌++◌, Bytes, Result, ok, ◌>>=◌, try_u32, length}
use wrpc.Leb128.{Leb128}

module _ (leb : Leb128) where
  -- The bytes written for one message.
  unfoldable pub write_frame : Bytes × Bytes → Result Bytes
  write_frame (path, content) = do
    n ← try_u32 (length content)
    ok (path ++ leb.encode n ++ content)

  -- All the messages up to the closing of the channel. `out` is what has been written.
  unfoldable pub egress : List (Bytes × Bytes) → Bytes → Result Bytes
  egress [] out = ok out
  egress (m ∷ ms) out = do frame ← write_frame m; egress ms (out ++ frame)
