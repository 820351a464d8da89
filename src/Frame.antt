-- ===== src/Frame.antt =====
-- Framing of crates/transport/src/frame: mod.rs and codec.rs. A frame carries data for the path
-- of a sub-stream. The coder of single numbers is the parameter `leb`.
pub mod Encoder
pub mod Decoder
mod Steps
pub mod Streaming
pub mod RoundTrip
pub mod Limits
pub mod Header
use wrpc.Prelude.{ℕ, List, Bytes}

-- `Frame`, and `FrameRef`, which borrows the same parts.
pub record Frame : Type 0 where
  pub path : List ℕ
  pub content : Bytes
