-- ===== src/Frame/Encoder.antt =====
-- `Encoder::encode` of crates/transport/src/frame/codec.rs: the bytes that it appends to `dst`.
use wrpc.Prelude.{ℕ, List, [], ◌∷◌, ◌++◌, Bytes, Result, ok, ◌>>=◌, try_u32, length}
use wrpc.Leb128.{Leb128}
use wrpc.Frame.{Frame}

module _ (leb : Leb128) where
  -- The loop over the elements of the path.
  unfoldable pub encode_elements : List ℕ → Bytes → Result Bytes
  encode_elements [] dst = ok dst
  encode_elements (p ∷ path) dst = do p' ← try_u32 p; encode_elements path (dst ++ leb.encode p')

  -- `Encoder::encode`, with the buffer `dst` passed on.
  unfoldable pub encode : Frame → Bytes → Result Bytes
  encode f dst = do
    let size = length f.content
    let depth = length f.path
    n ← try_u32 depth
    dst' ← encode_elements f.path (dst ++ leb.encode n)
    m ← try_u32 size
    ok (dst' ++ leb.encode m ++ f.content)
