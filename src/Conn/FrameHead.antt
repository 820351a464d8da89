-- ===== src/Conn/FrameHead.antt =====
-- How `ingress` of crates/transport/src/frame/conn/mod.rs reads the beginning of a frame.
pub mod RoundTrip
use wrpc.Prelude.{
  ℕ, zero, suc, ◌+◌, List, [], ◌∷◌, ◌++◌, Option, none, some, Bytes, Result, ok, err, ◌>>=◌,
  not_found, ltb, if◌then◌else◌, unexpected_eof,
}
use wrpc.Leb128.{Leb128, ReadLeb128}
use wrpc.Reader.{Reader}

-- The path of a frame and the length of its data.
pub record FrameHead : Type 0 where
  pub path : List ℕ
  pub data_len : ℕ

module _ (leb : Leb128) (leb_reader : ReadLeb128 leb) (reader : Reader) (depth : ℕ) where
  -- `for i in 0..path_len`, with `k` rounds to go: elements from `depth` on are dropped.
  unfoldable pub read_path : ℕ → ℕ → List ℕ → Bytes → Result (List ℕ × Bytes)
  read_path zero i path rx = ok (path, rx)
  read_path (suc k) i path rx = do
    (p, rx') ← leb_reader.read_u32 rx
    read_path k (i + 1) (if ltb i depth then path ++ p ∷ [] else path) rx'

  unfoldable pub read_head_rest : ℕ → Bytes → Result (Option (FrameHead × Bytes))
  read_head_rest path_len rx = do
    (path, rx') ← read_path path_len 0 [] rx
    (n, rx'') ← leb_reader.read_u32 rx'
    if ltb depth path_len
        then err not_found
        else ok (some (record { path = path; data_len = n }, rx''))

  -- What follows the first byte, which is put back in front of the stream.
  unfoldable pub read_head_at : Result (ℕ × Bytes) → Result (Option (FrameHead × Bytes))
  read_head_at (err unexpected_eof) = ok none
  read_head_at (err e) = err e
  read_head_at (ok (b, rx)) = do
    (path_len, rx') ← leb_reader.read_u32 (b ∷ rx)
    read_head_rest path_len rx'

  -- `none` at the end of the stream.
  unfoldable pub read_head : Bytes → Result (Option (FrameHead × Bytes))
  read_head rx = read_head_at (reader.read_u8 rx)
