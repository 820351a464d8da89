-- ===== src/Leb128.antt =====
-- `Leb128Encoder` and `Leb128DecoderU32` of the crate `wasm_tokio`, as the code of
-- crates/transport uses them: an interface with what is documented of them. The decoder keeps no
-- state, so on an incomplete number it leaves the buffer as it is.
pub mod Varint
use wrpc.Prelude.{
  ℕ, ◌≡◌, refl, ◌⊎◌, inl, inr, ◌<◌, [], ◌∷◌, ◌++◌, Bytes, Result, ok, err, unexpected_eof,
  ErrorKind, length, u32_mod,
}

-- The three answers of a decoder, with what is left of the buffer.
pub data Read : Type 0 where
  got : ℕ → Bytes → Read
  more : Read
  bad : ErrorKind → Bytes → Read

pub record Leb128 : Type 0 where
  pub encode : ℕ → Bytes
  pub decode : Bytes → Read
  -- Zero is one zero byte.
  pub encode-zero : encode 0 ≡ 0 ∷ []
  -- A number is read back, and nothing behind it.
  pub decode-encode : (n : ℕ) (rest : Bytes) → n < u32_mod → decode (encode n ++ rest) ≡ got n rest
  -- A complete number, and an invalid one, are decided by the bytes that are there.
  pub decode-append_got :
      (src later : Bytes) (n : ℕ) (rest : Bytes)
      → decode src ≡ got n rest
      → decode (src ++ later) ≡ got n (rest ++ later)
  pub decode-append_bad :
      (src later : Bytes) (e : ErrorKind) (rest : Bytes)
      → decode src ≡ bad e rest
      → decode (src ++ later) ≡ bad e (rest ++ later)
  pub decode-lt : (src : Bytes) (n : ℕ) (rest : Bytes) → decode src ≡ got n rest → n < u32_mod
  pub decode_takes :
      (src : Bytes) (n : ℕ) (rest : Bytes) → decode src ≡ got n rest → length rest < length src

-- `AsyncReadLeb128::read_u32_leb128` of the same crate, over a reader whose bytes up to its end
-- are given: it fails with `UnexpectedEof` where the bytes end inside the number.
pub record ReadLeb128 (leb : Leb128) : Type 0 where
  pub read_u32 : Bytes → Result (ℕ × Bytes)
  pub read_u32-got :
      (src : Bytes) (n : ℕ) (rest : Bytes)
      → leb.decode src ≡ got n rest
      → read_u32 src ≡ ok (n, rest)
  pub read_u32-more : (src : Bytes) → leb.decode src ≡ more → read_u32 src ≡ err unexpected_eof
  pub read_u32-bad :
      (src : Bytes) (e : ErrorKind) (rest : Bytes)
      → leb.decode src ≡ bad e rest
      → read_u32 src ≡ err e

-- To split on an answer and keep the equation.
pub Read-cases :
    (r : Read)
    → (r ≡ more)
      ⊎ ((n : ℕ) × (rest : Bytes) × (r ≡ got n rest))
      ⊎ ((e : ErrorKind) × (rest : Bytes) × (r ≡ bad e rest))
Read-cases more = inl refl
Read-cases (got n rest) = inr (inl (n, rest, refl))
Read-cases (bad e rest) = inr (inr (e, rest, refl))
