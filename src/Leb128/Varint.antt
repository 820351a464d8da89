-- ===== src/Leb128/Varint.antt =====
-- A concrete LEB128 coder of 32-bit numbers, seven bits a byte and the lowest first, which meets
-- the interface of `wrpc.Leb128`: its assumptions can hold, and the examples run on it.
use wrpc.Prelude.{
  ℕ, zero, suc, ◌+◌, ◌-◌, ◌*◌, ◌/◌, ◌%◌, ◌^◌, ◌<◌, ◌≡◌, refl, ◌≢◌, inl, inr, [], ◌∷◌, ◌++◌, arith,
  ltb, if◌then◌else◌, length, Bytes, ErrorKind, invalid_data, u32_mod,
}
use wrpc.Prelude.{ap, Result, ok, err, unexpected_eof}
use wrpc.Leb128.{Leb128, ReadLeb128, Read, got, more, bad, Read-cases}

-- Puts the group `g` below a number that was read.
abbrev pub below : ℕ → Read → Read
below g more = more
below g (got n rest) = got (g + 128 * n) rest
below g (bad e rest) = bad e rest

-- At most `k + 1` bytes.
unfoldable pub read : ℕ → Bytes → Read
read k [] = more
read zero (b ∷ bs) = if ltb b 128 then got b bs else bad invalid_data bs
read (suc k) (b ∷ bs) = if ltb b 128 then got b bs else below (b - 128) (read k bs)

abbrev pub within : Read → Read
within more = more
within (got n rest) = if ltb n u32_mod then got n rest else bad invalid_data rest
within (bad e rest) = bad e rest

unfoldable pub write : ℕ → ℕ → Bytes
write zero n = n ∷ []
write (suc k) n = if ltb n 128 then n ∷ [] else (n % 128 + 128) ∷ write k (n / 128)

unfoldable pub decode : Bytes → Read
decode src = within (read 4 src)

pub read-write :
    (k n : ℕ) (rest : Bytes) → n < 128 ^ suc k → read k (write k n ++ rest) ≡ got n rest
unfolding read write
read-write zero n rest h = ground arith
read-write (suc k) n rest h = ground (arith, read-write k (n / 128) rest (omega arith))

abbrev pub extend : Read → Bytes → Read
extend more later = more
extend (got n rest) later = got n (rest ++ later)
extend (bad e rest) later = bad e (rest ++ later)

-- Bytes behind a complete or an invalid number stay behind it.
pub read-append :
    (k : ℕ) (src later : Bytes)
    → read k src ≢ more
    → read k (src ++ later) ≡ extend (read k src) later
unfolding read
read-append zero [] later h = absurd (h refl)
read-append (suc k) [] later h = absurd (h refl)
read-append zero (b ∷ bs) later h = ground arith
read-append (suc k) (b ∷ bs) later h = ground (arith, read-append k bs later)

pub read_takes :
    (k : ℕ) (src : Bytes) (n : ℕ) (rest : Bytes)
    → read k src ≡ got n rest
    → length rest < length src
unfolding read
read_takes zero [] n rest h = cc
read_takes (suc k) [] n rest h = cc
read_takes zero (b ∷ bs) n rest h = ground arith
read_takes (suc k) (b ∷ bs) n rest h = elim (Read-cases (read k bs)) [
  | inl e ↦ ground arith
  | inr (inl (m, r, e)) ↦ ground (arith, read_takes k bs m r e)
  | inr (inr (x, r, e)) ↦ ground arith
]

pub decode-append :
    (src later : Bytes) → decode src ≢ more → decode (src ++ later) ≡ extend (decode src) later
unfolding decode
decode-append src later h = ground (arith, read-append 4 src later)

pub decode-encode_lem :
    (n : ℕ) (rest : Bytes) → n < u32_mod → decode (write 4 n ++ rest) ≡ got n rest
unfolding decode
decode-encode_lem n rest h = ground (arith, read-write 4 n rest (omega arith))

pub decode_got :
    (src : Bytes) (n : ℕ) (rest : Bytes)
    → decode src ≡ got n rest
    → (n < u32_mod) × (length rest < length src)
unfolding decode
decode_got src n rest h = ground (arith, read_takes 4 src n rest)

pub append_got :
    (src later : Bytes) (n : ℕ) (rest : Bytes)
    → decode src ≡ got n rest
    → decode (src ++ later) ≡ got n (rest ++ later)
append_got src later n rest h = ground (arith, decode-append src later)

pub append_bad :
    (src later : Bytes) (e : ErrorKind) (rest : Bytes)
    → decode src ≡ bad e rest
    → decode (src ++ later) ≡ bad e (rest ++ later)
append_bad src later e rest h = ground (arith, decode-append src later)

-- The coder behind the interface.
unfoldable pub varint : Leb128
unfolding write read decode
varint = record {
  encode = write 4;
  decode = decode;
  encode-zero = refl;
  decode-encode = decode-encode_lem;
  decode-append_got = append_got;
  decode-append_bad = append_bad;
  decode-lt = λ src n rest h. (decode_got src n rest h).0;
  decode_takes = λ src n rest h. (decode_got src n rest h).1;
}

unfoldable pub answer : Read → Result (ℕ × Bytes)
answer more = err unexpected_eof
answer (got n rest) = ok (n, rest)
answer (bad e rest) = err e

unfoldable pub read_varint : ReadLeb128 varint
unfolding varint answer
read_varint = record {
  read_u32 = λ src. answer (decode src);
  read_u32-got = λ src n rest e. ap answer e;
  read_u32-more = λ src e. ap answer e;
  read_u32-bad = λ src e rest h. ap answer h;
}
