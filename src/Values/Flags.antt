-- ===== src/Values/Flags.antt =====
-- Flags as bits: the flags of crates/wave/src/encode.rs and decode.rs and of
-- crates/wasmtime/src/codec.rs. A bit is tested and set by halving.
pub mod Bits
pub mod RoundTrip
use wrpc.Prelude.{
  ℕ, zero, suc, ◌+◌, ◌-◌, ◌*◌, ◌/◌, ◌%◌, ◌==◌, Bool, true, false, ◌||◌, List, [], ◌∷◌, Bytes, ltb,
  if◌then◌else◌, length, get_or,
}
use wrpc.BTree.{ℕ_ord, eq}

-- `v & (1 << i) != 0`.
unfoldable pub has_bit : ℕ → ℕ → Bool
has_bit zero v = v % 2 == 1
has_bit (suc i) v = has_bit i (v / 2)

-- `v | (1 << i)`.
unfoldable pub set_bit : ℕ → ℕ → ℕ
set_bit zero v = if v % 2 == 1 then v else v + 1
set_bit (suc i) v = v % 2 + 2 * set_bit i (v / 2)

-- `buf[i / 8] & (1 << (i % 8)) != 0`.
unfoldable pub has_bit_at : ℕ → Bytes → Bool
has_bit_at i buf = has_bit (i % 8) (get_or buf (i / 8) 0)

unfoldable pub set_byte : ℕ → ℕ → Bytes → Bytes
set_byte k i [] = []
set_byte zero i (b ∷ bs) = set_bit i b ∷ bs
set_byte (suc k) i (b ∷ bs) = b ∷ set_byte k i bs

-- `buf[i / 8] |= 1 << (i % 8)`.
unfoldable pub set_bit_at : ℕ → Bytes → Bytes
set_bit_at i buf = set_byte (i / 8) (i % 8) buf

-- `flags.contains(name)`.
unfoldable pub contains : List Bytes → Bytes → Bool
contains [] name = false
contains (f ∷ flags) name = eq f name || contains flags name

-- The loops `for (i, name) in zip(0.., names)` and `names.iter().enumerate()`, from `i` on.
unfoldable pub mark_flags {ℓ} : {S : Type ℓ} → (ℕ → S → S) → ℕ → List Bytes → List Bytes → S → S
mark_flags mark i [] flags s = s
mark_flags mark i (name ∷ names) flags s =
    mark_flags mark (suc i) names flags (if contains flags name then mark i s else s)

-- `flag_bits`.
unfoldable pub flag_bits : List Bytes → List Bytes → ℕ
flag_bits names flags = mark_flags set_bit 0 names flags 0

-- `to_le_bytes()[..k]`.
unfoldable pub le_bytes : ℕ → ℕ → Bytes
le_bytes zero v = []
le_bytes (suc k) v = (v % 256) ∷ le_bytes k (v / 256)

-- `u128::from_le_bytes`, of a buffer with zeros behind the bytes.
unfoldable pub of_le : Bytes → ℕ
of_le [] = 0
of_le (b ∷ bs) = b + 256 * of_le bs

unfoldable pub zeros : ℕ → Bytes
zeros zero = []
zeros (suc k) = 0 ∷ zeros k

-- The number of bytes: `bits.div_ceil(8)`, and one for no names.
unfoldable pub flags_size : ℕ → ℕ
flags_size n = if ltb n 9 then 1 else (n + 7) / 8

-- `names.iter().enumerate().filter(..)` from `i` on, by a test of the bits.
unfoldable pub marked : (ℕ → Bool) → ℕ → List Bytes → List Bytes
marked test i [] = []
marked test i (name ∷ names) =
    let rest = marked test (suc i) names in if test i then name ∷ rest else rest

-- What is written for flags: an integer of up to 128 bits, or an array of bytes.
unfoldable pub put_flags : List Bytes → List Bytes → Bytes
put_flags names flags =
    if ltb (length names) 129
    then le_bytes (flags_size (length names)) (flag_bits names flags)
    else mark_flags set_bit_at 0 names flags (zeros (flags_size (length names)))

-- The names of the type that are among the flags of a value, in the order of the type.
unfoldable pub kept : List Bytes → List Bytes → List Bytes
kept flags [] = []
kept flags (name ∷ names) =
    let rest = kept flags names in if contains flags name then name ∷ rest else rest
