-- ===== src/Values/Flags/Bits.antt =====
-- Bits of numbers and of arrays of bytes.
use wrpc.Prelude.{
  ℕ, zero, suc, ◌+◌, ◌-◌, ◌*◌, ◌/◌, ◌%◌, ◌<◌, ◌≡◌, refl, ◌==◌, false, ◌||◌, [], ◌∷◌, Bytes, ltb,
  Bool-cases, if◌then◌else◌, length, get_or, arith, ap, sym, ◌∙◌, ◌⊎◌, inl, inr,
}
use wrpc.Values.Flags.{has_bit, set_bit, has_bit_at, set_byte, set_bit_at, le_bytes, zeros, of_le}

pub has_bit-set_bit : (j i v : ℕ) → has_bit j (set_bit i v) ≡ (i == j) || has_bit j v
unfolding has_bit set_bit
has_bit-set_bit zero zero v = ground arith
has_bit-set_bit zero (suc i) v = ground arith
has_bit-set_bit (suc j) zero v =
    let e : (if v % 2 == 1 then v else v + 1) / 2 ≡ v / 2 = ground arith in rw e (ground arith)
has_bit-set_bit (suc j) (suc i) v =
    let e : (v % 2 + 2 * set_bit i (v / 2)) / 2 ≡ set_bit i (v / 2) = omega arith in
    rw e (ground (arith, has_bit-set_bit j i (v / 2)))

pub has_bit-zero : (j : ℕ) → has_bit j 0 ≡ false
unfolding has_bit
has_bit-zero zero = refl
has_bit-zero (suc j) = has_bit-zero j

-- Eight halvings.
pub has_bit_8 :
    (j v : ℕ) → has_bit (suc (suc (suc (suc (suc (suc (suc (suc j)))))))) v ≡ has_bit j (v / 256)
unfolding has_bit
has_bit_8 j v =
    let e : v / 2 / 2 / 2 / 2 / 2 / 2 / 2 / 2 ≡ v / 256 = omega arith in ap (has_bit j) e

-- The bits of a number are those of its lowest byte and of the rest.
pub has_bit-byte : (j v w : ℕ) → j < 8 → has_bit j (v % 256 + 256 * w) ≡ has_bit j v
unfolding has_bit
has_bit-byte zero v w h = ground arith
has_bit-byte (suc zero) v w h = ground arith
has_bit-byte (suc (suc zero)) v w h = ground arith
has_bit-byte (suc (suc (suc zero))) v w h = ground arith
has_bit-byte (suc (suc (suc (suc zero)))) v w h = ground arith
has_bit-byte (suc (suc (suc (suc (suc zero))))) v w h = ground arith
has_bit-byte (suc (suc (suc (suc (suc (suc zero)))))) v w h = ground arith
has_bit-byte (suc (suc (suc (suc (suc (suc (suc zero))))))) v w h = ground arith
has_bit-byte (suc (suc (suc (suc (suc (suc (suc (suc j)))))))) v w h = absurd (omega arith)

-- A number is below eight, or eight more than another.
below_8-cases : (j : ℕ) → (j < 8) ⊎ ((i : ℕ) × (j ≡ 8 + i))
below_8-cases j = elim (Bool-cases (ltb j 8)) [
  | inl h ↦ inl (ground arith)
  | inr h ↦ inr (j - 8, ground arith)
]

has_bit-add_8 : (j v : ℕ) → has_bit (8 + j) v ≡ has_bit j (v / 256)
has_bit-add_8 j v =
    let e : 8 + j ≡ suc (suc (suc (suc (suc (suc (suc (suc j))))))) = omega arith in
    rw e (has_bit_8 j v)

has_bit_at-low : (j b : ℕ) (bs : Bytes) → j < 8 → has_bit_at j (b ∷ bs) ≡ has_bit j b
unfolding has_bit_at
has_bit_at-low j b bs h =
    let q : j / 8 ≡ 0 = omega arith in let r : j % 8 ≡ j = omega arith in rw (q, r) refl

has_bit_at-high : (j b : ℕ) (bs : Bytes) → has_bit_at (8 + j) (b ∷ bs) ≡ has_bit_at j bs
unfolding has_bit_at
has_bit_at-high j b bs =
    let q : (8 + j) / 8 ≡ suc (j / 8) = omega arith in
    let r : (8 + j) % 8 ≡ j % 8 = omega arith in rw (q, r) refl

pub has_bit_at-le_bytes : (k j v : ℕ) → j < 8 * k → has_bit_at j (le_bytes k v) ≡ has_bit j v
unfolding le_bytes
has_bit_at-le_bytes zero j v h = absurd (omega arith)
has_bit_at-le_bytes (suc k) j v h = elim (below_8-cases j) [
  | inl l ↦
      let e : v % 256 ≡ v % 256 + 256 * 0 = omega arith in
      has_bit_at-low j (v % 256) (le_bytes k (v / 256)) l
      ∙ (ap (has_bit j) e ∙ has_bit-byte j v 0 l)
  | inr (i, e) ↦ rw e (
      has_bit_at-high i (v % 256) (le_bytes k (v / 256))
      ∙ (has_bit_at-le_bytes k i (v / 256) (omega arith) ∙ sym (has_bit-add_8 i v)))
]

pub has_bit-of_le : (k j v : ℕ) → j < 8 * k → has_bit j (of_le (le_bytes k v)) ≡ has_bit j v
unfolding le_bytes of_le
has_bit-of_le zero j v h = absurd (omega arith)
has_bit-of_le (suc k) j v h =
    let w = of_le (le_bytes k (v / 256)) in
    elim (below_8-cases j) [
      | inl l ↦ has_bit-byte j v w l
      | inr (i, e) ↦
          let d : (v % 256 + 256 * w) / 256 ≡ w = omega arith in
          rw e (
            has_bit-add_8 i (v % 256 + 256 * w)
            ∙ (ap (has_bit i) d
                ∙ (has_bit-of_le k i (v / 256) (omega arith) ∙ sym (has_bit-add_8 i v))))
    ]

pub length-le_bytes : (k v : ℕ) → length (le_bytes k v) ≡ k
unfolding le_bytes
length-le_bytes zero v = refl
length-le_bytes (suc k) v = ap suc (length-le_bytes k (v / 256))

pub length-zeros : (k : ℕ) → length (zeros k) ≡ k
unfolding zeros
length-zeros zero = refl
length-zeros (suc k) = ap suc (length-zeros k)

length-set_byte : (k i : ℕ) (buf : Bytes) → length (set_byte k i buf) ≡ length buf
unfolding set_byte
length-set_byte k i [] = refl
length-set_byte zero i (b ∷ bs) = refl
length-set_byte (suc k) i (b ∷ bs) = ap suc (length-set_byte k i bs)

pub length-set_bit_at : (i : ℕ) (buf : Bytes) → length (set_bit_at i buf) ≡ length buf
unfolding set_bit_at
length-set_bit_at i buf = length-set_byte (i / 8) (i % 8) buf

get_or-set_byte :
    (k i l : ℕ) (buf : Bytes)
    → k < length buf
    → get_or (set_byte k i buf) l 0
      ≡ (if k == l then set_bit i (get_or buf k 0) else get_or buf l 0)
unfolding set_byte
get_or-set_byte k i l [] h = absurd (omega arith)
get_or-set_byte zero i zero (b ∷ bs) h = refl
get_or-set_byte zero i (suc l) (b ∷ bs) h = ground arith
get_or-set_byte (suc k) i zero (b ∷ bs) h = ground arith
get_or-set_byte (suc k) i (suc l) (b ∷ bs) h =
    ground (arith, get_or-set_byte k i l bs (omega arith))

pub has_bit_at-set_bit_at :
    (j i : ℕ) (buf : Bytes)
    → i < 8 * length buf
    → has_bit_at j (set_bit_at i buf) ≡ (i == j) || has_bit_at j buf
unfolding has_bit_at set_bit_at
has_bit_at-set_bit_at j i buf h = ground (
  arith,
  get_or-set_byte (i / 8) (i % 8) (j / 8) buf (omega arith),
  has_bit-set_bit (j % 8) (i % 8) (get_or buf (i / 8) 0),
)

get_or-zeros : (k l : ℕ) → get_or (zeros k) l 0 ≡ 0
unfolding zeros
get_or-zeros zero l = refl
get_or-zeros (suc k) zero = refl
get_or-zeros (suc k) (suc l) = get_or-zeros k l

pub has_bit_at-zeros : (k j : ℕ) → has_bit_at j (zeros k) ≡ false
unfolding has_bit_at
has_bit_at-zeros k j = rw (get_or-zeros k (j / 8)) (has_bit-zero (j % 8))
