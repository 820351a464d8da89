-- ===== src/Values/Flags/RoundTrip.antt =====
-- The bits that are written for flags against the names that are read from them.
use wrpc.Prelude.{
  ℕ, suc, ◌+◌, ◌*◌, ◌<◌, ◌≤◌, ◌≡◌, refl, ◌==◌, ◌||◌, Bool, true, false, List, [], ◌∷◌, Bytes,
  if◌then◌else◌, ltb, length, arith, ◌∙◌, inl, inr, Bool-cases,
}
use wrpc.Values.Flags.{
  has_bit, set_bit, has_bit_at, set_bit_at, contains, mark_flags, flag_bits, le_bytes, of_le, zeros,
  flags_size, marked, put_flags, kept,
}
use wrpc.Values.Flags.Bits.{
  has_bit-set_bit, has_bit-zero, has_bit_at-le_bytes, has_bit-of_le, length-le_bytes, length-zeros,
  length-set_bit_at, has_bit_at-set_bit_at, has_bit_at-zeros,
}

-- States with bits, of which those below `n` can be set where `Wide` holds.
module _ {S : Type 0} (mark : ℕ → S → S) (test : ℕ → S → Bool) (Wide : S → Type 0) (n : ℕ)
    (wide : (i : ℕ) (s : S) → Wide s → Wide (mark i s))
    (test-mark : (j i : ℕ) (s : S)
      → Wide s
      → i < n
      → test j (mark i s) ≡ (i == j) || test j s) where
  mark_if-Wide : (i : ℕ) (c : Bool) (s : S) → Wide s → Wide (if c then mark i s else s)
  mark_if-Wide i true s w = wide i s w
  mark_if-Wide i false s w = w

  test-mark_if :
      (j i : ℕ) (c : Bool) (s : S)
      → Wide s
      → i < n
      → test j (if c then mark i s else s) ≡ (if i == j then c || test j s else test j s)
  test-mark_if j i true s w h = ground (arith, test-mark j i s w h)
  test-mark_if j i false s w h = ground arith

  pub mark_flags-Wide :
      (i : ℕ) (names flags : List Bytes) (s : S) → Wide s → Wide (mark_flags mark i names flags s)
  unfolding mark_flags
  mark_flags-Wide i [] flags s w = w
  mark_flags-Wide i (name ∷ names) flags s w =
      mark_flags-Wide (suc i) names flags (if contains flags name then mark i s else s)
        (mark_if-Wide i (contains flags name) s w)

  -- The loop leaves the bits before its start alone.
  test-mark_flags :
      (j i : ℕ) (names flags : List Bytes) (s : S)
      → Wide s
      → i + length names ≤ n
      → j < i
      → test j (mark_flags mark i names flags s) ≡ test j s
  unfolding mark_flags
  test-mark_flags j i [] flags s w h l = refl
  test-mark_flags j i (name ∷ names) flags s w h l =
      let c = contains flags name in
      let IH =
        test-mark_flags j (suc i) names flags (if c then mark i s else s) (mark_if-Wide i c s w)
          (omega arith) (omega arith) in
      let e = test-mark_if j i c s w (omega arith) in IH ∙ ground arith

  pub marked-mark_flags :
      (i : ℕ) (names flags : List Bytes) (s : S)
      → Wide s
      → i + length names ≤ n
      → ((j : ℕ) → i ≤ j → test j s ≡ false)
      → marked (λ j. test j (mark_flags mark i names flags s)) i names ≡ kept flags names
  unfolding marked kept mark_flags
  marked-mark_flags i [] flags s w h none = refl
  marked-mark_flags i (name ∷ names) flags s w h none =
      let c = contains flags name in
      let s' = if c then mark i s else s in
      let w' = mark_if-Wide i c s w in
      let first =
        test-mark_flags i (suc i) names flags s' w' (omega arith) (omega arith)
        ∙ test-mark_if i i c s w (omega arith) in
      let later : (j : ℕ) → suc i ≤ j → test j s' ≡ false =
        λ j l. test-mark_if j i c s w (omega arith) ∙ ground (arith, none j (omega arith)) in
      let rest = marked-mark_flags (suc i) names flags s' w' (omega arith) later in
      ground (arith, none i (omega arith))

-- Only the tests of the bits that there are matter.
marked-eq :
    (f g : ℕ → Bool) (i : ℕ) (names : List Bytes)
    → ((j : ℕ) → j < i + length names → f j ≡ g j)
    → marked f i names ≡ marked g i names
unfolding marked
marked-eq f g i [] h = refl
marked-eq f g i (name ∷ names) h =
    ground (arith, h i (omega arith), marked-eq f g (suc i) names (λ j l. h j (omega arith)))

flags_size_enough : (n : ℕ) → n ≤ 8 * flags_size n
unfolding flags_size
flags_size_enough n = ground arith

pub length-put_flags :
    (names flags : List Bytes) → length (put_flags names flags) ≡ flags_size (length names)
unfolding put_flags
length-put_flags names flags =
    let k = flags_size (length names) in
    ground (
      arith,
      length-le_bytes k (flag_bits names flags),
      mark_flags-Wide set_bit_at has_bit_at (λ buf. length buf ≡ k) 0
          (λ i buf e. length-set_bit_at i buf ∙ e) (λ j i buf e h. absurd (omega arith)) 0 names
          flags (zeros k) (length-zeros k),
    )

marked-flag_bits :
    (names flags : List Bytes)
    → marked (λ j. has_bit j (flag_bits names flags)) 0 names ≡ kept flags names
unfolding flag_bits
marked-flag_bits names flags =
    marked-mark_flags set_bit has_bit (λ v. Unit {0}) (length names) (λ i v w. tt)
      (λ j i v w h. has_bit-set_bit j i v) 0 names flags 0 tt (omega arith) (λ j h. has_bit-zero j)

marked-array :
    (names flags : List Bytes) (k : ℕ)
    → length names ≤ 8 * k
    → marked (λ j. has_bit_at j (mark_flags set_bit_at 0 names flags (zeros k))) 0 names
      ≡ kept flags names
marked-array names flags k h =
    marked-mark_flags set_bit_at has_bit_at (λ buf. length buf ≡ k) (8 * k)
      (λ i buf e. length-set_bit_at i buf ∙ e)
      (λ j i buf e l. has_bit_at-set_bit_at j i buf (omega arith)) 0 names flags (zeros k)
      (length-zeros k) (omega arith) (λ j l. has_bit_at-zeros k j)

-- Testing the bits in the array of the bytes that were written gives the names of the type that are
-- among the flags, in the order of the type.
pub marked-put_flags :
    (names flags : List Bytes)
    → marked (λ j. has_bit_at j (put_flags names flags)) 0 names ≡ kept flags names
unfolding put_flags
marked-put_flags names flags =
    let k = flags_size (length names) in
    let enough = flags_size_enough (length names) in
    let v = flag_bits names flags in
    elim (Bool-cases (ltb (length names) 129)) [
      | inl e ↦ rw e (
          marked-eq (λ j. has_bit_at j (le_bytes k v)) (λ j. has_bit j v) 0 names
            (λ j l. has_bit_at-le_bytes k j v (omega arith))
          ∙ marked-flag_bits names flags)
      | inr e ↦ rw e (marked-array names flags k enough)
    ]

-- For at most 128 names, testing the bits of the number that the bytes stand for gives the names of
-- the type that are among the flags, in the order of the type.
pub marked-of_le :
    (names flags : List Bytes)
    → length names < 129
    → marked (λ j. has_bit j (of_le (put_flags names flags))) 0 names ≡ kept flags names
unfolding put_flags
marked-of_le names flags h =
    let k = flags_size (length names) in
    let enough = flags_size_enough (length names) in
    let v = flag_bits names flags in
    let e : ltb (length names) 129 ≡ true = ground arith in
    rw e (
      marked-eq (λ j. has_bit j (of_le (le_bytes k v))) (λ j. has_bit j v) 0 names
        (λ j l. has_bit-of_le k j v (omega arith))
      ∙ marked-flag_bits names flags)
