-- ===== src/Pack/Plug.antt =====
-- What `fill` of crates/transport/src/pack.rs gives.
use wrpc.Prelude.{
  ℕ, zero, suc, ◌+◌, ◌-◌, ◌<◌, ◌≤◌, ◌≡◌, refl, ap, sym, ◌∙◌, ◌⊎◌, inl, inr, true, List, [], ◌∷◌,
  ◌++◌, append_assoc, Option, none, some, Bytes, ok, err, invalid_data, if◌then◌else◌, ltb, ◌==◌,
  take, drop, length, length-drop, ltb→lt, arith, Bool-cases,
}
use wrpc.Conn.Outgoing.Chunks.{flatten}
use wrpc.Pack.{Hole, is_zero_at, fill_holes}

-- What is written at a position, if anything is.
abbrev pub hole_at : ℕ → List Hole → Option (List Bytes)
hole_at i [] = none
hole_at i ((offset, bufs) ∷ holes) = if offset == i then some bufs else hole_at i holes

abbrev pub piece : Option (List Bytes) → ℕ → Bytes
piece none b = b ∷ []
piece (some bufs) b = flatten bufs

-- The bytes from position `i` on, each replaced by what is written at its position.
unfoldable pub plug : ℕ → List Hole → Bytes → Bytes
plug i holes [] = []
plug i holes (b ∷ bs) = piece (hole_at i holes) b ++ plug (suc i) holes bs

-- The holes are in order, at different positions that are not before `prev`, and each is at a zero
-- byte.
abbrev pub Placed : Bytes → ℕ → List Hole → Type 0
Placed dst prev [] = Unit {0}
Placed dst prev ((offset, bufs) ∷ holes) =
    (prev ≤ offset) × (is_zero_at dst offset ≡ true) × Placed dst (suc offset) holes

pub hole_at-before :
    (dst : Bytes) (prev i : ℕ) (holes : List Hole)
    → Placed dst prev holes
    → i < prev
    → hole_at i holes ≡ none
hole_at-before dst prev i [] h l = refl
hole_at-before dst prev i ((offset, bufs) ∷ holes) (a, z, h) l =
    ground (arith, hole_at-before dst (suc offset) i holes h (omega arith))

-- Only the holes from a position on matter to the bytes from there on.
pub plug-eq :
    (i : ℕ) (hs ks : List Hole) (bs : Bytes)
    → ((j : ℕ) → i ≤ j → hole_at j hs ≡ hole_at j ks)
    → plug i hs bs ≡ plug i ks bs
unfolding plug
plug-eq i hs ks [] h = refl
plug-eq i hs ks (b ∷ bs) h =
    rw (h i (omega arith), plug-eq (suc i) hs ks bs (λ j l. h j (omega arith))) refl

-- Bytes in front of the first hole stay.
plug-skip :
    (n i : ℕ) (holes : List Hole) (bs : Bytes)
    → n ≤ length bs
    → ((j : ℕ) → j < i + n → hole_at j holes ≡ none)
    → plug i holes bs ≡ take n bs ++ plug (i + n) holes (drop n bs)
unfolding plug
plug-skip zero i holes bs l h = let e : i + 0 ≡ i = omega arith in rw (e) refl
plug-skip (suc n) i holes [] l h = absurd (omega arith)
plug-skip (suc n) i holes (b ∷ bs) l h =
    let e : i + suc n ≡ suc i + n = omega arith in
    rw (e, h i (omega arith))
      (ap (λ q. b ∷ q) (plug-skip n (suc i) holes bs (omega arith) (λ j k. h j (omega arith))))

plug-nil : (i : ℕ) (bs : Bytes) → plug i [] bs ≡ bs
unfolding plug
plug-nil i [] = refl
plug-nil i (b ∷ bs) = ap (λ q. b ∷ q) (plug-nil (suc i) bs)

zero_at-length : (dst : Bytes) (i : ℕ) → is_zero_at dst i ≡ true → i < length dst
unfolding is_zero_at
zero_at-length [] i h = cc
zero_at-length (b ∷ bs) zero h = omega arith
zero_at-length (b ∷ bs) (suc i) h = omega (arith, zero_at-length bs i h)

plug-here :
    (i k : ℕ) (holes : List Hole) (dst : Bytes) (bufs : List Bytes)
    → k < length dst
    → hole_at i holes ≡ some bufs
    → plug i holes (drop k dst) ≡ flatten bufs ++ plug (suc i) holes (drop (suc k) dst)
unfolding plug
plug-here i k holes [] bufs l h = absurd (omega arith)
plug-here i zero holes (b ∷ bs) bufs l h = rw (h) refl
plug-here i (suc k) holes (b ∷ bs) bufs l h = plug-here i k holes bs bufs (omega arith) h

drop-drop : (n k : ℕ) (xs : Bytes) → drop n (drop k xs) ≡ drop (k + n) xs
drop-drop n zero xs = let e : 0 + n ≡ n = omega arith in rw (e) refl
drop-drop zero (suc k) [] = let e : suc k + 0 ≡ suc (k + 0) = omega arith in rw (e) refl
drop-drop (suc n) (suc k) [] = let e : suc k + suc n ≡ suc (k + suc n) = omega arith in rw (e) refl
drop-drop n (suc k) (x ∷ xs) =
    let e : suc k + n ≡ suc (k + n) = omega arith in rw (e) (drop-drop n k xs)

-- The bytes up to the first hole, what is written there, and the rest.
plug-cons :
    (dst : Bytes) (prev offset : ℕ) (bufs : List Bytes) (holes : List Hole)
    → prev ≤ offset
    → is_zero_at dst offset ≡ true
    → Placed dst (suc offset) holes
    → plug prev ((offset, bufs) ∷ holes) (drop prev dst)
      ≡ take (offset - prev) (drop prev dst)
        ++ (flatten bufs ++ plug (suc offset) holes (drop (suc offset) dst))
plug-cons dst prev offset bufs holes a z h =
    let n = offset - prev in
    let all = (offset, bufs) ∷ holes in
    let short : offset < length dst = zero_at-length dst offset z in
    let at : prev + n ≡ offset = omega arith in
    let skipped =
      plug-skip n prev all (drop prev dst) (omega (arith, length-drop prev dst))
        (λ j l. hole_at-before dst offset j all (omega arith, z, h) (omega arith)) in
    let here = plug-here offset offset all dst bufs short (ground arith) in
    let later = plug-eq (suc offset) all holes (drop (suc offset) dst) (λ j l. ground arith) in
    skipped
    ∙ ap (◌++◌ (take n (drop prev dst))) (
        ap (plug (prev + n) all) (drop-drop n prev dst)
        ∙ ap (λ k. plug k all (drop k dst)) at
        ∙ here
        ∙ ap (◌++◌ (flatten bufs)) later)

pub fill_holes_cases :
    (dst : Bytes) (prev : ℕ) (holes : List Hole) (out : Bytes)
    → (Placed dst prev holes
        × (fill_holes dst prev holes out ≡ ok (out ++ plug prev holes (drop prev dst))))
      ⊎ ((¬ Placed dst prev holes) × (fill_holes dst prev holes out ≡ err invalid_data))
unfolding fill_holes
fill_holes_cases dst prev [] out =
    inl (tt, ap (λ q. ok (out ++ q)) (sym (plug-nil prev (drop prev dst))))
fill_holes_cases dst prev ((offset, bufs) ∷ holes) out =
    let piece = take (offset - prev) (drop prev dst) ++ flatten bufs in
    elim (Bool-cases (ltb offset prev)) [
      | inl early ↦
          inr ((λ h. absurd (omega (arith, h.0, ltb→lt offset prev early))), rw (early) refl)
      | inr late ↦ elim (Bool-cases (is_zero_at dst offset)) [
        | inr other ↦ inr ((λ h. absurd (ground (arith, h.1))), rw (late, other) refl)
        | inl z ↦ elim (fill_holes_cases dst (suc offset) holes (out ++ piece)) [
          | inl (h, e) ↦
              let a : prev ≤ offset = ground arith in
              let whole =
                append_assoc out piece (plug (suc offset) holes (drop (suc offset) dst))
                ∙ ap (◌++◌ out) (
                    append_assoc (take (offset - prev) (drop prev dst)) (flatten bufs)
                      (plug (suc offset) holes (drop (suc offset) dst))
                    ∙ sym (plug-cons dst prev offset bufs holes a z h)) in
              inl ((a, z, h), rw (late, z) (e ∙ ap ok whole))
          | inr (bad, e) ↦ inr ((λ h. bad h.2), rw (late, z) e)
        ]
      ]
    ]
