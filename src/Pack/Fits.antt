-- ===== src/Pack/Fits.antt =====
-- When `fill` of crates/transport/src/pack.rs succeeds, whatever the order of what was written.
use wrpc.Prelude.{
  ℕ, suc, ◌≤◌, ◌≡◌, refl, ap, sym, ◌∙◌, ◌⊎◌, inl, inr, true, List, [], ◌∷◌, none, Bytes, ok, err,
  invalid_data, ltb, arith, Bool-cases,
}
use wrpc.Pack.{Hole, insert_hole, sort_holes, is_zero_at, fill}
use wrpc.Pack.Plug.{hole_at, plug, Placed, hole_at-before, plug-eq, fill_holes_cases}

hole_at-insert_hole :
    (i : ℕ) (h : Hole) (hs : List Hole) → hole_at i (insert_hole h hs) ≡ hole_at i (h ∷ hs)
unfolding insert_hole
hole_at-insert_hole i h [] = refl
hole_at-insert_hole i (offset, bufs) ((k, bs) ∷ ks) =
    ground (arith, hole_at-insert_hole i (offset, bufs) ks)

hole_at-sort_holes : (i : ℕ) (hs : List Hole) → hole_at i (sort_holes hs) ≡ hole_at i hs
unfolding sort_holes
hole_at-sort_holes i [] = refl
hole_at-sort_holes i ((offset, bufs) ∷ hs) =
    hole_at-insert_hole i (offset, bufs) (sort_holes hs) ∙ ground (arith, hole_at-sort_holes i hs)

-- What was written has different offsets, with a zero byte at each of them.
abbrev pub Fits : Bytes → List Hole → Type 0
Fits dst [] = Unit {0}
Fits dst ((offset, bufs) ∷ holes) =
    (is_zero_at dst offset ≡ true) × (hole_at offset holes ≡ none) × Fits dst holes

insert_hole-Placed :
    (dst : Bytes) (prev offset : ℕ) (bufs : List Bytes) (holes : List Hole)
    → prev ≤ offset
    → is_zero_at dst offset ≡ true
    → hole_at offset holes ≡ none
    → Placed dst prev holes
    → Placed dst prev (insert_hole (offset, bufs) holes)
unfolding insert_hole
insert_hole-Placed dst prev offset bufs [] l z n h = (l, z, tt)
insert_hole-Placed dst prev offset bufs ((k, bs) ∷ ks) l z n (a, y, h) =
    elim (Bool-cases (ltb k offset)) [
      | inl before ↦
          let m : hole_at offset ks ≡ none = ground arith in
          let later : suc k ≤ offset = ground arith in
          rw (before) (a, y, insert_hole-Placed dst (suc k) offset bufs ks later z m h)
      | inr behind ↦ let later : suc offset ≤ k = ground arith in rw (behind) (l, z, (later, y, h))
    ]

Placed-insert_hole :
    (dst : Bytes) (prev offset : ℕ) (bufs : List Bytes) (holes : List Hole)
    → Placed dst prev (insert_hole (offset, bufs) holes)
    → (prev ≤ offset)
      × (is_zero_at dst offset ≡ true)
      × (hole_at offset holes ≡ none)
      × Placed dst prev holes
unfolding insert_hole
Placed-insert_hole dst prev offset bufs [] (l, z, h) = (l, z, refl, tt)
Placed-insert_hole dst prev offset bufs ((k, bs) ∷ ks) h = elim (Bool-cases (ltb k offset)) [
  | inl before ↦
      let (a, y, g) = rw (before) at h in
      let (l, z, n, f) = Placed-insert_hole dst (suc k) offset bufs ks g in
      (omega arith, z, ground arith, (a, y, f))
  | inr behind ↦
      let (l, z, (m, y, g)) = rw (behind) at h in
      (
        l,
        z,
        ground (arith, hole_at-before dst (suc k) offset ks g (omega arith)),
        (omega arith, y, g),
      )
]

sort_holes-Placed :
    (dst : Bytes) (holes : List Hole) → Fits dst holes → Placed dst 0 (sort_holes holes)
unfolding sort_holes
sort_holes-Placed dst [] h = tt
sort_holes-Placed dst ((offset, bufs) ∷ holes) (z, n, h) =
    insert_hole-Placed dst 0 offset bufs (sort_holes holes) (omega arith) z
      (hole_at-sort_holes offset holes ∙ n) (sort_holes-Placed dst holes h)

Placed-sort_holes :
    (dst : Bytes) (holes : List Hole) → Placed dst 0 (sort_holes holes) → Fits dst holes
unfolding sort_holes
Placed-sort_holes dst [] h = tt
Placed-sort_holes dst ((offset, bufs) ∷ holes) h =
    let (l, z, n, g) = Placed-insert_hole dst 0 offset bufs (sort_holes holes) h in
    (z, sym (hole_at-sort_holes offset holes) ∙ n, Placed-sort_holes dst holes g)

-- If the offsets of what was written are different, and there is a zero byte at each of them, then
-- `fill` gives the buffer with exactly these bytes replaced by what was written at their offsets,
-- in whatever order it was written; otherwise it fails with `InvalidData`.
pub fill_cases :
    (holes : List Hole) (dst : Bytes)
    → (Fits dst holes × (fill holes dst ≡ ok (plug 0 holes dst)))
      ⊎ ((¬ Fits dst holes) × (fill holes dst ≡ err invalid_data))
unfolding fill
fill_cases holes dst = elim (fill_holes_cases dst 0 (sort_holes holes) []) [
  | inl (h, e) ↦ inl (
    Placed-sort_holes dst holes h,
    e ∙ ap ok (plug-eq 0 (sort_holes holes) holes dst (λ j l. hole_at-sort_holes j holes)),
  )
  | inr (bad, e) ↦ inr ((λ h. bad (sort_holes-Placed dst holes h)), e)
]
