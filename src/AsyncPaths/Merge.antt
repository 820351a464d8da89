-- ===== src/AsyncPaths/Merge.antt =====
-- `merge_wildcards` of crates/introspect/src/lib.rs makes paths agree.
use wrpc.Prelude.{
  ℕ, zero, suc, ◌+◌, ◌≤◌, ◌<◌, ◌≡◌, refl, sym, ap, ◌∙◌, inl, inr, Bool, true, not, ◌&&◌, List, [],
  ◌∷◌, Option, none, some, arith, if◌then◌else◌, length, take, map, ltb, Bool-cases,
}
use wrpc.BTree.{option_ord, option_rank_injective}
use wrpc.BTree.Order.{eq_refl}
use wrpc.Conn.Subscriptions.Declared.{In, same, agree}
use wrpc.AsyncPaths.Sets.{In-extend, In-map, Agree}
use wrpc.AsyncPaths.{
  Paths, max_len, is_wildcard_at, has_wildcard, set_wildcard_at, merge_path, merge_rounds,
  merge_wildcards,
}

-- Whether the elements at `k`, if both paths have them, are both wildcards or neither.
kind_at : ℕ → List (Option ℕ) → List (Option ℕ) → Bool
kind_at k p q =
    if ltb k (length p) && ltb k (length q)
    then (if is_wildcard_at k p then is_wildcard_at k q else not (is_wildcard_at k q))
    else true

agree-nil : agree [] [] ≡ true
unfolding agree
agree-nil = refl

agree_step :
    (k : ℕ) (p q : List (Option ℕ))
    → agree (take k p) (take k q) ≡ true
    → (take k p ≡ take k q → kind_at k p q ≡ true)
    → agree (take (suc k) p) (take (suc k) q) ≡ true
unfolding agree kind_at is_wildcard_at
agree_step zero [] q a h = refl
agree_step zero (i ∷ p) [] a h = refl
agree_step zero (none ∷ p) (none ∷ q) a h = ground (arith, h refl)
agree_step zero (some i ∷ p) (none ∷ q) a h = ground (arith, h refl)
agree_step zero (none ∷ p) (some j ∷ q) a h = ground (arith, h refl)
agree_step zero (some i ∷ p) (some j ∷ q) a h = ground (arith, h refl)
agree_step (suc k) [] q a h = refl
agree_step (suc k) (i ∷ p) [] a h = refl
agree_step (suc k) (i ∷ p) (j ∷ q) a h = elim (Bool-cases (same i j)) [
  | inl s ↦
      let e : i ≡ j = option_rank_injective i j (ground arith) in
      let rest = agree_step k p q (ground arith) (λ t. ground (arith, h (rw e (ap (◌∷◌ j) t)))) in
      ground arith
  | inr s ↦ ground arith
]

set_wildcard_at-length : (k : ℕ) (p : List (Option ℕ)) → length (set_wildcard_at k p) ≡ length p
unfolding set_wildcard_at
set_wildcard_at-length k [] = refl
set_wildcard_at-length zero (i ∷ p) = refl
set_wildcard_at-length (suc k) (i ∷ p) = ap suc (set_wildcard_at-length k p)

take-set_wildcard_at : (k : ℕ) (p : List (Option ℕ)) → take k (set_wildcard_at k p) ≡ take k p
unfolding set_wildcard_at
take-set_wildcard_at zero p = refl
take-set_wildcard_at (suc k) [] = refl
take-set_wildcard_at (suc k) (i ∷ p) = ap (◌∷◌ i) (take-set_wildcard_at k p)

set_wildcard_at_lem :
    (k : ℕ) (p : List (Option ℕ)) → k < length p → is_wildcard_at k (set_wildcard_at k p) ≡ true
unfolding set_wildcard_at is_wildcard_at
set_wildcard_at_lem k [] h = absurd (omega (arith, h))
set_wildcard_at_lem zero (i ∷ p) h = refl
set_wildcard_at_lem (suc k) (i ∷ p) h = set_wildcard_at_lem k p (omega arith)

-- A path of the set with a wildcard at `k` makes its prefix one of those that are looked up.
has_wildcard_lem :
    (k : ℕ) (ps : Paths) (p : List (Option ℕ))
    → In p ps
    → is_wildcard_at k p ≡ true
    → has_wildcard k ps (take k p) ≡ true
unfolding has_wildcard
has_wildcard_lem k [] p m w = absurd m
has_wildcard_lem k (q ∷ ps) p (inl e) w = rw (← e) (ground (arith, eq_refl (take k p)))
has_wildcard_lem k (q ∷ ps) p (inr m) w = ground (arith, has_wildcard_lem k ps p m w)

length-merge_path :
    (k : ℕ) (ps : Paths) (p : List (Option ℕ)) → length (merge_path k ps p) ≡ length p
unfolding merge_path
length-merge_path k ps p = ground (arith, set_wildcard_at-length k p)

take-merge_path : (k : ℕ) (ps : Paths) (p : List (Option ℕ)) → take k (merge_path k ps p) ≡ take k p
unfolding merge_path
take-merge_path k ps p = ground (arith, take-set_wildcard_at k p)

-- After the round at `k`, a path longer than that has a wildcard there exactly if its prefix was
-- one of those that are looked up.
merge_path-kind :
    (k : ℕ) (ps : Paths) (p : List (Option ℕ))
    → In p ps
    → k < length p
    → is_wildcard_at k (merge_path k ps p) ≡ has_wildcard k ps (take k p)
unfolding merge_path
merge_path-kind k ps p m l =
    ground
      (arith, set_wildcard_at_lem k p l, has_wildcard_lem k ps p m, Bool-cases (is_wildcard_at k p))

-- The paths agree up to `k`.
abbrev AgreeTo : ℕ → Paths → Type 0
AgreeTo k ps = (p q : List (Option ℕ)) → In p ps → In q ps → agree (take k p) (take k q) ≡ true

merge_path-kinds :
    (k : ℕ) (ps : Paths) (p q : List (Option ℕ))
    → In p ps
    → In q ps
    → take k p ≡ take k q
    → kind_at k (merge_path k ps p) (merge_path k ps q) ≡ true
unfolding kind_at
merge_path-kinds k ps p q m n e =
    rw (length-merge_path k ps p, length-merge_path k ps q)
      (elim (Bool-cases (ltb k (length p) && ltb k (length q))) [
        | inl h ↦
            rw
              (
                h,
                merge_path-kind k ps p m (ground arith),
                merge_path-kind k ps q n (ground arith),
                e,
              )
              (ground arith)
        | inr h ↦ rw h
      ])

AgreeTo-round : (k : ℕ) (ps : Paths) → AgreeTo k ps → AgreeTo (suc k) (map (merge_path k ps) ps)
AgreeTo-round k ps a x y mx my =
    let (p, m, ex) = In-map (merge_path k ps) x ps mx in
    let (q, n, ey) = In-map (merge_path k ps) y ps my in
    rw (ex, ey)
      (agree_step k (merge_path k ps p) (merge_path k ps q)
        (rw (take-merge_path k ps p, take-merge_path k ps q) (a p q m n))
        (λ e.
          merge_path-kinds k ps p q m n
            (sym (take-merge_path k ps p) ∙ e ∙ take-merge_path k ps q)))

AgreeTo-rounds :
    (n k : ℕ) (ps : Paths) (m : ℕ) → m ≡ n + k → AgreeTo k ps → AgreeTo m (merge_rounds n k ps)
unfolding merge_rounds
AgreeTo-rounds zero k ps m e a = rw (let e' : m ≡ k = omega arith in e') a
AgreeTo-rounds (suc n) k ps m e a =
    AgreeTo-rounds n (suc k) (map (merge_path k ps) ps) m (omega arith) (AgreeTo-round k ps a)

-- No path is longer than `d`.
abbrev Short : ℕ → Paths → Type 0
Short d ps = (p : List (Option ℕ)) → In p ps → length p ≤ d

Short-max_len : (ps : Paths) → Short (max_len ps) ps
unfolding max_len
Short-max_len [] p m = absurd m
Short-max_len (q ∷ ps) p (inl e) = rw e (omega arith)
Short-max_len (q ∷ ps) p (inr m) = omega (arith, Short-max_len ps p m)

Short-rounds : (n k d : ℕ) (ps : Paths) → Short d ps → Short d (merge_rounds n k ps)
unfolding merge_rounds
Short-rounds zero k d ps h = h
Short-rounds (suc n) k d ps h = Short-rounds n (suc k) d (map (merge_path k ps) ps) λ x mx.
    let (p, m, e) = In-map (merge_path k ps) x ps mx in rw (e, length-merge_path k ps p) (h p m)

take_all : (k : ℕ) (p : List (Option ℕ)) → length p ≤ k → take k p ≡ p
take_all zero [] h = refl
take_all (suc k) [] h = refl
take_all zero (i ∷ p) h = absurd (omega (arith, h))
take_all (suc k) (i ∷ p) h = ap (◌∷◌ i) (take_all k p (omega arith))

-- The paths that `merge_wildcards` returns never have both a wildcard and an index at one position
-- behind a common prefix, whatever the paths it is given.
pub merge_wildcards-Agree : (ps : Paths) → Agree (merge_wildcards ps)
unfolding merge_wildcards
merge_wildcards-Agree ps p q mp mq =
    let d = max_len ps in
    let merged = merge_rounds d 0 ps in
    let short = Short-rounds d 0 d ps (Short-max_len ps) in
    elim (In-extend p [] merged mp) [
      | inl none_there ↦ absurd none_there
      | inr m ↦ elim (In-extend q [] merged mq) [
        | inl none_there ↦ absurd none_there
        | inr n ↦
            rw (take_all d p (short p m), take_all d q (short q n)) at
              (AgreeTo-rounds d 0 ps d (omega arith) (λ x y mx my. agree-nil) p q m n)
      ]
    ]
