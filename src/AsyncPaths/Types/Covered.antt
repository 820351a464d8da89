-- ===== src/AsyncPaths/Types/Covered.antt =====
-- The paths that crates/wasmtime/src/paths.rs computes leave no asynchronous position out.
use wrpc.Prelude.{
  ℕ, zero, suc, ◌≡◌, refl, ◌⊎◌, inl, inr, Bool, true, false, ◌&&◌, List, [], ◌∷◌, Option, none,
  some, arith, map, length, take, ltb, Bool-cases,
}
use wrpc.BTree.{option_ord}
use wrpc.Conn.Subscriptions.Declared.{In, Matches}
use wrpc.AsyncPaths.{
  Paths, insert_path, extend, merge_wildcards, merge_rounds, merge_path, set_wildcard_at,
  has_wildcard, max_len,
}
use wrpc.AsyncPaths.Sets.{insert_path-In, extend-In, map-In}
use wrpc.AsyncPaths.Types.{nest, under, extend_both, merged}

-- One of the paths matches.
abbrev pub Covers : Paths → List ℕ → Type 0
Covers ps path = (p : List (Option ℕ)) × In p ps × Matches p path

-- What a result of `async_paths` says of a position of the value: the value itself, or a path.
abbrev pub Found : Paths × Bool → List ℕ → Type 0
Found (ps, fut) path = ((path ≡ []) × (fut ≡ true)) ⊎ Covers ps path

Covers-insert_path :
    (q : List (Option ℕ)) (ps : Paths) (path : List ℕ)
    → Matches q path ⊎ Covers ps path
    → Covers (insert_path q ps) path
Covers-insert_path q ps path (inl h) = (q, insert_path-In q q ps (inl refl), h)
Covers-insert_path q ps path (inr (p, m, h)) = (p, insert_path-In p q ps (inr m), h)

Covers-extend :
    (s ps : Paths) (path : List ℕ) → Covers s path ⊎ Covers ps path → Covers (extend s ps) path
Covers-extend s ps path (inl (p, m, h)) = (p, extend-In p s ps (inl m), h)
Covers-extend s ps path (inr (p, m, h)) = (p, extend-In p s ps (inr m), h)

set_wildcard_at-Matches :
    (k : ℕ) (p : List (Option ℕ)) (path : List ℕ)
    → Matches p path
    → Matches (set_wildcard_at k p) path
unfolding set_wildcard_at
set_wildcard_at-Matches k [] path h = h
set_wildcard_at-Matches k (none ∷ p) [] h = absurd h
set_wildcard_at-Matches k (some j ∷ p) [] h = absurd h
set_wildcard_at-Matches zero (none ∷ p) (i ∷ path) h = h
set_wildcard_at-Matches zero (some j ∷ p) (i ∷ path) h = h.1
set_wildcard_at-Matches (suc k) (none ∷ p) (i ∷ path) h = set_wildcard_at-Matches k p path h
set_wildcard_at-Matches (suc k) (some j ∷ p) (i ∷ path) h =
    (h.0, set_wildcard_at-Matches k p path h.1)

merge_path-Matches :
    (k : ℕ) (ps : Paths) (p : List (Option ℕ)) (path : List ℕ)
    → Matches p path
    → Matches (merge_path k ps p) path
unfolding merge_path
merge_path-Matches k ps p path h =
    elim (Bool-cases (ltb k (length p) && has_wildcard k ps (take k p))) [
      | inl e ↦ rw e (set_wildcard_at-Matches k p path h)
      | inr e ↦ rw e h
    ]

Covers-rounds :
    (n k : ℕ) (ps : Paths) (path : List ℕ) → Covers ps path → Covers (merge_rounds n k ps) path
unfolding merge_rounds
Covers-rounds zero k ps path h = h
Covers-rounds (suc n) k ps path (p, m, h) =
    Covers-rounds n (suc k) (map (merge_path k ps) ps) path
      (merge_path k ps p, map-In (merge_path k ps) p ps m, merge_path-Matches k ps p path h)

Covers-merge_wildcards :
    (ps : Paths) (path : List ℕ) → Covers ps path → Covers (merge_wildcards ps) path
unfolding merge_wildcards
Covers-merge_wildcards ps path h =
    Covers-extend [] (merge_rounds (max_len ps) 0 ps) path
      (inr (Covers-rounds (max_len ps) 0 ps path h))

pub Found-merged : (r : Paths × Bool) (path : List ℕ) → Found r path → Found (merged r) path
Found-merged (ps, fut) path (inl h) = inl h
Found-merged (ps, fut) path (inr h) = inr (Covers-merge_wildcards ps path h)

pub Found-extend_both :
    (a b : Paths × Bool) (path : List ℕ)
    → Found a path ⊎ Found b path
    → Found (extend_both a b) path
Found-extend_both (s, f) (ps, g) path (inl (inl h)) = inl (h.0, ground arith)
Found-extend_both (s, f) (ps, g) path (inr (inl h)) = inl (h.0, ground arith)
Found-extend_both (s, f) (ps, g) path (inl (inr h)) = inr (Covers-extend s ps path (inl h))
Found-extend_both (s, f) (ps, g) path (inr (inr h)) = inr (Covers-extend s ps path (inr h))

-- The position `x` of a path is one for the index `i`.
abbrev Fit : Option ℕ → ℕ → Type 0
Fit x i = Matches (x ∷ []) (i ∷ [])

Matches-cons :
    (x : Option ℕ) (p : List (Option ℕ)) (i : ℕ) (path : List ℕ)
    → Fit x i
    → Matches p path
    → Matches (x ∷ p) (i ∷ path)
Matches-cons none p i path f h = h
Matches-cons (some j) p i path f h = (f.0, h)

Covers-nest :
    (x : Option ℕ) (acc ps : Paths) (path : List ℕ) → Covers acc path → Covers (nest x acc ps) path
unfolding nest
Covers-nest x acc [] path h = h
Covers-nest x acc (p ∷ ps) path h =
    Covers-nest x (insert_path (x ∷ p) acc) ps path (Covers-insert_path (x ∷ p) acc path (inr h))

nest-Covers :
    (x : Option ℕ) (acc ps : Paths) (i : ℕ) (path : List ℕ)
    → Fit x i
    → Covers ps path
    → Covers (nest x acc ps) (i ∷ path)
unfolding nest
nest-Covers x acc [] i path f (p, m, h) = absurd m
nest-Covers x acc (q ∷ ps) i path f (p, inl e, h) =
    Covers-nest x (insert_path (x ∷ q) acc) ps (i ∷ path)
      (Covers-insert_path (x ∷ q) acc (i ∷ path) (inl (Matches-cons x q i path f (rw (← e) h))))
nest-Covers x acc (q ∷ ps) i path f (p, inr m, h) =
    nest-Covers x (insert_path (x ∷ q) acc) ps i path f (p, m, h)

pub Covers-under :
    (x : Option ℕ) (acc : Paths) (r : Paths × Bool) (path : List ℕ)
    → Covers acc path
    → Covers (under x acc r) path
Covers-under x acc (ps, false) path h = Covers-nest x acc ps path h
Covers-under x acc (ps, true) path h =
    Covers-insert_path (x ∷ []) (nest x acc ps) path (inr (Covers-nest x acc ps path h))

pub under-Covers :
    (x : Option ℕ) (acc : Paths) (r : Paths × Bool) (i : ℕ) (path : List ℕ)
    → Fit x i
    → Found r path
    → Covers (under x acc r) (i ∷ path)
under-Covers x acc (ps, false) i path f (inl (e, h)) = cc
under-Covers x acc (ps, false) i path f (inr h) = nest-Covers x acc ps i path f h
under-Covers x acc (ps, true) i path f (inl (e, h)) =
    rw e (Covers-insert_path (x ∷ []) (nest x acc ps) (i ∷ []) (inl f))
under-Covers x acc (ps, true) i path f (inr h) =
    Covers-insert_path (x ∷ []) (nest x acc ps) (i ∷ path) (inr (nest-Covers x acc ps i path f h))
