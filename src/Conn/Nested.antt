-- ===== src/Conn/Nested.antt =====
-- `remove_nested` of crates/transport/src/frame/conn/mod.rs: it removes the entries of a map at a
-- path and below it, which it takes to be those that follow one another from the path on.
use wrpc.Prelude.{
  ℕ, ◌≡◌, ◌∙◌, refl, inl, inr, true, false, List, [], ◌∷◌, none, arith, if◌then◌else◌, Bool-cases,
  map,
}
use wrpc.BTree.{
  ℕ_ord, BTreeMap, eq, lt, starts_with, get, remove, range_from, take_while, remove_all,
}
use wrpc.BTree.Order.{eq_refl, eq→≡, lt_irrefl, starts_with-lt, starts_with_convex}
use wrpc.BTree.Laws.{Above, IsSorted}

-- None of the keys is `k`.
abbrev Apart : List ℕ → List (List ℕ) → Type 0
Apart k [] = Unit {0}
Apart k (j ∷ js) = (eq k j ≡ false) × Apart k js

lt-ne : (k j : List ℕ) → lt k j ≡ true → eq k j ≡ false
lt-ne k j l = elim (Bool-cases (eq k j)) [
  | inl e ↦ ground (arith, eq→≡ k j e, lt_irrefl k)
  | inr e ↦ e
]

module _ {V : Type 0} where
  abbrev pub keys : BTreeMap ℕ V → List (List ℕ)
  keys = map λ e. e.0

  abbrev pub values : BTreeMap ℕ V → List V
  values = map λ e. e.1

  unfoldable pub remove_nested : BTreeMap ℕ V → List ℕ → List V × BTreeMap ℕ V
  remove_nested m path =
      remove_all (keys (take_while (λ p. starts_with p path) (range_from path m))) m

  -- The entries at the path and below it, and the others.
  pub inside : List ℕ → BTreeMap ℕ V → BTreeMap ℕ V
  inside p [] = []
  inside p ((k, v) ∷ m) = if starts_with k p then (k, v) ∷ inside p m else inside p m

  pub outside : List ℕ → BTreeMap ℕ V → BTreeMap ℕ V
  outside p [] = []
  outside p ((k, v) ∷ m) = if starts_with k p then outside p m else (k, v) ∷ outside p m

  inside_past :
      (p k : List ℕ) (m : BTreeMap ℕ V)
      → Above k m
      → lt k p ≡ false
      → starts_with k p ≡ false
      → inside p m ≡ []
  unfolding inside
  inside_past p k [] a l e = refl
  inside_past p k ((j, v) ∷ m) a l e =
      ground (arith, starts_with_convex p k j l e a.0, inside_past p k m a.1 l e)

  -- In a map, the entries below a path are those that follow one another from the path on.
  take_while-inside :
      (p : List ℕ) (m : BTreeMap ℕ V)
      → IsSorted m
      → take_while (λ k. starts_with k p) (range_from p m) ≡ inside p m
  unfolding inside take_while range_from
  take_while-inside p [] s = refl
  take_while-inside p ((k, v) ∷ m) s = elim (Bool-cases (lt k p)) [
    | inl before ↦ ground (arith, starts_with-lt k p, take_while-inside p m s.1)
    | inr from ↦ ground (arith, inside_past p k m s.0 from, take_while-inside p m s.1)
  ]

  remove_all-Apart :
      (ks : List (List ℕ)) (k : List ℕ) (v : V) (m : BTreeMap ℕ V)
      → Apart k ks
      → remove_all ks ((k, v) ∷ m) ≡ ((remove_all ks m).0, (k, v) ∷ (remove_all ks m).1)
  unfolding remove_all remove get
  remove_all-Apart [] k v m a = refl
  remove_all-Apart (j ∷ js) k v m a = ground (arith, remove_all-Apart js k v (remove j m) a.1)

  Apart-Above : (p k : List ℕ) (m : BTreeMap ℕ V) → Above k m → Apart k (keys (inside p m))
  unfolding inside
  Apart-Above p k [] a = tt
  Apart-Above p k ((j, v) ∷ m) a = ground (arith, lt-ne k j a.0, Apart-Above p k m a.1)

  remove_all_head :
      (ks : List (List ℕ)) (k : List ℕ) (v : V) (m : BTreeMap ℕ V)
      → remove_all (k ∷ ks) ((k, v) ∷ m) ≡ (v ∷ (remove_all ks m).0, (remove_all ks m).1)
  unfolding remove_all get remove
  remove_all_head ks k v m = rw (eq_refl k)

  get-outside :
      (p k : List ℕ) (m : BTreeMap ℕ V)
      → get k (outside p m) ≡ (if starts_with k p then none else get k m)
  unfolding outside get
  get-outside p k [] = ground arith
  get-outside p k ((j, v) ∷ m) = ground (arith, get-outside p k m, eq→≡ j k)

  outside-Above : (p k : List ℕ) (m : BTreeMap ℕ V) → Above k m → Above k (outside p m)
  unfolding outside
  outside-Above p k [] a = tt
  outside-Above p k ((j, v) ∷ m) a = ground (arith, outside-Above p k m a.1)

  outside-IsSorted : (p : List ℕ) (m : BTreeMap ℕ V) → IsSorted m → IsSorted (outside p m)
  unfolding outside
  outside-IsSorted p [] s = tt
  outside-IsSorted p ((k, v) ∷ m) s =
      ground (arith, outside-IsSorted p m s.1, outside-Above p k m s.0)

  remove_all-inside :
      (p : List ℕ) (m : BTreeMap ℕ V)
      → IsSorted m
      → remove_all (keys (inside p m)) m ≡ (values (inside p m), outside p m)
  unfolding inside outside
  remove_all-inside p [] s = unfold remove_all in refl
  remove_all-inside p ((k, v) ∷ m) s = elim (Bool-cases (starts_with k p)) [
    | inl below ↦
        rw below (remove_all_head (keys (inside p m)) k v m ∙ rw (remove_all-inside p m s.1))
    | inr beside ↦ rw beside (
        remove_all-Apart (keys (inside p m)) k v m (Apart-Above p k m s.0)
        ∙ rw (remove_all-inside p m s.1))
  ]

  -- `remove_nested` returns the values at a path and below it, in the order of their keys, and
  -- leaves exactly the other entries. (The map's entries are in the order of the keys.)
  pub remove_nested_lem :
      (m : BTreeMap ℕ V) (path : List ℕ)
      → IsSorted m
      → remove_nested m path ≡ (values (inside path m), outside path m)
  unfolding remove_nested
  remove_nested_lem m path s = rw (take_while-inside path m s) (remove_all-inside path m s)

  -- What the map answers after `remove_nested`: nothing at the path and below it, and elsewhere
  -- what it did.
  pub get-remove_nested :
      (m : BTreeMap ℕ V) (path k : List ℕ)
      → IsSorted m
      → get k (remove_nested m path).1 ≡ (if starts_with k path then none else get k m)
  get-remove_nested m path k s = rw (remove_nested_lem m path s) (get-outside path k m)

  pub remove_nested-IsSorted :
      (m : BTreeMap ℕ V) (path : List ℕ) → IsSorted m → IsSorted (remove_nested m path).1
  remove_nested-IsSorted m path s = rw (remove_nested_lem m path s) (outside-IsSorted path m s)
