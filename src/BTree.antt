-- ===== src/BTree.antt =====
-- `BTreeMap` of the Rust standard library with slices as keys, as conn/mod.rs and the path
-- computations use it: an association list in the order of the keys. Slices are ordered
-- lexicographically. What the elements of a slice are compared by is their rank.
pub mod Order
pub mod Laws
use wrpc.Prelude.{
  ℕ, suc, ◌≡◌, Bool, true, false, ◌&&◌, List, [], ◌∷◌, Option, none, some, ltb, ◌==◌, if◌then◌else◌,
  refl, is_some, arith,
}

pub record Ord (A : Type 0) : Type 0 where
  pub rank : A → ℕ
  pub rank_injective : (a b : A) → rank a ≡ rank b → a ≡ b

instance abbrev pub ℕ_ord : Ord ℕ
ℕ_ord = record { rank = λ n. n; rank_injective = λ a b e. e }

module _ {A : Type 0} ⦃o : Ord A⦄ where
  -- Whether two slices are equal, and whether the first comes before the second.
  unfoldable pub eq : List A → List A → Bool
  eq [] [] = true
  eq [] (y ∷ ys) = false
  eq (x ∷ xs) [] = false
  eq (x ∷ xs) (y ∷ ys) = (o.rank x == o.rank y) && eq xs ys

  unfoldable pub lt : List A → List A → Bool
  lt [] [] = false
  lt [] (y ∷ ys) = true
  lt (x ∷ xs) [] = false
  lt (x ∷ xs) (y ∷ ys) = if o.rank x == o.rank y then lt xs ys else ltb (o.rank x) (o.rank y)

  -- `starts_with`, the second slice being the prefix.
  unfoldable pub starts_with : List A → List A → Bool
  starts_with xs [] = true
  starts_with [] (y ∷ ys) = false
  starts_with (x ∷ xs) (y ∷ ys) = (o.rank x == o.rank y) && starts_with xs ys

-- The entries, in the order of their keys.
abbrev pub BTreeMap : Type 0 → Type 0 → Type 0
BTreeMap A V = List (List A × V)

-- What `filter_map` does with one answer.
abbrev pub or_cons {ℓ} : {V : Type ℓ} → Option V → List V → List V
or_cons none vs = vs
or_cons (some v) vs = v ∷ vs

module _ {A V : Type 0} ⦃o : Ord A⦄ where
  unfoldable pub get : List A → BTreeMap A V → Option V
  get k [] = none
  get k ((j, v) ∷ m) = if eq j k then some v else get k m

  unfoldable pub insert : List A → V → BTreeMap A V → BTreeMap A V
  insert k v [] = (k, v) ∷ []
  insert k v ((j, w) ∷ m) =
      if eq j k then (k, v) ∷ m else (if lt k j then (k, v) ∷ (j, w) ∷ m else (j, w) ∷ insert k v m)

  unfoldable pub remove : List A → BTreeMap A V → BTreeMap A V
  remove k [] = []
  remove k ((j, w) ∷ m) = if eq j k then m else (j, w) ∷ remove k m

  abbrev pub contains_key : List A → BTreeMap A V → Bool
  contains_key k m = is_some (get k m)

  -- The entries of `range` with the lower bound `p` included and no upper bound.
  unfoldable pub range_from : List A → BTreeMap A V → BTreeMap A V
  range_from p [] = []
  range_from p ((k, v) ∷ m) = let rest = range_from p m in if lt k p then rest else (k, v) ∷ rest

  -- `take_while` over entries, on their keys.
  unfoldable pub take_while : (List A → Bool) → BTreeMap A V → BTreeMap A V
  take_while test [] = []
  take_while test ((k, v) ∷ m) =
      let rest = take_while test m in if test k then (k, v) ∷ rest else []

  -- Removes the entries with the keys `ks`, and returns the values that were there.
  unfoldable pub remove_all : List (List A) → BTreeMap A V → List V × BTreeMap A V
  remove_all [] m = ([], m)
  remove_all (k ∷ ks) m = let (vs, m') = remove_all ks (remove k m) in (or_cons (get k m) vs, m')

-- `None` comes before every `Some`.
abbrev pub option_rank : Option ℕ → ℕ
option_rank none = 0
option_rank (some i) = suc i

pub option_rank_injective : (a b : Option ℕ) → option_rank a ≡ option_rank b → a ≡ b
option_rank_injective a b e = ground arith

instance abbrev pub option_ord : Ord (Option ℕ)
option_ord = record { rank = option_rank; rank_injective = option_rank_injective }
