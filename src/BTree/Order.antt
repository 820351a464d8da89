-- ===== src/BTree/Order.antt =====
-- Laws of the order of slices.
use wrpc.Prelude.{◌≡◌, refl, true, false, List, [], ◌∷◌, arith}
use wrpc.BTree.{Ord, eq, lt, starts_with}

module _ {A : Type 0} ⦃o : Ord A⦄ where
  pub eq_refl : (xs : List A) → eq xs xs ≡ true
  unfolding eq
  eq_refl [] = refl
  eq_refl (x ∷ xs) = ground (arith, eq_refl xs)

  pub eq→≡ : (xs ys : List A) → eq xs ys ≡ true → xs ≡ ys
  unfolding eq
  eq→≡ [] [] e = refl
  eq→≡ [] (y ∷ ys) e = cc
  eq→≡ (x ∷ xs) [] e = cc
  eq→≡ (x ∷ xs) (y ∷ ys) e = ground (arith, o.rank_injective x y, eq→≡ xs ys)

  pub lt_irrefl : (xs : List A) → lt xs xs ≡ false
  unfolding lt
  lt_irrefl [] = refl
  lt_irrefl (x ∷ xs) = ground (arith, lt_irrefl xs)

  pub lt_trans : (xs ys zs : List A) → lt xs ys ≡ true → lt ys zs ≡ true → lt xs zs ≡ true
  unfolding lt
  lt_trans [] [] zs a b = cc
  lt_trans (x ∷ xs) [] zs a b = cc
  lt_trans xs (y ∷ ys) [] a b = cc
  lt_trans [] (y ∷ ys) (z ∷ zs) a b = refl
  lt_trans (x ∷ xs) (y ∷ ys) (z ∷ zs) a b = ground (arith, lt_trans xs ys zs)

  -- Of two slices that differ, one comes before the other.
  pub lt_total : (xs ys : List A) → eq xs ys ≡ false → lt xs ys ≡ false → lt ys xs ≡ true
  unfolding lt eq
  lt_total [] [] a b = cc
  lt_total [] (y ∷ ys) a b = cc
  lt_total (x ∷ xs) [] a b = refl
  lt_total (x ∷ xs) (y ∷ ys) a b = ground (arith, lt_total xs ys)

  -- A slice comes before none of its prefixes.
  pub starts_with-lt : (xs ys : List A) → starts_with xs ys ≡ true → lt xs ys ≡ false
  unfolding starts_with lt
  starts_with-lt [] [] e = refl
  starts_with-lt (x ∷ xs) [] e = refl
  starts_with-lt [] (y ∷ ys) e = cc
  starts_with-lt (x ∷ xs) (y ∷ ys) e = ground (arith, starts_with-lt xs ys)

  -- The slices with the prefix `p` are next to one another: past the first slice at or after `p`
  -- without that prefix, none has it.
  pub starts_with_convex :
      (p xs ys : List A)
      → lt xs p ≡ false
      → starts_with xs p ≡ false
      → lt xs ys ≡ true
      → starts_with ys p ≡ false
  unfolding starts_with lt
  starts_with_convex [] [] ys a b c = cc
  starts_with_convex [] (x ∷ xs) ys a b c = cc
  starts_with_convex (p ∷ ps) [] ys a b c = cc
  starts_with_convex (p ∷ ps) (x ∷ xs) [] a b c = refl
  starts_with_convex (p ∷ ps) (x ∷ xs) (y ∷ ys) a b c = ground (arith, starts_with_convex ps xs ys)
