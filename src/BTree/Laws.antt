-- ===== src/BTree/Laws.antt =====
-- Laws of the map operations.
use wrpc.Prelude.{◌≡◌, refl, true, List, [], ◌∷◌, none, some, arith, if◌then◌else◌}
use wrpc.BTree.{Ord, BTreeMap, eq, lt, get, insert, remove}
use wrpc.BTree.Order.{eq_refl, eq→≡, lt_irrefl, lt_trans, lt_total}

module _ {A V : Type 0} ⦃o : Ord A⦄ where
  -- All keys come after `k`.
  abbrev pub Above : List A → BTreeMap A V → Type 0
  Above k [] = Unit {0}
  Above k ((j, v) ∷ m) = (lt k j ≡ true) × Above k m

  abbrev pub IsSorted : BTreeMap A V → Type 0
  IsSorted [] = Unit {0}
  IsSorted ((k, v) ∷ m) = Above k m × IsSorted m

  pub get-insert :
      (k j : List A) (v : V) (m : BTreeMap A V)
      → get j (insert k v m) ≡ (if eq k j then some v else get j m)
  unfolding get insert
  get-insert k j v [] = refl
  get-insert k j v ((i, w) ∷ m) =
      ground (arith, eq→≡ i k, get-insert k j v m, eq→≡ i j, eq→≡ k j, eq_refl k, eq_refl j)

  pub get-Above : (k : List A) (m : BTreeMap A V) → Above k m → get k m ≡ none
  unfolding get
  get-Above k [] a = refl
  get-Above k ((j, v) ∷ m) a = ground (arith, get-Above k m a.1, eq→≡ j k, lt_irrefl k)

  pub get-remove :
      (k j : List A) (m : BTreeMap A V)
      → IsSorted m
      → get j (remove k m) ≡ (if eq k j then none else get j m)
  unfolding get remove
  get-remove k j [] s = ground arith
  get-remove k j ((i, w) ∷ m) s =
      ground
        (arith, eq→≡ i k, eq→≡ k j, get-remove k j m s.1, eq→≡ i j, eq_refl k, get-Above i m s.0)

  pub Above-trans : (k j : List A) (m : BTreeMap A V) → lt k j ≡ true → Above j m → Above k m
  Above-trans k j [] l a = tt
  Above-trans k j ((i, v) ∷ m) l a = (lt_trans k j i l a.0, Above-trans k j m l a.1)

  insert-Above :
      (k j : List A) (v : V) (m : BTreeMap A V) → lt j k ≡ true → Above j m → Above j (insert k v m)
  unfolding insert
  insert-Above k j v [] l a = (l, tt)
  insert-Above k j v ((i, w) ∷ m) l a = ground (arith, insert-Above k j v m l a.1)

  pub insert-IsSorted :
      (k : List A) (v : V) (m : BTreeMap A V) → IsSorted m → IsSorted (insert k v m)
  unfolding insert
  insert-IsSorted k v [] s = (tt, tt)
  insert-IsSorted k v ((j, w) ∷ m) s = ground (
    arith,
    insert-IsSorted k v m s.1,
    insert-Above k j v m,
    eq→≡ j k,
    lt_total j k,
    lt_total k j,
    Above-trans k j m,
  )

  remove-Above : (k j : List A) (m : BTreeMap A V) → Above j m → Above j (remove k m)
  unfolding remove
  remove-Above k j [] a = tt
  remove-Above k j ((i, w) ∷ m) a = ground (arith, remove-Above k j m a.1)

  pub remove-IsSorted : (k : List A) (m : BTreeMap A V) → IsSorted m → IsSorted (remove k m)
  unfolding remove
  remove-IsSorted k [] s = tt
  remove-IsSorted k ((j, w) ∷ m) s = ground (arith, remove-IsSorted k m s.1, remove-Above k j m s.0)
