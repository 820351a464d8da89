-- ===== src/Conn/Subscriptions/Declared.antt =====
-- Which received paths the declared paths of conn/mod.rs match: what `new` stores and `resolve`
-- finds.
pub mod Stored
pub mod All
pub mod Resolve
use wrpc.Prelude.{
  ℕ, zero, suc, ◌+◌, ◌≤◌, ◌<◌, ◌≡◌, refl, ◌⊎◌, inl, inr, Bool, true, false, not, ◌&&◌, ◌||◌, List,
  [], ◌∷◌, ◌++◌, Option, none, some, arith, if◌then◌else◌, length, is_none, ◌==◌,
}
use wrpc.BTree.{option_rank}

-- `path` is one that the declared path stands for: a wildcard matches any position.
abbrev pub Matches : List (Option ℕ) → List ℕ → Type 0
Matches [] [] = Unit {0}
Matches [] (i ∷ path) = ⊥
Matches (x ∷ pattern) [] = ⊥
Matches (none ∷ pattern) (i ∷ path) = Matches pattern path
Matches (some j ∷ pattern) (i ∷ path) = (j ≡ i) × Matches pattern path

abbrev pub In : {A : Type 0} → A → List A → Type 0
In a [] = ⊥
In a (b ∷ bs) = (a ≡ b) ⊎ In a bs

abbrev pub same : Option ℕ → Option ℕ → Bool
same a b = option_rank a == option_rank b

-- Two paths do not have a wildcard in one and an index in the other at one position behind a
-- common prefix.
unfoldable pub agree : List (Option ℕ) → List (Option ℕ) → Bool
agree [] q = true
agree (i ∷ p) [] = true
agree (i ∷ p) (j ∷ q) =
    let rest = agree p q in
    (if is_none i then is_none j else not (is_none j)) && (if same i j then rest else true)

-- What the documentation of `Incoming::new` asks of its `paths`.
unfoldable pub agree_all : List (Option ℕ) → List (List (Option ℕ)) → Bool
agree_all p [] = true
agree_all p (q ∷ qs) = agree p q && agree_all p qs

unfoldable pub consistent : List (List (Option ℕ)) → Bool
consistent [] = true
consistent (p ∷ ps) = agree_all p ps && consistent ps

-- The element of `q` that comes after the prefix `k`, if it has that prefix and goes on.
pub next_after : List (Option ℕ) → List (Option ℕ) → Option (Option ℕ)
next_after k [] = none
next_after [] (j ∷ q) = some j
next_after (x ∷ k) (j ∷ q) = if same x j then next_after k q else none
