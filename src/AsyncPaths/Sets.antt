-- ===== src/AsyncPaths/Sets.antt =====
-- Sets of paths of the path computations: what `insert` and `extend` put in, and sets that agree.
use wrpc.Prelude.{ℕ, ◌≡◌, refl, ap, ◌⊎◌, inl, inr, true, List, [], ◌∷◌, Option, arith, map}
use wrpc.BTree.{option_ord}
use wrpc.BTree.Order.{eq→≡}
use wrpc.Conn.Subscriptions.Declared.{In, agree, agree_all, consistent}
use wrpc.AsyncPaths.{Paths, insert_path, extend}

-- Membership in sets of paths.
pub In-insert_path : (x p : List (Option ℕ)) (s : Paths) → In x (insert_path p s) → (x ≡ p) ⊎ In x s
unfolding insert_path
In-insert_path x p [] h = h
In-insert_path x p (q ∷ s) h = ground (arith, In-insert_path x p s)

pub insert_path-In : (x p : List (Option ℕ)) (s : Paths) → (x ≡ p) ⊎ In x s → In x (insert_path p s)
unfolding insert_path
insert_path-In x p [] h = h
insert_path-In x p (q ∷ s) h = ground (arith, insert_path-In x p s, eq→≡ q p)

pub In-extend : (x : List (Option ℕ)) (s ps : Paths) → In x (extend s ps) → In x s ⊎ In x ps
unfolding extend
In-extend x s [] h = inl h
In-extend x s (p ∷ ps) h = ground (arith, In-extend x (insert_path p s) ps h, In-insert_path x p s)

pub extend-In : (x : List (Option ℕ)) (s ps : Paths) → In x s ⊎ In x ps → In x (extend s ps)
unfolding extend
extend-In x s [] (inl h) = h
extend-In x s [] (inr h) = absurd h
extend-In x s (p ∷ ps) h = extend-In x (insert_path p s) ps (ground (arith, insert_path-In x p s))

pub In-map :
    (f : List (Option ℕ) → List (Option ℕ)) (x : List (Option ℕ)) (ps : Paths)
    → In x (map f ps)
    → (p : List (Option ℕ)) × In p ps × (x ≡ f p)
In-map f x [] h = absurd h
In-map f x (p ∷ ps) (inl e) = (p, inl refl, e)
In-map f x (p ∷ ps) (inr h) = let (q, m, e) = In-map f x ps h in (q, inr m, e)

pub map-In :
    (f : List (Option ℕ) → List (Option ℕ)) (p : List (Option ℕ)) (ps : Paths)
    → In p ps
    → In (f p) (map f ps)
map-In f p [] h = absurd h
map-In f p (q ∷ ps) (inl e) = inl (ap f e)
map-In f p (q ∷ ps) (inr h) = inr (map-In f p ps h)

-- Any two of the paths agree.
abbrev pub Agree : Paths → Type 0
Agree ps = (p q : List (Option ℕ)) → In p ps → In q ps → agree p q ≡ true

agree_all-Agree :
    (p : List (Option ℕ)) (ps : Paths)
    → ((q : List (Option ℕ)) → In q ps → agree p q ≡ true)
    → agree_all p ps ≡ true
unfolding agree_all
agree_all-Agree p [] h = refl
agree_all-Agree p (q ∷ ps) h =
    ground (arith, h q (inl refl), agree_all-Agree p ps (λ x m. h x (inr m)))

pub consistent-Agree : (ps : Paths) → Agree ps → consistent ps ≡ true
unfolding consistent
consistent-Agree [] h = refl
consistent-Agree (p ∷ ps) h = ground (
  arith,
  agree_all-Agree p ps (λ q m. h p q (inl refl) (inr m)),
  consistent-Agree ps (λ x y m n. h x y (inr m) (inr n)),
)
