-- ===== src/AsyncPaths/Types/Consistent.antt =====
-- The paths that crates/wasmtime/src/paths.rs computes are those that `Incoming::new` of
-- crates/transport/src/frame/conn/mod.rs asks for.
use wrpc.Prelude.{
  ℕ, suc, ◌<◌, ◌≡◌, refl, ◌⊎◌, inl, inr, Bool, true, false, List, [], ◌∷◌, Option, none, some,
  arith,
}
use wrpc.BTree.{option_ord}
use wrpc.Conn.Subscriptions.Declared.{In, agree, consistent}
use wrpc.AsyncPaths.{Paths, insert_path}
use wrpc.AsyncPaths.Sets.{Agree, In-insert_path, consistent-Agree}
use wrpc.AsyncPaths.Merge.{merge_wildcards-Agree}
use wrpc.AsyncPaths.Types.{
  Ty, list, fixed_length_list, option, result, variant, tuple, fields, future, stream, own, borrow,
  other, Payload, no_payload, payload, Tys, no_tys, ty, nest, under, async_paths, payload_paths,
  types_paths, params_async_paths,
}

-- A path of a set, put behind the position `x`; or that position alone.
abbrev Behind : Option ℕ → Paths → List (Option ℕ) → Type 0
Behind x ps q = (t : List (Option ℕ)) × (q ≡ x ∷ t) × ((t ≡ []) ⊎ In t ps)

In-nest :
    (x : Option ℕ) (acc ps : Paths) (q : List (Option ℕ))
    → In q (nest x acc ps)
    → In q acc ⊎ ((t : List (Option ℕ)) × (q ≡ x ∷ t) × In t ps)
unfolding nest
In-nest x acc [] q h = inl h
In-nest x acc (p ∷ ps) q h = elim (In-nest x (insert_path (x ∷ p) acc) ps q h) [
  | inr (t, e, m) ↦ inr (t, e, inr m)
  | inl m ↦ elim (In-insert_path q (x ∷ p) acc m) [ inl e ↦ inr (p, e, inl refl) | inr n ↦ inl n ]
]

In-under :
    (x : Option ℕ) (acc : Paths) (r : Paths × Bool) (q : List (Option ℕ))
    → In q (under x acc r)
    → In q acc ⊎ Behind x r.0 q
In-under x acc (ps, false) q h = elim (In-nest x acc ps q h) [
  | inl m ↦ inl m
  | inr (t, e, m) ↦ inr (t, e, inr m)
]
In-under x acc (ps, true) q h = elim (In-insert_path q (x ∷ []) (nest x acc ps) h) [
  | inl e ↦ inr ([], e, inl refl)
  | inr n ↦ elim (In-nest x acc ps q n) [ inl m ↦ inl m | inr (t, e, m) ↦ inr (t, e, inr m) ]
]

agree-nil : (p : List (Option ℕ)) → agree p [] ≡ true
unfolding agree
agree-nil [] = refl
agree-nil (i ∷ p) = refl

agree_tails :
    (ps : Paths) (t u : List (Option ℕ))
    → Agree ps
    → (t ≡ []) ⊎ In t ps
    → (u ≡ []) ⊎ In u ps
    → agree t u ≡ true
unfolding agree
agree_tails ps t u a (inl e) n = rw e refl
agree_tails ps t u a (inr m) (inl f) = rw f (agree-nil t)
agree_tails ps t u a (inr m) (inr n) = a t u m n

agree-Behind :
    (x : Option ℕ) (ps : Paths) (p q : List (Option ℕ))
    → Agree ps
    → Behind x ps p
    → Behind x ps q
    → agree p q ≡ true
unfolding agree
agree-Behind x ps p q a (t, e, m) (u, f, n) = rw (e, f) (ground (arith, agree_tails ps t u a m n))

-- The first positions of the paths are below `i`.
abbrev HeadsBelow : ℕ → Paths → Type 0
HeadsBelow i ps =
    (p : List (Option ℕ)) → In p ps → (j : ℕ) × (t : List (Option ℕ)) × (p ≡ some j ∷ t) × (j < i)

list-Agree : (r : Paths × Bool) → Agree r.0 → Agree (under none [] r)
list-Agree r a p q m n = elim (In-under none [] r p m) [
  | inl z ↦ absurd z
  | inr b ↦ elim (In-under none [] r q n) [
    | inl z ↦ absurd z
    | inr c ↦ agree-Behind none r.0 p q a b c
  ]
]

agree_heads :
    (i : ℕ) (ps : Paths) (p q : List (Option ℕ)) (j : ℕ) (t : List (Option ℕ))
    → p ≡ some j ∷ t
    → j < i
    → Behind (some i) ps q
    → (agree p q ≡ true) × (agree q p ≡ true)
unfolding agree
agree_heads i ps p q j t e l (u, f, n) = rw (e, f) (ground arith)

next-Agree :
    (i : ℕ) (acc : Paths) (r : Paths × Bool)
    → Agree acc
    → HeadsBelow i acc
    → Agree r.0
    → Agree (under (some i) acc r)
next-Agree i acc r a h b p q m n = elim (In-under (some i) acc r p m) [
  | inl mp ↦ elim (In-under (some i) acc r q n) [
    | inl nq ↦ a p q mp nq
    | inr bq ↦ let (j, t, e, l) = h p mp in (agree_heads i r.0 p q j t e l bq).0
  ]
  | inr bp ↦ elim (In-under (some i) acc r q n) [
    | inl nq ↦ let (j, t, e, l) = h q nq in (agree_heads i r.0 q p j t e l bp).1
    | inr bq ↦ agree-Behind (some i) r.0 p q b bp bq
  ]
]

next-HeadsBelow :
    (i : ℕ) (acc : Paths) (r : Paths × Bool)
    → HeadsBelow i acc
    → HeadsBelow (suc i) (under (some i) acc r)
next-HeadsBelow i acc r h p m = elim (In-under (some i) acc r p m) [
  | inl mp ↦ let (j, t, e, l) = h p mp in (j, t, e, omega arith)
  | inr (t, e, k) ↦ (i, t, e, omega arith)
]

empty-Agree : Agree []
empty-Agree p q m n = absurd m

empty-HeadsBelow : HeadsBelow 0 []
empty-HeadsBelow p m = absurd m

module _ (io_streams : ℕ → Bool) where
  mutual
    unfolding async_paths payload_paths types_paths

    async_paths-Agree : (t : Ty) → Agree (async_paths io_streams t).0
    async_paths-Agree (list t) = list-Agree (async_paths io_streams t) (async_paths-Agree t)
    async_paths-Agree (option t) = async_paths-Agree t
    async_paths-Agree (result t e) = merge_wildcards-Agree _
    async_paths-Agree (variant cs) = merge_wildcards-Agree _
    async_paths-Agree (tuple ts) = types_paths-Agree ts 0 [] empty-Agree empty-HeadsBelow
    async_paths-Agree (fields ts) = types_paths-Agree ts 0 [] empty-Agree empty-HeadsBelow
    async_paths-Agree (future p) = payload_paths-Agree p
    async_paths-Agree (stream p) = list-Agree (payload_paths io_streams p) (payload_paths-Agree p)
    async_paths-Agree (own r) = empty-Agree
    async_paths-Agree (borrow r) = empty-Agree
    async_paths-Agree (fixed_length_list t) = empty-Agree
    async_paths-Agree other = empty-Agree

    payload_paths-Agree : (p : Payload) → Agree (payload_paths io_streams p).0
    payload_paths-Agree no_payload = empty-Agree
    payload_paths-Agree (payload t) = async_paths-Agree t

    types_paths-Agree :
        (ts : Tys) (i : ℕ) (acc : Paths)
        → Agree acc
        → HeadsBelow i acc
        → Agree (types_paths io_streams i acc ts)
    types_paths-Agree no_tys i acc a h = a
    types_paths-Agree (ty t ts) i acc a h =
        types_paths-Agree ts (suc i) (under (some i) acc (async_paths io_streams t))
          (next-Agree i acc (async_paths io_streams t) a h (async_paths-Agree t))
          (next-HeadsBelow i acc (async_paths io_streams t) h)

  -- Whatever the types of the parameters, the paths computed for them never have both a wildcard
  -- and an index at one position behind a common prefix, as `Incoming::new` demands.
  pub params_async_paths-consistent :
      (ts : Tys) → consistent (params_async_paths io_streams ts) ≡ true
  unfolding params_async_paths
  params_async_paths-consistent ts =
      consistent-Agree (types_paths io_streams 0 [] ts)
        (types_paths-Agree ts 0 [] empty-Agree empty-HeadsBelow)
