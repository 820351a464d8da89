-- ===== src/AsyncPaths/Introspect/Agree.antt =====
-- The paths that crates/introspect/src/lib.rs computes for a WIT type, and those that
-- crates/wasmtime/src/paths.rs computes for the component's type that it stands for.
use wrpc.Prelude.{
  ℕ, zero, suc, ◌+◌, ◌<◌, ◌≤◌, ◌≡◌, refl, ap, sym, ◌∙◌, Bool, true, false, List, [], ◌∷◌, Option,
  none, some, lt→ltb, u32_mod, length, arith, max,
}
use wrpc.AsyncPaths.{Paths, extend, merge_wildcards}
use wrpc.AsyncPaths.Types.{
  Ty, Payload, Cases, Tys, no_payload, payload, no_cases, case, no_tys, ty, other, own, borrow,
  nest, under, extend_both, async_paths, payload_paths, cases_paths, types_paths,
}
use wrpc.AsyncPaths.Types as Types
use wrpc.AsyncPaths.Introspect.{
  WitType, primitive, id, TypeDefKind, Resolve, kind_of, list, fixed_length_list, option, result,
  variant, tuple, fields, future, stream, alias, resource, flags, enum, map, at_index, insert_both,
  of_payload, of_cases, of_types, of_kind, async_paths_ty, ◌>>=◌,
}
use wrpc.AsyncPaths.Introspect as Wit

-- The types that carry no other types.
pub data IsPlain : TypeDefKind → Type 0 where
  plain_flags : IsPlain flags
  plain_enum : IsPlain enum
  plain_map : IsPlain map

-- The component's type that a WIT type stands for. There is none for lists of fixed length, and
-- a handle is not one of the streams of `wasi:io`.
mutual
  pub data Denotes (resolve : Resolve) : WitType → Ty → Type 0 where
    primitives : (p : ℕ) → Denotes resolve (primitive p) other
    aliases :
        (i : ℕ) (t : WitType) (u : Ty)
        → kind_of resolve i ≡ some (alias t)
        → Denotes resolve t u
        → Denotes resolve (id i) u
    lists :
        (i : ℕ) (t : WitType) (u : Ty)
        → kind_of resolve i ≡ some (list t)
        → Denotes resolve t u
        → Denotes resolve (id i) (Types.list u)
    options :
        (i : ℕ) (t : WitType) (u : Ty)
        → kind_of resolve i ≡ some (option t)
        → Denotes resolve t u
        → Denotes resolve (id i) (Types.option u)
    results :
        (i : ℕ) (t e : Option WitType) (p q : Payload)
        → kind_of resolve i ≡ some (result t e)
        → CasesDenote resolve (t ∷ e ∷ []) (case p (case q no_cases))
        → Denotes resolve (id i) (Types.result p q)
    variants :
        (i : ℕ) (cs : List (Option WitType)) (ps : Cases)
        → kind_of resolve i ≡ some (variant cs)
        → CasesDenote resolve cs ps
        → Denotes resolve (id i) (Types.variant ps)
    tuples :
        (i : ℕ) (ts : List WitType) (us : Tys)
        → kind_of resolve i ≡ some (tuple ts)
        → length ts ≤ u32_mod
        → AllDenote resolve ts us
        → Denotes resolve (id i) (Types.tuple us)
    records :
        (i : ℕ) (ts : List WitType) (us : Tys)
        → kind_of resolve i ≡ some (fields ts)
        → length ts ≤ u32_mod
        → AllDenote resolve ts us
        → Denotes resolve (id i) (Types.fields us)
    futures :
        (i : ℕ) (t : Option WitType) (p : Payload)
        → kind_of resolve i ≡ some (future t)
        → MayDenote resolve t p
        → Denotes resolve (id i) (Types.future p)
    streams :
        (i : ℕ) (t : Option WitType) (p : Payload)
        → kind_of resolve i ≡ some (stream t)
        → MayDenote resolve t p
        → Denotes resolve (id i) (Types.stream p)
    owns : (i r : ℕ) → kind_of resolve i ≡ some Wit.own → Denotes resolve (id i) (own r)
    borrows : (i r : ℕ) → kind_of resolve i ≡ some Wit.borrow → Denotes resolve (id i) (borrow r)
    flags_or_enum :
        (i : ℕ) (k : TypeDefKind)
        → kind_of resolve i ≡ some k
        → IsPlain k
        → Denotes resolve (id i) other

  pub data MayDenote (resolve : Resolve) : Option WitType → Payload → Type 0 where
    nothing : MayDenote resolve none no_payload
    just : (t : WitType) (u : Ty) → Denotes resolve t u → MayDenote resolve (some t) (payload u)

  pub data CasesDenote (resolve : Resolve) : List (Option WitType) → Cases → Type 0 where
    end : CasesDenote resolve [] no_cases
    next :
        (t : Option WitType) (cs : List (Option WitType)) (p : Payload) (ps : Cases)
        → MayDenote resolve t p
        → CasesDenote resolve cs ps
        → CasesDenote resolve (t ∷ cs) (case p ps)

  pub data AllDenote (resolve : Resolve) : List WitType → Tys → Type 0 where
    end_types : AllDenote resolve [] no_tys
    next_type :
        (t : WitType) (ts : List WitType) (u : Ty) (us : Tys)
        → Denotes resolve t u
        → AllDenote resolve ts us
        → AllDenote resolve (t ∷ ts) (ty u us)

abbrev no_streams : ℕ → Bool
no_streams r = false

at_index-under :
    (i : ℕ) (paths : Paths) (got : Paths × Bool)
    → i < u32_mod
    → at_index i paths got ≡ some (under (some i) paths got)
unfolding nest
at_index-under i paths ([], false) h = refl
at_index-under i paths ([], true) h = rw (lt→ltb i u32_mod h) refl
at_index-under i paths (p ∷ ps, fut) h = rw (lt→ltb i u32_mod h) refl

insert_both-extend_both : (acc got : Paths × Bool) → insert_both acc got ≡ extend_both acc got
insert_both-extend_both (paths, true) (nested, true) = refl
insert_both-extend_both (paths, true) (nested, false) = refl
insert_both-extend_both (paths, false) (nested, true) = refl
insert_both-extend_both (paths, false) (nested, false) = refl

extend_both-nothing : (acc : Paths × Bool) → extend_both acc ([], false) ≡ acc
unfolding extend
extend_both-nothing (paths, true) = refl
extend_both-nothing (paths, false) = refl

module _ (resolve : Resolve) where
  -- With enough fuel the function `f` gives `a`.
  abbrev Gives : {A : Type 0} → (ℕ → Option A) → A → Type 0
  Gives f a = (n : ℕ) × ((fuel : ℕ) → n ≤ fuel → f fuel ≡ some a)

  at_kind :
      (i : ℕ) (k : TypeDefKind) (a : Paths × Bool)
      → kind_of resolve i ≡ some k
      → Gives (λ fuel. of_kind (async_paths_ty resolve fuel) k) a
      → Gives (λ fuel. async_paths_ty resolve fuel (id i)) a
  unfolding async_paths_ty
  at_kind i k a e (n, h) = (suc n, at)
    where
      at : (fuel : ℕ) → suc n ≤ fuel → async_paths_ty resolve fuel (id i) ≡ some a
      at zero l = absurd (omega arith)
      at (suc fuel) l =
          ap (λ q. q >>= of_kind (async_paths_ty resolve fuel)) e ∙ h fuel (omega arith)

  Gives-map :
      {A B : Type 0} (f : ℕ → Option A) (g : A → B) (a : A)
      → Gives f a
      → Gives (λ fuel. f fuel >>= λ x. some (g x)) (g a)
  Gives-map f g a (n, h) = (n, λ fuel l. ap (λ q. q >>= λ x. some (g x)) (h fuel l))

  plain-Gives :
      (k : TypeDefKind)
      → IsPlain k
      → Gives (λ fuel. of_kind (async_paths_ty resolve fuel) k) ([], false)
  unfolding of_kind
  plain-Gives k plain_flags = (0, λ fuel l. refl)
  plain-Gives k plain_enum = (0, λ fuel l. refl)
  plain-Gives k plain_map = (0, λ fuel l. refl)

  mutual
    unfolding of_payload of_cases of_types of_kind async_paths async_paths_ty

    agrees :
        (t : WitType) (u : Ty)
        → Denotes resolve t u
        → Gives (λ fuel. async_paths_ty resolve fuel t) (async_paths no_streams u)
    agrees t u (primitives p) = (0, λ fuel l. refl)
    agrees t u (aliases i v w e d) = at_kind i (alias v) (async_paths no_streams w) e (agrees v w d)
    agrees t u (lists i v w e d) =
        at_kind i (list v) (under none [] (async_paths no_streams w), false) e
          (Gives-map (λ fuel. async_paths_ty resolve fuel v) (λ got. (under none [] got, false))
            (async_paths no_streams w) (agrees v w d))
    agrees t u (options i v w e d) =
        at_kind i (option v) (async_paths no_streams w) e (agrees v w d)
    agrees t u (results i v x p q e d) =
        let acc = cases_paths no_streams ([], false) (case p (case q no_cases)) in
        at_kind i (result v x) (merge_wildcards (acc.0), acc.1) e
          (Gives-map (λ fuel. of_cases (async_paths_ty resolve fuel) ([], false) (v ∷ x ∷ []))
            (λ got. (merge_wildcards (got.0), got.1)) acc
            (agrees_cases (v ∷ x ∷ []) (case p (case q no_cases)) d ([], false)))
    agrees t u (variants i cs ps e d) =
        let acc = cases_paths no_streams ([], false) ps in
        at_kind i (variant cs) (merge_wildcards (acc.0), acc.1) e
          (Gives-map (λ fuel. of_cases (async_paths_ty resolve fuel) ([], false) cs)
            (λ got. (merge_wildcards (got.0), got.1)) acc (agrees_cases cs ps d ([], false)))
    agrees t u (tuples i ts us e l d) =
        at_kind i (tuple ts) (types_paths no_streams 0 [] us, false) e
          (Gives-map (λ fuel. of_types (async_paths_ty resolve fuel) 0 [] ts)
            (λ paths. (paths, false)) (types_paths no_streams 0 [] us)
            (agrees_types ts us d 0 [] (omega arith)))
    agrees t u (records i ts us e l d) =
        at_kind i (fields ts) (types_paths no_streams 0 [] us, false) e
          (Gives-map (λ fuel. of_types (async_paths_ty resolve fuel) 0 [] ts)
            (λ paths. (paths, false)) (types_paths no_streams 0 [] us)
            (agrees_types ts us d 0 [] (omega arith)))
    agrees t u (futures i v p e d) =
        at_kind i (future v) ((payload_paths no_streams p).0, true) e
          (Gives-map (λ fuel. of_payload (async_paths_ty resolve fuel) v) (λ got. (got.0, true))
            (payload_paths no_streams p) (agrees_payload v p d))
    agrees t u (streams i v p e d) =
        at_kind i (stream v) (under none [] (payload_paths no_streams p), true) e
          (Gives-map (λ fuel. of_payload (async_paths_ty resolve fuel) v)
            (λ got. (under none [] got, true)) (payload_paths no_streams p) (agrees_payload v p d))
    agrees t u (owns i r e) = at_kind i Wit.own ([], false) e (0, λ fuel l. refl)
    agrees t u (borrows i r e) = at_kind i Wit.borrow ([], false) e (0, λ fuel l. refl)
    agrees t u (flags_or_enum i k e plain) = at_kind i k ([], false) e (plain-Gives k plain)

    agrees_payload :
        (t : Option WitType) (p : Payload)
        → MayDenote resolve t p
        → Gives (λ fuel. of_payload (async_paths_ty resolve fuel) t) (payload_paths no_streams p)
    agrees_payload t p nothing = (0, λ fuel l. refl)
    agrees_payload t p (just v u d) = agrees v u d

    agrees_cases :
        (cs : List (Option WitType)) (ps : Cases)
        → CasesDenote resolve cs ps
        → (acc : Paths × Bool)
        → Gives
            (λ fuel. of_cases (async_paths_ty resolve fuel) acc cs)
            (cases_paths no_streams acc ps)
    agrees_cases cs ps end acc = (0, λ fuel l. refl)
    agrees_cases cs ps (next t ds p qs nothing k) acc =
        let (n, h) = agrees_cases ds qs k acc in
        (
          n,
          λ fuel l.
              h fuel l
              ∙ ap (λ a. some (cases_paths no_streams a qs)) (sym (extend_both-nothing acc)),
        )
    agrees_cases cs ps (next t ds p qs (just v u d) k) acc =
        let got = async_paths no_streams u in
        let (n, h) = agrees v u d in
        let (m, g) = agrees_cases ds qs k (insert_both acc got) in
        (
          max n m,
          λ fuel l.
              ap (λ o. o >>= λ x. of_cases (async_paths_ty resolve fuel) (insert_both acc x) ds)
                (h fuel (omega arith))
              ∙ g fuel (omega arith)
              ∙ ap (λ a. some (cases_paths no_streams a qs)) (insert_both-extend_both acc got),
        )

    agrees_types :
        (ts : List WitType) (us : Tys)
        → AllDenote resolve ts us
        → (i : ℕ) (paths : Paths) → i + length ts ≤ u32_mod
        → Gives
            (λ fuel. of_types (async_paths_ty resolve fuel) i paths ts)
            (types_paths no_streams i paths us)
    agrees_types ts us end_types i paths l = (0, λ fuel z. refl)
    agrees_types ts us (next_type t vs u ws d k) i paths l =
        let got = async_paths no_streams u in
        let (n, h) = agrees t u d in
        let (m, g) = agrees_types vs ws k (suc i) (under (some i) paths got) (omega arith) in
        (
          max n m,
          λ fuel z.
              ap
                (λ o. o >>= λ x.
                  at_index i paths x >>= λ y. of_types (async_paths_ty resolve fuel) (suc i) y vs)
                (h fuel (omega arith))
              ∙ ap (λ o. o >>= λ y. of_types (async_paths_ty resolve fuel) (suc i) y vs)
                  (at_index-under i paths got (omega arith))
              ∙ g fuel (omega arith),
        )

  -- For a WIT type that stands for a type of a component, in which there is no list of fixed
  -- length, and no handle is a stream of `wasi:io`: with enough fuel the paths that are computed
  -- for bindings are those that the runtime computes, and so is whether the type itself is
  -- asynchronous. For a list of fixed length of such a type, the bindings have the paths of any
  -- other list, and the runtime has none.
  pub async_paths_ty-async_paths :
      (t : WitType) (u : Ty)
      → Denotes resolve t u
      → ((n : ℕ) × ((fuel : ℕ)
            → n ≤ fuel
            → async_paths_ty resolve fuel t ≡ some (async_paths (λ r. false) u)))
        × ((i : ℕ)
            → kind_of resolve i ≡ some (fixed_length_list t)
            → ((n : ℕ) × ((fuel : ℕ)
                  → n ≤ fuel
                  → async_paths_ty resolve fuel (id i)
                    ≡ some (async_paths (λ r. false) (Types.list u))))
              × (async_paths (λ r. false) (Types.fixed_length_list u) ≡ ([], false)))
  unfolding of_kind async_paths
  async_paths_ty-async_paths t u d = (
    agrees t u d,
    λ i e. (
      at_kind i (fixed_length_list t) (under none [] (async_paths no_streams u), false) e
          (Gives-map (λ fuel. async_paths_ty resolve fuel t) (λ got. (under none [] got, false))
            (async_paths no_streams u) (agrees t u d)),
      refl,
    ),
  )
