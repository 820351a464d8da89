-- ===== src/AsyncPaths/Types/Subscribed.antt =====
-- The paths of crates/wasmtime/src/paths.rs, as `Subscriptions` of
-- crates/transport/src/frame/conn/mod.rs resolves them.
use wrpc.Prelude.{
  ℕ, suc, ◌≡◌, refl, ◌⊎◌, inl, inr, Bool, true, false, List, [], ◌∷◌, Option, none, some,
}
use wrpc.Conn.Subscriptions.{Pattern, new, resolve}
use wrpc.Conn.Subscriptions.Declared.{Matches}
use wrpc.Conn.Subscriptions.Declared.Resolve.{resolve-Matches}
use wrpc.AsyncPaths.{Paths}
use wrpc.AsyncPaths.Types.{
  Ty, list, fixed_length_list, option, result, variant, tuple, fields, future, stream, own, borrow,
  other, Payload, no_payload, payload, Cases, no_cases, case, Tys, no_tys, ty, under, extend_both,
  async_paths, payload_paths, cases_paths, types_paths, params_async_paths,
}
use wrpc.AsyncPaths.Types.Consistent.{params_async_paths-consistent}
use wrpc.AsyncPaths.Types.Covered.{
  Covers, Found, Found-merged, Found-extend_both, Covers-under, under-Covers,
}

-- Below an element of a list or a stream.
abbrev Inside : (List ℕ → Type 0) → List ℕ → Type 0
Inside P [] = ⊥
Inside P (i ∷ path) = P path

Inside-Covers :
    (r : Paths × Bool) (P : List ℕ → Type 0)
    → ((path : List ℕ) → P path → Found r path)
    → (path : List ℕ) → Inside P path
    → Covers (under none [] r) path
Inside-Covers r P f [] h = absurd h
Inside-Covers r P f (i ∷ path) h = under-Covers none [] r i path tt (f path h)

Found-future : (r : Paths × Bool) (path : List ℕ) → Found r path → Found (r.0, true) path
Found-future (ps, fut) path (inl (e, h)) = inl (e, refl)
Found-future (ps, fut) path (inr h) = inr h

-- There is no list of fixed length in the type: `async_paths` gives no path for the elements of one,
-- whatever they are.
unfoldable mutual
  pub IsFree : Ty → Type 0
  IsFree (list t) = IsFree t
  IsFree (fixed_length_list t) = ⊥
  IsFree (option t) = IsFree t
  IsFree (result t e) = IsPayloadFree t × IsPayloadFree e
  IsFree (variant cs) = IsCasesFree cs
  IsFree (tuple ts) = IsAllFree ts
  IsFree (fields ts) = IsAllFree ts
  IsFree (future p) = IsPayloadFree p
  IsFree (stream p) = IsPayloadFree p
  IsFree (own r) = Unit {0}
  IsFree (borrow r) = Unit {0}
  IsFree other = Unit {0}

  pub IsPayloadFree : Payload → Type 0
  IsPayloadFree no_payload = Unit {0}
  IsPayloadFree (payload t) = IsFree t

  pub IsCasesFree : Cases → Type 0
  IsCasesFree no_cases = Unit {0}
  IsCasesFree (case p cs) = IsPayloadFree p × IsCasesFree cs

  pub IsAllFree : Tys → Type 0
  IsAllFree no_tys = Unit {0}
  IsAllFree (ty t ts) = IsFree t × IsAllFree ts

module _ (io_streams : ℕ → Bool) where
  -- A value of the type may have, at the position `path` of it, a future or a stream, those in maps
  -- left out.
  unfoldable mutual
    pub Async : Ty → List ℕ → Type 0
    Async (list t) path = Inside (λ rest. Async t rest) path
    Async (fixed_length_list t) path = Inside (λ rest. Async t rest) path
    Async (option t) path = Async t path
    Async (result t e) path = AsyncPayload t path ⊎ AsyncPayload e path
    Async (variant cs) path = AsyncCase cs path
    Async (tuple ts) path = AsyncPart 0 ts path
    Async (fields ts) path = AsyncPart 0 ts path
    Async (future p) path = (path ≡ []) ⊎ AsyncPayload p path
    Async (stream p) path = (path ≡ []) ⊎ Inside (λ rest. AsyncPayload p rest) path
    Async (own r) path = (path ≡ []) × (io_streams r ≡ true)
    Async (borrow r) path = (path ≡ []) × (io_streams r ≡ true)
    Async other path = ⊥

    pub AsyncPayload : Payload → List ℕ → Type 0
    AsyncPayload no_payload path = ⊥
    AsyncPayload (payload t) path = Async t path

    pub AsyncCase : Cases → List ℕ → Type 0
    AsyncCase no_cases path = ⊥
    AsyncCase (case p cs) path = AsyncPayload p path ⊎ AsyncCase cs path

    -- In one of the parts, which have the indices from `k` on.
    pub AsyncPart : ℕ → Tys → List ℕ → Type 0
    AsyncPart k no_tys path = ⊥
    AsyncPart k (ty t ts) path =
        ((rest : List ℕ) × (path ≡ k ∷ rest) × Async t rest) ⊎ AsyncPart (suc k) ts path

  types_paths-kept :
      (ts : Tys) (i : ℕ) (acc : Paths) (path : List ℕ)
      → Covers acc path
      → Covers (types_paths io_streams i acc ts) path
  unfolding types_paths
  types_paths-kept no_tys i acc path h = h
  types_paths-kept (ty t ts) i acc path h =
      types_paths-kept ts (suc i) (under (some i) acc (async_paths io_streams t)) path
        (Covers-under (some i) acc (async_paths io_streams t) path h)

  cases_paths-kept :
      (cs : Cases) (acc : Paths × Bool) (path : List ℕ)
      → Found acc path
      → Found (cases_paths io_streams acc cs) path
  unfolding cases_paths
  cases_paths-kept no_cases acc path h = h
  cases_paths-kept (case p cs) acc path h =
      cases_paths-kept cs (extend_both acc (payload_paths io_streams p)) path
        (Found-extend_both acc (payload_paths io_streams p) path (inl h))

  mutual
    unfolding async_paths payload_paths cases_paths types_paths Async AsyncPayload AsyncCase
        AsyncPart IsFree IsPayloadFree IsCasesFree IsAllFree

    async_paths-Found :
        (t : Ty) (path : List ℕ) → IsFree t → Async t path → Found (async_paths io_streams t) path
    async_paths-Found (list t) path free h = inr (
        Inside-Covers (async_paths io_streams t) (λ rest. Async t rest)
          (λ rest k. async_paths-Found t rest free k) path h)
    async_paths-Found (fixed_length_list t) path free h = absurd free
    async_paths-Found (option t) path free h = async_paths-Found t path free h
    async_paths-Found (result t e) path (ft, fe) (inl h) =
        let r = payload_paths io_streams t in
        let first = extend_both ([], false) r in
        Found-merged (extend_both first (payload_paths io_streams e)) path (
          Found-extend_both first (payload_paths io_streams e) path
            (inl (Found-extend_both ([], false) r path (inr (payload_paths-Found t path ft h)))))
    async_paths-Found (result t e) path (ft, fe) (inr h) =
        let first = extend_both ([], false) (payload_paths io_streams t) in
        Found-merged (extend_both first (payload_paths io_streams e)) path (
          Found-extend_both first (payload_paths io_streams e) path
            (inr (payload_paths-Found e path fe h)))
    async_paths-Found (variant cs) path free h =
        Found-merged (cases_paths io_streams ([], false) cs) path
          (cases_paths-Found cs ([], false) path free h)
    async_paths-Found (tuple ts) path free h = inr (types_paths-Covers ts 0 [] path free h)
    async_paths-Found (fields ts) path free h = inr (types_paths-Covers ts 0 [] path free h)
    async_paths-Found (future p) path free (inl e) = inl (e, refl)
    async_paths-Found (future p) path free (inr h) =
        Found-future (payload_paths io_streams p) path (payload_paths-Found p path free h)
    async_paths-Found (stream p) path free (inl e) = inl (e, refl)
    async_paths-Found (stream p) path free (inr h) = inr (
        Inside-Covers (payload_paths io_streams p) (λ rest. AsyncPayload p rest)
          (λ rest k. payload_paths-Found p rest free k) path h)
    async_paths-Found (own r) path free h = inl h
    async_paths-Found (borrow r) path free h = inl h
    async_paths-Found other path free h = absurd h

    payload_paths-Found :
        (p : Payload) (path : List ℕ)
        → IsPayloadFree p
        → AsyncPayload p path
        → Found (payload_paths io_streams p) path
    payload_paths-Found no_payload path free h = absurd h
    payload_paths-Found (payload t) path free h = async_paths-Found t path free h

    cases_paths-Found :
        (cs : Cases) (acc : Paths × Bool) (path : List ℕ)
        → IsCasesFree cs
        → AsyncCase cs path
        → Found (cases_paths io_streams acc cs) path
    cases_paths-Found no_cases acc path free h = absurd h
    cases_paths-Found (case p cs) acc path (fp, fcs) (inl h) =
        cases_paths-kept cs (extend_both acc (payload_paths io_streams p)) path (
          Found-extend_both acc (payload_paths io_streams p) path
            (inr (payload_paths-Found p path fp h)))
    cases_paths-Found (case p cs) acc path (fp, fcs) (inr h) =
        cases_paths-Found cs (extend_both acc (payload_paths io_streams p)) path fcs h

    types_paths-Covers :
        (ts : Tys) (i : ℕ) (acc : Paths) (path : List ℕ)
        → IsAllFree ts
        → AsyncPart i ts path
        → Covers (types_paths io_streams i acc ts) path
    types_paths-Covers no_tys i acc path free h = absurd h
    types_paths-Covers (ty t ts) i acc path (ft, fts) (inl (rest, e, h)) =
        let r = async_paths io_streams t in
        types_paths-kept ts (suc i) (under (some i) acc r) path
          (rw e (under-Covers (some i) acc r i rest (refl, tt) (async_paths-Found t rest ft h)))
    types_paths-Covers (ty t ts) i acc path (ft, fts) (inr h) =
        types_paths-Covers ts (suc i) (under (some i) acc (async_paths io_streams t)) path fts h

  -- For types of parameters in which there is no list of fixed length, each position at which a
  -- value of them may have a future or a stream, a parameter's index in front and those in maps
  -- left out, is resolved to a declared path by the subscriptions that are made of the paths
  -- computed for those types.
  pub params_async_paths-resolve :
      (ts : Tys) (root : ℕ) (path : List ℕ)
      → IsAllFree ts
      → AsyncPart 0 ts path
      → (n : Pattern) × (p : List (Option ℕ)) × (resolve
            (new (params_async_paths io_streams ts) root)
            path
          ≡ some (n, p))
        × (n.declared ≡ true)
        × Matches p path
  unfolding params_async_paths
  params_async_paths-resolve ts root path free h =
      let (p, m, match) = types_paths-Covers ts 0 [] path free h in
      let (n, e, d) =
        resolve-Matches (params_async_paths io_streams ts) root p path
          (params_async_paths-consistent io_streams ts) m match in
      (n, p, e, d, match)
