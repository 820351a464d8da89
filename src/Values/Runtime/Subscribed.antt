-- ===== src/Values/Runtime/Subscribed.antt =====
-- What crates/wasmtime/src/codec.rs defers, against the paths that crates/wasmtime/src/paths.rs
-- computes of the types and the subscriptions of crates/transport/src/frame/conn/mod.rs.
use wrpc.Prelude.{
  ℕ, zero, suc, ◌≡◌, refl, Bool, true, List, [], ◌∷◌, ◌++◌, append_assoc, append-nil, Option, some,
  Bytes, All, inl, inr,
}
use wrpc.Leb128.{Leb128}
use wrpc.Values.{
  Ty, MaybeTy, Tys, FieldTys, CaseTys, Value, MaybeValue, Values, Fields, number, text, list_of,
  record_of, tuple_of, variant_of, enum_of, option_of, result_of, flags_of, future_of, stream_of,
  error_context, map_of, fixed_length_list, no_ty, some_ty, no_tys, ty, no_field_tys, field_ty,
  no_case_tys, case_ty, num, str, list, fields, tuple, variant, enum, option, result_ok, result_err,
  flags, future, stream, no_value, some_value, no_values, value, no_fields, entry,
}
use wrpc.Values.Prims.{Prims}
use wrpc.Values.Discriminants.{get_case, get_case-variant_discriminant}
use wrpc.Values.Typing.{HasType, HasMaybeType, AllHaveType, HasTypes, HasFieldTypes}
use wrpc.Values.Runtime.{Writes}
use wrpc.Values.Runtime.Paths.{sources, sources_payload, sources_list, sources_record}
use wrpc.AsyncPaths.Types.{
  Payload, no_payload, payload, Cases, no_cases, case, params_async_paths, list as list_shape,
  option as option_shape, result as result_shape, variant as variant_shape, tuple as tuple_shape,
  fields as fields_shape, future as future_shape, stream as stream_shape, other as other_shape,
  Ty as Shape, Tys as Shapes, no_tys as no_shapes, ty as shape_ty,
}
use wrpc.AsyncPaths.Types.Subscribed.{
  Async, AsyncPayload, AsyncCase, AsyncPart, IsFree, IsPayloadFree, IsCasesFree, IsAllFree,
  params_async_paths-resolve,
}
use wrpc.Conn.Subscriptions.{Pattern, new, resolve}
use wrpc.Conn.Subscriptions.Declared.{Matches}

-- What the computation of the paths sees of a type. The codec refuses lists of fixed length and
-- maps, so that of their elements nothing is seen.
unfoldable mutual
  pub shape : Ty → Shape
  shape (number k) = other_shape
  shape text = other_shape
  shape (list_of t) = list_shape (shape t)
  shape (record_of ts) = fields_shape (shape_fields ts)
  shape (tuple_of ts) = tuple_shape (shapes ts)
  shape (variant_of cases) = variant_shape (shape_cases cases)
  shape (enum_of names) = other_shape
  shape (option_of t) = option_shape (shape t)
  shape (result_of o e) = result_shape (shape_payload o) (shape_payload e)
  shape (flags_of names) = other_shape
  shape (future_of m) = future_shape (shape_payload m)
  shape (stream_of m) = stream_shape (shape_payload m)
  shape error_context = other_shape
  shape map_of = other_shape
  shape fixed_length_list = other_shape

  pub shape_payload : MaybeTy → Payload
  shape_payload no_ty = no_payload
  shape_payload (some_ty t) = payload (shape t)

  pub shapes : Tys → Shapes
  shapes no_tys = no_shapes
  shapes (ty t ts) = shape_ty (shape t) (shapes ts)

  pub shape_fields : FieldTys → Shapes
  shape_fields no_field_tys = no_shapes
  shape_fields (field_ty name t ts) = shape_ty (shape t) (shape_fields ts)

  pub shape_cases : CaseTys → Cases
  shape_cases no_case_tys = no_cases
  shape_cases (case_ty name m cases) = case (shape_payload m) (shape_cases cases)

mutual
  unfolding shape shape_payload shapes shape_fields shape_cases IsFree IsPayloadFree IsCasesFree
      IsAllFree

  shape-IsFree : (t : Ty) → IsFree (shape t)
  shape-IsFree (number k) = tt
  shape-IsFree text = tt
  shape-IsFree (list_of t) = shape-IsFree t
  shape-IsFree (record_of ts) = fields-IsFree ts
  shape-IsFree (tuple_of ts) = shapes-IsAllFree ts
  shape-IsFree (variant_of cases) = cases-IsFree cases
  shape-IsFree (enum_of names) = tt
  shape-IsFree (option_of t) = shape-IsFree t
  shape-IsFree (result_of o e) = (payload-IsFree o, payload-IsFree e)
  shape-IsFree (flags_of names) = tt
  shape-IsFree (future_of m) = payload-IsFree m
  shape-IsFree (stream_of m) = payload-IsFree m
  shape-IsFree error_context = tt
  shape-IsFree map_of = tt
  shape-IsFree fixed_length_list = tt

  payload-IsFree : (m : MaybeTy) → IsPayloadFree (shape_payload m)
  payload-IsFree no_ty = tt
  payload-IsFree (some_ty t) = shape-IsFree t

  shapes-IsAllFree : (ts : Tys) → IsAllFree (shapes ts)
  shapes-IsAllFree no_tys = tt
  shapes-IsAllFree (ty t ts) = (shape-IsFree t, shapes-IsAllFree ts)

  fields-IsFree : (ts : FieldTys) → IsAllFree (shape_fields ts)
  fields-IsFree no_field_tys = tt
  fields-IsFree (field_ty name t ts) = (shape-IsFree t, fields-IsFree ts)

  cases-IsFree : (cs : CaseTys) → IsCasesFree (shape_cases cs)
  cases-IsFree no_case_tys = tt
  cases-IsFree (case_ty name m cs) = (payload-IsFree m, cases-IsFree cs)

module _ {leb : Leb128} (p : Prims leb) (io_streams : ℕ → Bool) (P : List ℕ → Type 0) where
  -- `P` holds of the paths of the sources.
  abbrev AllPaths : Writes → Type 0
  AllPaths writes = All (λ w. P (w.0)) writes

  -- `P` holds below `path` of the positions with `Q`.
  abbrev Below : List ℕ → (List ℕ → Type 0) → Type 0
  Below path Q = (rest : List ℕ) → Q rest → P (path ++ rest)

  AllPaths-append : (a b : Writes) → AllPaths a → AllPaths b → AllPaths (a ++ b)
  AllPaths-append [] b h k = k
  AllPaths-append (w ∷ a) b (h, l) k = (h, AllPaths-append a b l k)

  get_case-AsyncCase :
      (cases : CaseTys) (d : ℕ) (name : Bytes) (m : MaybeTy) (rest : List ℕ)
      → get_case cases d ≡ some (name, m)
      → AsyncPayload io_streams (shape_payload m) rest
      → AsyncCase io_streams (shape_cases cases) rest
  unfolding get_case shape Async
  get_case-AsyncCase no_case_tys d name m rest e h = cc
  get_case-AsyncCase (case_ty n k cases) zero name m rest e h =
      let same : k ≡ m = cc in inl (rw (same) h)
  get_case-AsyncCase (case_ty n k cases) (suc d) name m rest e h =
      inr (get_case-AsyncCase cases d name m rest e h)

  Below-cons :
      (path : List ℕ) (i : ℕ) (Q R : List ℕ → Type 0)
      → Below path Q
      → ((rest : List ℕ) → R rest → Q (i ∷ rest))
      → Below (path ++ i ∷ []) R
  Below-cons path i Q R f g rest h = rw (append_assoc path (i ∷ []) rest) (f (i ∷ rest) (g rest h))

  Below-here : (path : List ℕ) (Q : List ℕ → Type 0) → Below path Q → Q [] → P path
  Below-here path Q f h = rw (← append-nil path) (f [] h)

  mutual
    unfolding sources shape Async

    sources-Below :
        (v : Value) (t : Ty) (path : List ℕ)
        → HasType p true v t
        → Below path (Async io_streams (shape t))
        → AllPaths (sources path v)
    sources-Below (num k n) t path h f = tt
    sources-Below (str s) t path h f = tt
    sources-Below (list vs) t path (a, e, l, h) f =
        sources_list-Below vs a 0 path h (λ rest k. f rest (rw (e) k))
    sources-Below (fields fs) t path (ts, e, h) f =
        sources_record-Below fs ts 0 path h (λ rest k. f rest (rw (e) k))
    sources-Below (tuple vs) t path (ts, e, h) f =
        sources_tuple-Below vs ts 0 path h (λ rest k. f rest (rw (e) k))
    sources-Below (variant name v) t path (cases, d, m, e, found, h) f =
        let (l, at) = get_case-variant_discriminant cases name d m found in
        sources_payload-Below v m path h
          (λ rest k. f rest (rw (e) (get_case-AsyncCase cases d name m rest at k)))
    sources-Below (enum name) t path h f = tt
    sources-Below (option no_value) t path h f = tt
    sources-Below (option (some_value v)) t path (a, e, h) f =
        sources-Below v a path h (λ rest k. f rest (rw (e) k))
    sources-Below (result_ok v) t path (m, o, e, h) f =
        sources_payload-Below v m path h (λ rest k. f rest (rw (e) (inl k)))
    sources-Below (result_err v) t path (m, o, e, h) f =
        sources_payload-Below v m path h (λ rest k. f rest (rw (e) (inr k)))
    sources-Below (flags fs) t path h f = tt
    sources-Below (future source) t path (m, e, async, h, k) f =
        (Below-here path (Async io_streams (shape t)) f (rw (e) (inl refl)), tt)
    sources-Below (stream source) t path (a, e, async, h, k) f =
        (Below-here path (Async io_streams (shape t)) f (rw (e) (inl refl)), tt)

    sources_payload-Below :
        (v : MaybeValue) (m : MaybeTy) (path : List ℕ)
        → HasMaybeType p true v m
        → Below path (AsyncPayload io_streams (shape_payload m))
        → AllPaths (sources_payload path v)
    sources_payload-Below no_value m path h f = tt
    sources_payload-Below (some_value v) m path (t, e, h) f =
        sources-Below v t path h (λ rest k. f rest (rw (e) k))

    sources_list-Below :
        (vs : Values) (t : Ty) (i : ℕ) (path : List ℕ)
        → AllHaveType p true vs t
        → Below path (Async io_streams (list_shape (shape t)))
        → AllPaths (sources_list path i vs)
    sources_list-Below no_values t i path h f = tt
    sources_list-Below (value v vs) t i path (h, k) f =
        AllPaths-append (sources (path ++ i ∷ []) v) (sources_list path (suc i) vs)
          (sources-Below v t (path ++ i ∷ []) h (
            Below-cons path i (Async io_streams (list_shape (shape t))) (Async io_streams (shape t))
              f (λ rest l. l)))
          (sources_list-Below vs t (suc i) path k f)

    sources_tuple-Below :
        (vs : Values) (ts : Tys) (i : ℕ) (path : List ℕ)
        → HasTypes p true vs ts
        → Below path (AsyncPart io_streams i (shapes ts))
        → AllPaths (sources_list path i vs)
    sources_tuple-Below no_values ts i path h f = tt
    sources_tuple-Below (value v vs) ts i path (t, later, e, h, k) f =
        let g : Below path (AsyncPart io_streams i (shapes (ty t later))) =
          λ rest l. f rest (rw (e) l) in
        AllPaths-append (sources (path ++ i ∷ []) v) (sources_list path (suc i) vs)
          (sources-Below v t (path ++ i ∷ []) h (
            Below-cons path i (AsyncPart io_streams i (shapes (ty t later)))
              (Async io_streams (shape t)) g (λ rest l. inl (rest, refl, l))))
          (sources_tuple-Below vs later (suc i) path k (λ rest l. g rest (inr l)))

    sources_record-Below :
        (fs : Fields) (ts : FieldTys) (i : ℕ) (path : List ℕ)
        → HasFieldTypes p true fs ts
        → Below path (AsyncPart io_streams i (shape_fields ts))
        → AllPaths (sources_record path i fs)
    sources_record-Below no_fields ts i path h f = tt
    sources_record-Below (entry n v fs) ts i path (t, later, e, h, k) f =
        let g : Below path (AsyncPart io_streams i (shape_fields (field_ty n t later))) =
          λ rest l. f rest (rw (e) l) in
        AllPaths-append (sources (path ++ i ∷ []) v) (sources_record path (suc i) fs)
          (sources-Below v t (path ++ i ∷ []) h (
            Below-cons path i (AsyncPart io_streams i (shape_fields (field_ty n t later)))
              (Async io_streams (shape t)) g (λ rest l. inl (rest, refl, l))))
          (sources_record-Below fs later (suc i) path k (λ rest l. g rest (inr l)))

-- The parameters of a function are coded like the elements of a tuple. Whatever the types and the
-- values of the parameters are, the path of each future and stream in them is one that the
-- subscriptions made of the paths computed for the types resolve to a declared path.
pub sources_list-resolve :
    {leb : Leb128} (p : Prims leb) (io_streams : ℕ → Bool) (vs : Values) (ts : Tys) (root : ℕ)
    → HasTypes p true vs ts
    → All
        (λ w.
          (n : Pattern) × (q : List (Option ℕ)) × (resolve
              (new (params_async_paths io_streams (shapes ts)) root)
              (w.0)
            ≡ some (n, q))
          × (n.declared ≡ true)
          × Matches q (w.0))
        (sources_list [] 0 vs)
sources_list-resolve p io_streams vs ts root h =
    sources_tuple-Below p io_streams
      (λ path.
        (n : Pattern) × (q : List (Option ℕ)) × (resolve
            (new (params_async_paths io_streams (shapes ts)) root) path
          ≡ some (n, q))
        × (n.declared ≡ true)
        × Matches q path)
      vs ts 0 [] h
      (λ rest k.
        params_async_paths-resolve io_streams (shapes ts) root rest (shapes-IsAllFree ts) k)
