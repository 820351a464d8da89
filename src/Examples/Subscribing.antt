-- ===== src/Examples/Subscribing.antt =====
-- Runs of the path computations of crates/introspect/src/lib.rs and crates/wasmtime/src/paths.rs.
use wrpc.Prelude.{ℕ, ◌≡◌, refl, inl, inr, Bool, true, List, [], ◌∷◌, Option, none, some, ◌==◌}
use wrpc.BTree.{option_ord, eq, lt}
use wrpc.Conn.Subscriptions.{Pattern, new, resolve}
use wrpc.Conn.Subscriptions.Declared.{In, Matches, agree, consistent}
use wrpc.AsyncPaths.{
  Paths, insert_path, extend, max_len, is_wildcard_at, has_wildcard, set_wildcard_at, merge_path,
  merge_rounds, merge_wildcards,
}
use wrpc.AsyncPaths.Merge.{merge_wildcards-Agree}
use wrpc.AsyncPaths.Types.{
  list, result, tuple, stream, own, other, payload, Tys, no_tys, ty, nest, async_paths,
  payload_paths, types_paths, params_async_paths,
}
use wrpc.AsyncPaths.Types.Consistent.{params_async_paths-consistent}
use wrpc.AsyncPaths.Types.Subscribed.{
  AsyncPart, Async, AsyncPayload, IsFree, IsPayloadFree, IsAllFree, params_async_paths-resolve,
}

abbrev mixed : Paths
mixed = (none ∷ some 1 ∷ []) ∷ (some 0 ∷ []) ∷ (some 2 ∷ none ∷ []) ∷ []

merges : merge_wildcards mixed ≡ (none ∷ []) ∷ (none ∷ none ∷ []) ∷ []
unfolding merge_wildcards extend insert_path merge_rounds merge_path max_len has_wildcard
    is_wildcard_at set_wildcard_at eq lt
merges = refl

abbrev first_path : List (Option ℕ)
first_path = none ∷ []

abbrev second_path : List (Option ℕ)
second_path = none ∷ none ∷ []

first-In : In first_path (merge_wildcards mixed)
first-In = rw merges (inl refl)

second-In : In second_path (merge_wildcards mixed)
second-In = rw merges (inr (inl refl))

merge_wildcards-Agree_example : agree first_path second_path ≡ true
merge_wildcards-Agree_example =
    merge_wildcards-Agree mixed first_path second_path first-In second-In

-- A list of streams or a tuple with a stream of `wasi:io` at index 1, and then a number.
abbrev params : Tys
params =
    ty
      (result (payload (list (stream (payload other))))
        (payload (tuple (ty other (ty (own 3) no_tys)))))
      (ty other no_tys)

abbrev is_3 : ℕ → Bool
is_3 r = r == 3

params_paths : params_async_paths is_3 params ≡ (some 0 ∷ none ∷ []) ∷ []
unfolding params_async_paths types_paths async_paths payload_paths nest merge_wildcards extend
    insert_path merge_rounds merge_path max_len has_wildcard is_wildcard_at set_wildcard_at eq lt
params_paths = refl

params_async_paths-consistent_example : consistent (params_async_paths is_3 params) ≡ true
params_async_paths-consistent_example = params_async_paths-consistent is_3 params

stream_in_list : AsyncPart is_3 0 params (0 ∷ 7 ∷ [])
unfolding AsyncPart Async AsyncPayload
stream_in_list = inl (7 ∷ [], refl, inl (inl refl))

all_free : IsAllFree params
unfolding IsAllFree IsFree IsPayloadFree
all_free = ((tt, (tt, (tt, tt))), (tt, tt))

params_async_paths-resolve_example :
    (n : Pattern) × (p : List (Option ℕ)) × (resolve
        (new (params_async_paths is_3 params) 0)
        (0 ∷ 7 ∷ [])
      ≡ some (n, p))
    × (n.declared ≡ true)
    × Matches p (0 ∷ 7 ∷ [])
params_async_paths-resolve_example =
    params_async_paths-resolve is_3 params 0 (0 ∷ 7 ∷ []) all_free stream_in_list
