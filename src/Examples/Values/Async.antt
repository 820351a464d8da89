-- ===== src/Examples/Values/Async.antt =====
-- Runs on values with futures and streams.
use wrpc.Prelude.{
  ℕ, ◌≡◌, refl, true, false, List, [], ◌∷◌, ◌++◌, Option, some, Bytes, ok, arith, All,
}
use wrpc.Leb128.Varint.{read_varint}
use wrpc.Reader.{slice}
use wrpc.Conn.Subscriptions.{Pattern, new, resolve}
use wrpc.Conn.Subscriptions.Declared.{Matches}
use wrpc.AsyncPaths.Types.{params_async_paths}
use wrpc.Values.{
  Tys, Values, u8, number, text, list_of, tuple_of, future_of, stream_of, some_ty, no_tys, ty, list,
  tuple, future, stream, no_values, value, local,
}
use wrpc.Values.Typing.{HasTypes}
use wrpc.Values.Runtime.Encoder.{encode_val}
use wrpc.Values.Runtime.Decoder.{read_val}
use wrpc.Values.Runtime.Paths.{sources, located, sources_list}
use wrpc.Values.Runtime.Sent.{Opened}
use wrpc.Values.Runtime.RoundTrip.{read_val-encode_val}
use wrpc.Values.Runtime.Subscribed.{shapes, sources_list-resolve}
use wrpc.Examples.Values.Coders.{prims, core_names, host}

-- A list of two futures, and a stream.
abbrev types : Tys
types = ty (list_of (future_of (some_ty (number u8)))) (ty (stream_of (some_ty text)) no_tys)

abbrev values : Values
values =
    value (list (value (future (local 0)) (value (future (local 1)) no_values)))
      (value (stream (local 2)) no_values)

values-HasTypes : HasTypes prims true values types
values-HasTypes = (
  _,
  _,
  refl,
  (
    _,
    refl,
    omega arith,
    ((_, refl, refl, refl, (0, refl)), ((_, refl, refl, refl, (1, refl)), tt)),
  ),
  (_, _, refl, (_, refl, refl, refl, (2, refl)), refl),
)

-- The sub-streams of all paths can be opened.
read_val-encode_val_example :
    (bytes : Bytes) × (encode_val prims core_names host (tuple values) (tuple_of types)
      ≡ ok (bytes, sources [] (tuple values)))
    × ((path : List ℕ)
        → Opened (λ q. ok q) (sources path (tuple values))
        → (rest : Bytes)
        → read_val prims read_varint slice host (λ q. ok q) (tuple_of types) path (bytes ++ rest)
          ≡ ok (located path (tuple values), rest))
read_val-encode_val_example =
    read_val-encode_val prims core_names read_varint slice host (λ q. ok q) (λ m i. refl)
      (λ t i. refl) (λ path. refl) (tuple values) (tuple_of types) (types, refl, values-HasTypes)

paths :
    sources [] (tuple values)
    ≡ (0 ∷ 0 ∷ [], local 0) ∷ (0 ∷ 1 ∷ [], local 1) ∷ (1 ∷ [], local 2) ∷ []
unfolding sources
paths = refl

sources_list-resolve_example :
    All
      (λ w.
        (n : Pattern) × (q : List (Option ℕ)) × (resolve
            (new (params_async_paths (λ r. false) (shapes types)) 0)
            (w.0)
          ≡ some (n, q))
        × (n.declared ≡ true)
        × Matches q (w.0))
      (sources_list [] 0 values)
sources_list-resolve_example =
    sources_list-resolve prims (λ r. false) values types 0 values-HasTypes
