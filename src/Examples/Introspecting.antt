-- ===== src/Examples/Introspecting.antt =====
-- Runs of the computation of paths of crates/introspect/src/lib.rs.
use wrpc.Prelude.{ℕ, ◌≤◌, ◌≡◌, refl, Bool, true, false, ◌==◌, [], ◌∷◌, some, arith}
use wrpc.AsyncPaths.Types.{Ty, Tys, payload, no_payload, no_tys, ty, other, async_paths}
use wrpc.AsyncPaths.Types as Types
use wrpc.AsyncPaths.Introspect.{
  WitType, primitive, id, Resolve, list, fixed_length_list, tuple, stream, alias, kind_of,
  async_paths_ty, is_tuple, is_list_of, is_ty,
}
use wrpc.AsyncPaths.Introspect.Functions.{method, rpc_func_name, strip_prefix, flag_repr, u64}
use wrpc.AsyncPaths.Introspect.Agree.{
  Denotes, primitives, aliases, lists, tuples, streams, just, end_types, next_type,
  async_paths_ty-async_paths,
}

-- A list of tuples of a number and a stream, by another name, and a list of fixed length of these.
abbrev wit : Resolve
wit =
    stream (some (primitive 8))
    ∷ tuple (primitive 32 ∷ id 0 ∷ [])
    ∷ list (id 1)
    ∷ alias (id 2)
    ∷ fixed_length_list (id 3)
    ∷ []

abbrev component : Ty
component = Types.list (Types.tuple (ty other (ty (Types.stream (payload other)) no_tys)))

component-Denotes : Denotes wit (id 3) component
unfolding kind_of
component-Denotes = aliases 3 (id 2) component refl (
    lists 2 (id 1) (Types.tuple (ty other (ty (Types.stream (payload other)) no_tys))) refl (
      tuples 1 (primitive 32 ∷ id 0 ∷ []) (ty other (ty (Types.stream (payload other)) no_tys)) refl
        (omega arith)
        (next_type (primitive 32) (id 0 ∷ []) other (ty (Types.stream (payload other)) no_tys)
          (primitives 32)
          (next_type (id 0) [] (Types.stream (payload other)) no_tys
            (streams 0 (some (primitive 8)) (payload other) refl
              (just (primitive 8) other (primitives 8)))
            end_types))))

async_paths_ty-async_paths_example :
    ((n : ℕ) × ((fuel : ℕ)
        → n ≤ fuel
        → async_paths_ty wit fuel (id 3) ≡ some (async_paths (λ r. false) component)))
    × ((i : ℕ)
        → kind_of wit i ≡ some (fixed_length_list (id 3))
        → ((n : ℕ) × ((fuel : ℕ)
              → n ≤ fuel
              → async_paths_ty wit fuel (id i)
                ≡ some (async_paths (λ r. false) (Types.list component))))
          × (async_paths (λ r. false) (Types.fixed_length_list component) ≡ ([], false)))
async_paths_ty-async_paths_example =
    async_paths_ty-async_paths wit (id 3) component component-Denotes

-- Whether two types are the same.
abbrev same : WitType → WitType → Bool
same (primitive p) (primitive q) = p == q
same (id i) (id j) = i == j
same t u = false

through_alias : is_list_of wit same (id 1) 4 (id 3) ≡ some true
unfolding is_list_of is_ty kind_of
through_alias = refl

not_tuple : is_tuple wit 4 (id 3) ≡ some false
unfolding is_tuple kind_of
not_tuple = refl

method_name :
    rpc_func_name method (91 ∷ 109 ∷ 101 ∷ 116 ∷ 104 ∷ 111 ∷ 100 ∷ 93 ∷ 97 ∷ []) ≡ some (97 ∷ [])
unfolding rpc_func_name strip_prefix
method_name = refl

many_flags : flag_repr 40 ≡ u64
unfolding flag_repr
many_flags = refl
