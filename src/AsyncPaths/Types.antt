-- ===== src/AsyncPaths/Types.antt =====
-- `async_paths` and `params_async_paths` of crates/wasmtime/src/paths.rs, built with the feature
-- `wasmtime-wasi`. A type is what the code sees of `wasmtime::component::Type`; a resource type is
-- a number, and `io_streams` says whether it is one of the streams of `wasi:io`. `other` is any type
-- without a case of its own there, maps among them; `fixed_length_list` has none either.
pub mod Consistent
pub mod Covered
pub mod Subscribed
use wrpc.Prelude.{ℕ, suc, Bool, true, false, ◌||◌, List, [], ◌∷◌, Option, none, some, if◌then◌else◌}
use wrpc.AsyncPaths.{Paths, insert_path, extend, merge_wildcards}

mutual
  pub data Ty : Type 0 where
    list : Ty → Ty
    fixed_length_list : Ty → Ty
    option : Ty → Ty
    result : Payload → Payload → Ty
    variant : Cases → Ty
    tuple : Tys → Ty
    fields : Tys → Ty
    future : Payload → Ty
    stream : Payload → Ty
    own : ℕ → Ty
    borrow : ℕ → Ty
    other : Ty

  -- The type in a `Result`, a case, a future or a stream, if there is one.
  pub data Payload : Type 0 where
    no_payload : Payload
    payload : Ty → Payload

  pub data Cases : Type 0 where
    no_cases : Cases
    case : Payload → Cases → Cases

  pub data Tys : Type 0 where
    no_tys : Tys
    ty : Ty → Tys → Tys

-- `for mut path in nested { path.push_front(x); paths.insert(path); }`
unfoldable pub nest : Option ℕ → Paths → Paths → Paths
nest x paths [] = paths
nest x paths (p ∷ nested) = nest x (insert_path (x ∷ p) paths) nested

-- With what follows the loop: `if fut { paths.insert(VecDeque::from([x])); }`
abbrev pub under : Option ℕ → Paths → Paths × Bool → Paths
under x paths (nested, fut) =
    let all = nest x paths nested in if fut then insert_path (x ∷ []) all else all

-- `paths.extend(nested); is_fut |= fut;`
abbrev pub extend_both : Paths × Bool → Paths × Bool → Paths × Bool
extend_both (paths, is_fut) (nested, fut) = (extend paths nested, is_fut || fut)

-- `(merge_wildcards(paths), is_fut)`
abbrev pub merged : Paths × Bool → Paths × Bool
merged (paths, is_fut) = (merge_wildcards paths, is_fut)

module _ (io_streams : ℕ → Bool) where
  unfoldable mutual
    pub async_paths : Ty → Paths × Bool
    async_paths (list t) = (under none [] (async_paths t), false)
    async_paths (option t) = async_paths t
    async_paths (result t e) =
        merged (extend_both (extend_both ([], false) (payload_paths t)) (payload_paths e))
    async_paths (variant cs) = merged (cases_paths ([], false) cs)
    async_paths (tuple ts) = (types_paths 0 [] ts, false)
    async_paths (fields ts) = (types_paths 0 [] ts, false)
    async_paths (future p) = ((payload_paths p).0, true)
    async_paths (stream p) = (under none [] (payload_paths p), true)
    async_paths (own r) = ([], io_streams r)
    async_paths (borrow r) = ([], io_streams r)
    async_paths (fixed_length_list t) = ([], false)
    async_paths other = ([], false)

    pub payload_paths : Payload → Paths × Bool
    payload_paths no_payload = ([], false)
    payload_paths (payload t) = async_paths t

    pub cases_paths : Paths × Bool → Cases → Paths × Bool
    cases_paths acc no_cases = acc
    cases_paths acc (case p cs) = cases_paths (extend_both acc (payload_paths p)) cs

    -- The loop over positions, from `i` on.
    pub types_paths : ℕ → Paths → Tys → Paths
    types_paths i paths no_tys = paths
    types_paths i paths (ty t ts) = types_paths (suc i) (under (some i) paths (async_paths t)) ts

  -- `params_async_paths`.
  unfoldable pub params_async_paths : Tys → Paths
  params_async_paths ts = types_paths 0 [] ts
