-- ===== src/AsyncPaths.antt =====
-- Async paths: crates/introspect/src/lib.rs and crates/wasmtime/src/paths.rs. They say which
-- positions of a value carry data of their own; `none` stands for every position of a list.
pub mod Sets
pub mod Merge
pub mod Types
pub mod Introspect
use wrpc.Prelude.{
  ℕ, zero, suc, ◌==◌, Bool, true, false, ◌&&◌, ◌||◌, List, [], ◌∷◌, ◌++◌, Option, none, some, ltb,
  if◌then◌else◌, length, take, max, map,
}
use wrpc.BTree.{Ord, option_ord, eq, lt}

-- `BTreeSet<VecDeque<Option<T>>>`, in order.
abbrev pub Paths : Type 0
Paths = List (List (Option ℕ))

-- `BTreeSet::insert` and `extend`.
unfoldable pub insert_path : List (Option ℕ) → Paths → Paths
insert_path p [] = p ∷ []
insert_path p (q ∷ s) =
    if eq q p then q ∷ s else (if lt p q then p ∷ q ∷ s else q ∷ insert_path p s)

unfoldable pub extend : Paths → Paths → Paths
extend s [] = s
extend s (p ∷ ps) = extend (insert_path p s) ps

-- `paths.iter().map(Vec::len).max().unwrap_or_default()`.
unfoldable pub max_len : Paths → ℕ
max_len [] = 0
max_len (p ∷ ps) = max (length p) (max_len ps)

-- `path.get(k) == Some(&None)`.
unfoldable pub is_wildcard_at : ℕ → List (Option ℕ) → Bool
is_wildcard_at k [] = false
is_wildcard_at zero (none ∷ p) = true
is_wildcard_at zero (some i ∷ p) = false
is_wildcard_at (suc k) (i ∷ p) = is_wildcard_at k p

-- `wildcards.contains(prefix)`, of the prefixes of the paths with a wildcard at `k`.
unfoldable pub has_wildcard : ℕ → Paths → List (Option ℕ) → Bool
has_wildcard k [] prefix = false
has_wildcard k (p ∷ ps) prefix =
    (is_wildcard_at k p && eq (take k p) prefix) || has_wildcard k ps prefix

-- `path[k] = None`.
unfoldable pub set_wildcard_at : ℕ → List (Option ℕ) → List (Option ℕ)
set_wildcard_at k [] = []
set_wildcard_at zero (i ∷ p) = none ∷ p
set_wildcard_at (suc k) (i ∷ p) = i ∷ set_wildcard_at k p

unfoldable pub merge_path : ℕ → Paths → List (Option ℕ) → List (Option ℕ)
merge_path k paths p =
    if ltb k (length p) && has_wildcard k paths (take k p) then set_wildcard_at k p else p

-- The rounds from `k` on, `n` of them.
unfoldable pub merge_rounds : ℕ → ℕ → Paths → Paths
merge_rounds zero k paths = paths
merge_rounds (suc n) k paths = merge_rounds n (suc k) (map (merge_path k paths) paths)

-- `merge_wildcards`.
unfoldable pub merge_wildcards : Paths → Paths
merge_wildcards paths = extend [] (merge_rounds (max_len paths) 0 paths)
