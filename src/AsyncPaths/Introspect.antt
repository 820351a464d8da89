-- ===== src/AsyncPaths/Introspect.antt =====
-- `async_paths_ty` and `async_paths_tyid` of crates/introspect/src/lib.rs, and what else that file
-- says of types. The arena of types of the crate wit_parser is a list, and the number of a type
-- its place in it. `none` stands for a panic, and for a lack of fuel.
pub mod Agree
pub mod Functions
use wrpc.Prelude.{
  ℕ, zero, suc, ◌==◌, Bool, true, false, ◌||◌, List, [], ◌∷◌, Option, none, some, ltb, u32_mod,
  if◌then◌else◌, length,
}
use wrpc.AsyncPaths.{Paths, insert_path, extend, merge_wildcards}
use wrpc.AsyncPaths.Types.{nest, under}

-- `Type`: a primitive type, or the one with a number.
pub data WitType : Type 0 where
  primitive : ℕ → WitType
  id : ℕ → WitType

-- `TypeDefKind`. Names are left out.
pub data TypeDefKind : Type 0 where
  list : WitType → TypeDefKind
  fixed_length_list : WitType → TypeDefKind
  option : WitType → TypeDefKind
  result : Option WitType → Option WitType → TypeDefKind
  variant : List (Option WitType) → TypeDefKind
  tuple : List WitType → TypeDefKind
  fields : List WitType → TypeDefKind
  future : Option WitType → TypeDefKind
  stream : Option WitType → TypeDefKind
  alias : WitType → TypeDefKind
  resource flags enum map own borrow unknown : TypeDefKind

-- `Resolve`.
abbrev pub Resolve : Type 0
Resolve = List TypeDefKind

-- `resolve.types[id]`.
unfoldable pub kind_of : Resolve → ℕ → Option TypeDefKind
kind_of [] i = none
kind_of (k ∷ ks) zero = some k
kind_of (k ∷ ks) (suc i) = kind_of ks i

infixl 5 ◌>>=◌
abbrev pub ◌>>=◌ : {A B : Type 0} → Option A → (A → Option B) → Option B
none >>= f = none
some a >>= f = f a

-- `i.try_into().unwrap()`, which is reached only where there is a path.
abbrev pub at_index : ℕ → Paths → Paths × Bool → Option Paths
at_index i paths ([], false) = some paths
at_index i paths (nested, fut) =
    if ltb i u32_mod then some (under (some i) paths (nested, fut)) else none

-- `for path in nested { paths.insert(path); }` and `if fut { is_fut = true; }`
abbrev pub insert_both : Paths × Bool → Paths × Bool → Paths × Bool
insert_both (paths, is_fut) (nested, fut) = (extend paths nested, if fut then true else is_fut)

-- The functions on the parts of a type.
module _ (async_paths_ty : WitType → Option (Paths × Bool)) where
  unfoldable pub of_payload : Option WitType → Option (Paths × Bool)
  of_payload none = some ([], false)
  of_payload (some t) = async_paths_ty t

  unfoldable pub of_cases : Paths × Bool → List (Option WitType) → Option (Paths × Bool)
  of_cases acc [] = some acc
  of_cases acc (none ∷ cs) = of_cases acc cs
  of_cases acc (some t ∷ cs) = async_paths_ty t >>= λ got. of_cases (insert_both acc got) cs

  unfoldable pub of_types : ℕ → Paths → List WitType → Option Paths
  of_types i paths [] = some paths
  of_types i paths (t ∷ ts) =
      async_paths_ty t >>= λ got. at_index i paths got >>= λ paths'. of_types (suc i) paths' ts

  unfoldable pub of_kind : TypeDefKind → Option (Paths × Bool)
  of_kind (list t) = async_paths_ty t >>= λ got. some (under none [] got, false)
  of_kind (fixed_length_list t) = async_paths_ty t >>= λ got. some (under none [] got, false)
  of_kind (option t) = async_paths_ty t
  of_kind (result t e) =
      of_cases ([], false) (t ∷ e ∷ []) >>= λ got. some (merge_wildcards (got.0), got.1)
  of_kind (variant cs) = of_cases ([], false) cs >>= λ got. some (merge_wildcards (got.0), got.1)
  of_kind (tuple ts) = of_types 0 [] ts >>= λ paths. some (paths, false)
  of_kind (fields ts) = of_types 0 [] ts >>= λ paths. some (paths, false)
  of_kind (future p) = of_payload p >>= λ got. some (got.0, true)
  of_kind (stream p) = of_payload p >>= λ got. some (under none [] got, true)
  of_kind (alias t) = async_paths_ty t
  of_kind unknown = none
  of_kind k = some ([], false)

-- What the loops over aliases do with the kind of a type.
abbrev pub alias_of : (WitType → Option Bool) → TypeDefKind → Option Bool
alias_of rest (alias t) = rest t
alias_of rest k = some false

abbrev pub list_alias_of :
    (WitType → Option Bool) → (WitType → Option Bool) → TypeDefKind → Option Bool
list_alias_of is_element rest (alias t) = rest t
list_alias_of is_element rest (list t) = is_element t
list_alias_of is_element rest k = some false

abbrev pub tuple_alias_of : (WitType → Option Bool) → TypeDefKind → Option Bool
tuple_alias_of rest (alias t) = rest t
tuple_alias_of rest (tuple ts) = some true
tuple_alias_of rest k = some false

module _ (resolve : Resolve) where
  -- `async_paths_ty`, and `async_paths_tyid` for the type with a number.
  unfoldable pub async_paths_ty : ℕ → WitType → Option (Paths × Bool)
  async_paths_ty fuel (primitive p) = some ([], false)
  async_paths_ty zero (id i) = none
  async_paths_ty (suc fuel) (id i) = kind_of resolve i >>= of_kind (async_paths_ty fuel)

  -- `is_ty`, by the comparison of types; each round goes through an alias.
  module _ (same : WitType → WitType → Bool) (expected : WitType) where
    unfoldable pub is_ty : ℕ → WitType → Option Bool
    is_ty fuel (primitive p) = some (same (primitive p) expected)
    is_ty zero (id i) = none
    is_ty (suc fuel) (id i) =
        let next = kind_of resolve i >>= alias_of (is_ty fuel) in
        if same (id i) expected then some true else next

    -- `is_list_of`.
    unfoldable pub is_list_of : ℕ → WitType → Option Bool
    is_list_of fuel (primitive p) = some false
    is_list_of zero (id i) = none
    is_list_of (suc fuel) (id i) =
        kind_of resolve i >>= list_alias_of (is_ty fuel) (is_list_of fuel)

  -- `is_tuple`.
  unfoldable pub is_tuple : ℕ → WitType → Option Bool
  is_tuple fuel (primitive p) = some false
  is_tuple zero (id i) = none
  is_tuple (suc fuel) (id i) = kind_of resolve i >>= tuple_alias_of (is_tuple fuel)
