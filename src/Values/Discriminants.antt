-- ===== src/Values/Discriminants.antt =====
-- The discriminants of variants and enums: `find_enum_discriminant` and
-- `find_variant_discriminant` of crates/wave/src/encode.rs and crates/wasmtime/src/codec.rs. The
-- iterators of discriminants they are given are as long as the number of cases needs.
use wrpc.Prelude.{
  ℕ, zero, suc, ◌+◌, ◌<◌, ◌≡◌, List, [], ◌∷◌, Option, none, some, Bytes, Result, ok, err, other,
  if◌then◌else◌, ltb, u32_mod, length, arith, Bool-cases, inl, inr, ErrorKind,
}
use wrpc.BTree.{ℕ_ord, eq}
use wrpc.BTree.Order.{eq→≡}
use wrpc.Values.{MaybeTy, CaseTys, no_case_tys, case_ty, num_cases}

-- `context` on an answer.
abbrev pub or_err {ℓ} : {A : Type ℓ} → ErrorKind → Option A → Result A
or_err e none = err e
or_err e (some a) = ok a

unfoldable pub find_enum_discriminant : ℕ → List Bytes → Bytes → Option ℕ
find_enum_discriminant i [] discriminant = none
find_enum_discriminant i (name ∷ names) discriminant =
    if eq name discriminant then some i else find_enum_discriminant (suc i) names discriminant

unfoldable pub find_variant_discriminant : ℕ → CaseTys → Bytes → Option (ℕ × MaybeTy)
find_variant_discriminant i no_case_tys discriminant = none
find_variant_discriminant i (case_ty name p cases) discriminant =
    if eq name discriminant
    then some (i, p)
    else find_variant_discriminant (suc i) cases discriminant

-- The discriminant that is written for a case: there are fewer than 2 ^ 32 cases, or it is an
-- error.
unfoldable pub enum_discriminant : List Bytes → Bytes → Result ℕ
enum_discriminant names discriminant =
    if ltb (length names) u32_mod
    then or_err other (find_enum_discriminant 0 names discriminant)
    else err other

unfoldable pub variant_discriminant : CaseTys → Bytes → Result (ℕ × MaybeTy)
variant_discriminant cases discriminant =
    if ltb (num_cases cases) u32_mod
    then or_err other (find_variant_discriminant 0 cases discriminant)
    else err other

-- `names.get(i)`.
unfoldable pub get_name : List Bytes → ℕ → Option Bytes
get_name [] i = none
get_name (name ∷ names) zero = some name
get_name (name ∷ names) (suc i) = get_name names i

-- `cases.get(i)`.
unfoldable pub get_case : CaseTys → ℕ → Option (Bytes × MaybeTy)
get_case no_case_tys i = none
get_case (case_ty name p cases) zero = some (name, p)
get_case (case_ty name p cases) (suc i) = get_case cases i

find_enum_finds :
    (i : ℕ) (names : List Bytes) (name : Bytes) (d : ℕ)
    → find_enum_discriminant i names name ≡ some d
    → (k : ℕ) × (d ≡ i + k) × (k < length names) × (get_name names k ≡ some name)
unfolding find_enum_discriminant get_name
find_enum_finds i [] name d h = cc
find_enum_finds i (n ∷ names) name d h = elim (Bool-cases (eq n name)) [
  | inl e ↦ (0, ground arith, omega arith, ground (arith, eq→≡ n name))
  | inr e ↦
      let (k, a, b, c) = find_enum_finds (suc i) names name d (ground arith) in
      (suc k, omega arith, omega arith, c)
]

find_variant_finds :
    (i : ℕ) (cases : CaseTys) (name : Bytes) (d : ℕ) (p : MaybeTy)
    → find_variant_discriminant i cases name ≡ some (d, p)
    → (k : ℕ) × (d ≡ i + k) × (k < num_cases cases) × (get_case cases k ≡ some (name, p))
unfolding find_variant_discriminant get_case
find_variant_finds i no_case_tys name d p h = cc
find_variant_finds i (case_ty n q cases) name d p h = elim (Bool-cases (eq n name)) [
  | inl e ↦ (0, ground arith, omega arith, ground (arith, eq→≡ n name))
  | inr e ↦
      let (k, a, b, c) = find_variant_finds (suc i) cases name d p (ground arith) in
      (suc k, omega arith, omega arith, c)
]

-- What is written for a name is read back as it.
pub get_name-enum_discriminant :
    (names : List Bytes) (name : Bytes) (d : ℕ)
    → enum_discriminant names name ≡ ok d
    → (d < u32_mod) × (get_name names d ≡ some name)
unfolding enum_discriminant
get_name-enum_discriminant names name d h =
    let found : find_enum_discriminant 0 names name ≡ some d = ground arith in
    let (k, a, b, c) = find_enum_finds 0 names name d found in
    let e : d ≡ k = omega arith in (ground arith, rw e c)

pub get_case-variant_discriminant :
    (cases : CaseTys) (name : Bytes) (d : ℕ) (p : MaybeTy)
    → variant_discriminant cases name ≡ ok (d, p)
    → (d < u32_mod) × (get_case cases d ≡ some (name, p))
unfolding variant_discriminant
get_case-variant_discriminant cases name d p h =
    let found : find_variant_discriminant 0 cases name ≡ some (d, p) = ground arith in
    let (k, a, b, c) = find_variant_finds 0 cases name d p found in
    let e : d ≡ k = omega arith in (ground arith, rw e c)
