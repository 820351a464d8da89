-- ===== src/Values/Distinct.antt =====
-- Types whose cases and flags have different names, of which there are fewer than 2 ^ 32, as the
-- validation of components asks. A name is then what its position stands for.
use wrpc.Prelude.{
  ℕ, zero, suc, ◌+◌, ◌<◌, ◌≡◌, refl, ap, ◌∙◌, Bool, true, false, List, [], ◌∷◌, some, Bytes, ok,
  arith, length, u32_mod, if◌then◌else◌,
}
use wrpc.BTree.{ℕ_ord, eq}
use wrpc.BTree.Order.{eq→≡, eq_refl}
use wrpc.Values.{
  Ty, MaybeTy, Tys, FieldTys, CaseTys, number, text, list_of, record_of, tuple_of, variant_of,
  enum_of, option_of, result_of, flags_of, future_of, stream_of, error_context, map_of,
  fixed_length_list, no_ty, some_ty, no_tys, ty, no_field_tys, field_ty, no_case_tys, case_ty,
  num_cases,
}
use wrpc.Values.Flags.{contains, kept, marked}
use wrpc.Values.Discriminants.{
  find_enum_discriminant, find_variant_discriminant, enum_discriminant, variant_discriminant,
  get_name, get_case,
}

abbrev pub NoRepeats : List Bytes → Type 0
NoRepeats [] = Unit {0}
NoRepeats (n ∷ ns) = (contains ns n ≡ false) × NoRepeats ns

abbrev pub case_names : CaseTys → List Bytes
case_names no_case_tys = []
case_names (case_ty n m cases) = n ∷ case_names cases

abbrev mutual
  pub IsDistinct : Ty → Type 0
  IsDistinct (number k) = Unit {0}
  IsDistinct text = Unit {0}
  IsDistinct (list_of t) = IsDistinct t
  IsDistinct (record_of ts) = FieldsDistinct ts
  IsDistinct (tuple_of ts) = AllDistinct ts
  IsDistinct (variant_of cases) =
      NoRepeats (case_names cases) × (num_cases cases < u32_mod) × CasesDistinct cases
  IsDistinct (enum_of names) = NoRepeats names × (length names < u32_mod)
  IsDistinct (option_of t) = IsDistinct t
  IsDistinct (result_of o e) = MaybeDistinct o × MaybeDistinct e
  IsDistinct (flags_of names) = NoRepeats names
  IsDistinct (future_of m) = Unit {0}
  IsDistinct (stream_of m) = Unit {0}
  IsDistinct error_context = Unit {0}
  IsDistinct map_of = Unit {0}
  IsDistinct fixed_length_list = Unit {0}

  pub MaybeDistinct : MaybeTy → Type 0
  MaybeDistinct no_ty = Unit {0}
  MaybeDistinct (some_ty t) = IsDistinct t

  pub AllDistinct : Tys → Type 0
  AllDistinct no_tys = Unit {0}
  AllDistinct (ty t ts) = IsDistinct t × AllDistinct ts

  pub FieldsDistinct : FieldTys → Type 0
  FieldsDistinct no_field_tys = Unit {0}
  FieldsDistinct (field_ty n t ts) = IsDistinct t × FieldsDistinct ts

  pub CasesDistinct : CaseTys → Type 0
  CasesDistinct no_case_tys = Unit {0}
  CasesDistinct (case_ty n m cases) = MaybeDistinct m × CasesDistinct cases

contains-get_name :
    (names : List Bytes) (k : ℕ) (name : Bytes)
    → get_name names k ≡ some name
    → contains names name ≡ true
unfolding contains get_name
contains-get_name [] k name h = cc
contains-get_name (n ∷ ns) zero name h = ground (arith, eq_refl n)
contains-get_name (n ∷ ns) (suc k) name h = ground (arith, contains-get_name ns k name h)

-- Another name than that of a position behind.
eq-get_name :
    (n : Bytes) (ns : List Bytes) (k : ℕ) (name : Bytes)
    → contains ns n ≡ false
    → get_name ns k ≡ some name
    → eq n name ≡ false
eq-get_name n ns k name fresh h = ground (arith, contains-get_name ns k name h, eq→≡ n name)

find_enum-get_name :
    (i : ℕ) (names : List Bytes) (k : ℕ) (name : Bytes)
    → NoRepeats names
    → get_name names k ≡ some name
    → (find_enum_discriminant i names name ≡ some (i + k)) × (k < length names)
unfolding find_enum_discriminant get_name
find_enum-get_name i [] k name d h = cc
find_enum-get_name i (n ∷ ns) zero name d h = ground (arith, eq_refl n)
find_enum-get_name i (n ∷ ns) (suc k) name d h =
    ground (arith, eq-get_name n ns k name d.0 h, find_enum-get_name (suc i) ns k name d.1 h)

pub enum_discriminant-get_name :
    (names : List Bytes) (k : ℕ) (name : Bytes)
    → NoRepeats names
    → length names < u32_mod
    → get_name names k ≡ some name
    → enum_discriminant names name ≡ ok k
unfolding enum_discriminant
enum_discriminant-get_name names k name d l h =
    ground (arith, find_enum-get_name 0 names k name d h)

get_name-case_names :
    (cases : CaseTys) (k : ℕ) (name : Bytes) (m : MaybeTy)
    → get_case cases k ≡ some (name, m)
    → get_name (case_names cases) k ≡ some name
unfolding get_name get_case
get_name-case_names no_case_tys k name m h = cc
get_name-case_names (case_ty n q cases) zero name m h = cc
get_name-case_names (case_ty n q cases) (suc k) name m h = get_name-case_names cases k name m h

find_variant-get_case :
    (i : ℕ) (cases : CaseTys) (k : ℕ) (name : Bytes) (m : MaybeTy)
    → NoRepeats (case_names cases)
    → get_case cases k ≡ some (name, m)
    → find_variant_discriminant i cases name ≡ some (i + k, m)
unfolding find_variant_discriminant get_case
find_variant-get_case i no_case_tys k name m d h = cc
find_variant-get_case i (case_ty n q cases) zero name m d h = ground (arith, eq_refl n)
find_variant-get_case i (case_ty n q cases) (suc k) name m d h = ground (
  arith,
  eq-get_name n (case_names cases) k name d.0 (get_name-case_names cases k name m h),
  find_variant-get_case (suc i) cases k name m d.1 h,
)

pub variant_discriminant-get_case :
    (cases : CaseTys) (k : ℕ) (name : Bytes) (m : MaybeTy)
    → NoRepeats (case_names cases)
    → num_cases cases < u32_mod
    → get_case cases k ≡ some (name, m)
    → variant_discriminant cases name ≡ ok (k, m)
unfolding variant_discriminant
variant_discriminant-get_case cases k name m d l h =
    ground (arith, find_variant-get_case 0 cases k name m d h)

contains-marked :
    (test : ℕ → Bool) (i : ℕ) (names : List Bytes) (n : Bytes)
    → contains names n ≡ false
    → contains (marked test i names) n ≡ false
unfolding contains marked
contains-marked test i [] n h = refl
contains-marked test i (m ∷ ms) n h = ground (arith, contains-marked test (suc i) ms n)

kept-fresh :
    (n : Bytes) (flags names : List Bytes)
    → contains names n ≡ false
    → kept (n ∷ flags) names ≡ kept flags names
unfolding kept contains
kept-fresh n flags [] h = refl
kept-fresh n flags (m ∷ ms) h =
    ground (arith, kept-fresh n flags ms, eq→≡ n m, eq_refl n, eq_refl m)

kept_first :
    (n : Bytes) (ns found : List Bytes)
    → contains ns n ≡ false
    → contains found n ≡ false
    → kept found ns ≡ found
    → (b : Bool) → kept (if b then n ∷ found else found) (n ∷ ns) ≡ (if b then n ∷ found else found)
unfolding kept contains
kept_first n ns found fresh other e true =
    rw (eq_refl n) (ap (λ q. n ∷ q) (kept-fresh n found ns fresh ∙ e))
kept_first n ns found fresh other e false = rw (other) e

-- The names that are marked are in the order of the type.
pub kept-marked :
    (test : ℕ → Bool) (i : ℕ) (names : List Bytes)
    → NoRepeats names
    → kept (marked test i names) names ≡ marked test i names
unfolding kept marked
kept-marked test i [] d = refl
kept-marked test i (n ∷ ns) d =
    kept_first n ns (marked test (suc i) ns) d.0 (contains-marked test (suc i) ns n d.0)
      (kept-marked test (suc i) ns d.1) (test i)
