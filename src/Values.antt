-- ===== src/Values.antt =====
-- The coding of dynamically typed values: crates/wave/src/encode.rs and decode.rs (Wave) and
-- crates/wasmtime/src/codec.rs (Runtime). A type and a value are what this code sees of those of
-- the crates wasm_wave and wasmtime; a name is its bytes, and a number stands for the bits of a
-- primitive value.
pub mod Prims
pub mod Flags
pub mod Discriminants
pub mod Typing
pub mod Distinct
pub mod Reads
pub mod Wave
pub mod Runtime
use wrpc.Prelude.{ℕ, suc, ◌==◌, Bool, true, false, List, Bytes}

-- `bool`, the integers, the floats and `char`.
pub data NumTy : Type 0 where
  bool s8 u8 s16 u16 s32 u32 s64 u64 f32 f64 char : NumTy

mutual
  pub data Ty : Type 0 where
    number : NumTy → Ty
    text : Ty
    list_of : Ty → Ty
    record_of : FieldTys → Ty
    tuple_of : Tys → Ty
    variant_of : CaseTys → Ty
    enum_of : List Bytes → Ty
    option_of : Ty → Ty
    result_of : MaybeTy → MaybeTy → Ty
    flags_of : List Bytes → Ty
    future_of : MaybeTy → Ty
    stream_of : MaybeTy → Ty
    error_context map_of fixed_length_list : Ty

  pub data MaybeTy : Type 0 where
    no_ty : MaybeTy
    some_ty : Ty → MaybeTy

  pub data Tys : Type 0 where
    no_tys : Tys
    ty : Ty → Tys → Tys

  pub data FieldTys : Type 0 where
    no_field_tys : FieldTys
    field_ty : Bytes → Ty → FieldTys → FieldTys

  pub data CaseTys : Type 0 where
    no_case_tys : CaseTys
    case_ty : Bytes → MaybeTy → CaseTys → CaseTys

mutual
  pub data Value : Type 0 where
    num : NumTy → ℕ → Value
    str : Bytes → Value
    list : Values → Value
    fields : Fields → Value
    tuple : Values → Value
    variant : Bytes → MaybeValue → Value
    enum : Bytes → Value
    option : MaybeValue → Value
    result_ok : MaybeValue → Value
    result_err : MaybeValue → Value
    flags : List Bytes → Value
    future : Source → Value
    stream : Source → Value

  pub data MaybeValue : Type 0 where
    no_value : MaybeValue
    some_value : Value → MaybeValue

  pub data Values : Type 0 where
    no_values : Values
    value : Value → Values → Values

  pub data Fields : Type 0 where
    no_fields : Fields
    entry : Bytes → Value → Fields → Fields

  -- What is behind a future or a stream: one of the component's own, data that was received
  -- with the value, or the sub-stream of a path.
  pub data Source : Type 0 where
    local : ℕ → Source
    ready : MaybeValue → Source
    ready_all : Values → Source
    remote : List ℕ → Source

-- Whether two primitive types are the same.
abbrev pub num_rank : NumTy → ℕ
num_rank bool = 0
num_rank s8 = 1
num_rank u8 = 2
num_rank s16 = 3
num_rank u16 = 4
num_rank s32 = 5
num_rank u32 = 6
num_rank s64 = 7
num_rank u64 = 8
num_rank f32 = 9
num_rank f64 = 10
num_rank char = 11

abbrev pub same_num : NumTy → NumTy → Bool
same_num k j = num_rank k == num_rank j

-- `with_payload!`: the payloads of futures and streams that are supported.
abbrev pub payload_supported : MaybeTy → Bool
payload_supported no_ty = true
payload_supported (some_ty (number k)) = true
payload_supported (some_ty text) = true
payload_supported (some_ty t) = false

abbrev pub size : Values → ℕ
size no_values = 0
size (value v vs) = suc (size vs)

abbrev pub num_fields : Fields → ℕ
num_fields no_fields = 0
num_fields (entry n v fs) = suc (num_fields fs)

abbrev pub num_tys : Tys → ℕ
num_tys no_tys = 0
num_tys (ty t ts) = suc (num_tys ts)

abbrev pub num_field_tys : FieldTys → ℕ
num_field_tys no_field_tys = 0
num_field_tys (field_ty n t ts) = suc (num_field_tys ts)

abbrev pub num_cases : CaseTys → ℕ
num_cases no_case_tys = 0
num_cases (case_ty n p cs) = suc (num_cases cs)
