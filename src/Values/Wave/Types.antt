-- ===== src/Values/Wave/Types.antt =====
-- `WasmType` and `WasmValue` of the crate wasm_wave, as far as crates/wave uses them: an interface
-- with what is documented of it. Nothing is said of a type that is asked for the parts of another
-- kind of type, nor of making a value that is not of the type.
use wrpc.Prelude.{◌≡◌, List, Option, some, Bytes}
use wrpc.Values.{
  Ty, MaybeTy, Tys, FieldTys, CaseTys, Value, list_of, record_of, tuple_of, variant_of, enum_of,
  option_of, result_of, flags_of, some_ty,
}

pub record WasmType : Type 0 where
  pub list_element_type : Ty → MaybeTy
  pub record_fields : Ty → FieldTys
  pub tuple_element_types : Ty → Tys
  pub variant_cases : Ty → CaseTys
  pub enum_cases : Ty → List Bytes
  pub option_some_type : Ty → MaybeTy
  pub result_types : Ty → Option (MaybeTy × MaybeTy)
  pub flags_names : Ty → List Bytes
  -- `make_list`, `make_record` and the like, on a value that is put together of its parts.
  pub make : Ty → Value → Option Value
  pub list_element_type-list_of : (t : Ty) → list_element_type (list_of t) ≡ some_ty t
  pub record_fields-record_of : (ts : FieldTys) → record_fields (record_of ts) ≡ ts
  pub tuple_element_types-tuple_of : (ts : Tys) → tuple_element_types (tuple_of ts) ≡ ts
  pub variant_cases-variant_of : (cs : CaseTys) → variant_cases (variant_of cs) ≡ cs
  pub enum_cases-enum_of : (ns : List Bytes) → enum_cases (enum_of ns) ≡ ns
  pub option_some_type-option_of : (t : Ty) → option_some_type (option_of t) ≡ some_ty t
  pub result_types-result_of : (o e : MaybeTy) → result_types (result_of o e) ≡ some (o, e)
  pub flags_names-flags_of : (ns : List Bytes) → flags_names (flags_of ns) ≡ ns
