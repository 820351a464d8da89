-- ===== src/Examples/Values/Sync.antt =====
-- Runs on values without futures and streams.
use wrpc.Prelude.{ℕ, ◌≡◌, refl, false, List, [], ◌∷◌, ◌++◌, Bytes, ok, err, invalid_data, arith}
use wrpc.Leb128.Varint.{varint, read_varint, write}
use wrpc.Reader.{slice}
use wrpc.BTree.{eq}
use wrpc.Values.{
  Ty, Value, u8, number, text, list_of, record_of, variant_of, enum_of, option_of, result_of,
  flags_of, no_ty, some_ty, no_field_tys, field_ty, no_case_tys, case_ty, num, str, list, fields,
  variant, enum, option, result_err, flags, some_value, no_values, value, no_fields, entry,
}
use wrpc.Values.Flags.{
  contains, put_flags, kept, flag_bits, le_bytes, mark_flags, flags_size, set_bit,
}
use wrpc.Values.Discriminants.{
  enum_discriminant, variant_discriminant, find_enum_discriminant, find_variant_discriminant,
}
use wrpc.Values.Typing.{HasType}
use wrpc.Values.Wave.{encode_value, decode_value}
use wrpc.Values.Wave.Trailing.{decode_value-encode_value}
use wrpc.Values.Runtime.Encoder.{encode_val}
use wrpc.Values.Runtime.Sync.{encode_val-encode_value}
use wrpc.Examples.Values.Coders.{prims, core_names, wasm_type, host}

abbrev a : Bytes
a = 97 ∷ []

abbrev b : Bytes
b = 98 ∷ []

abbrev c : Bytes
c = 99 ∷ []

abbrev nothing : Bytes
nothing = []

abbrev names : List Bytes
names = a ∷ b ∷ c ∷ []

-- A record of a list, flags, a variant, an enum, and an optional result.
abbrev shape : Ty
shape = record_of (
    field_ty a (list_of (number u8)) (
      field_ty b (flags_of names) (
        field_ty c (variant_of (case_ty a no_ty (case_ty b (some_ty text) no_case_tys))) (
          field_ty a (enum_of names)
            (field_ty b (option_of (result_of no_ty (some_ty (number u8)))) no_field_tys)))))

abbrev sample : Value
sample = fields (
    entry a (list (value (num u8 5) (value (num u8 6) no_values))) (
      entry b (flags (a ∷ c ∷ [])) (
        entry c (variant b (some_value (str (104 ∷ 105 ∷ [])))) (
          entry a (enum c)
            (entry b (option (some_value (result_err (some_value (num u8 7))))) no_fields)))))

sample-HasType : HasType prims false sample shape
unfolding prims kept contains eq variant_discriminant enum_discriminant find_enum_discriminant
    find_variant_discriminant
sample-HasType = (
  _,
  refl,
  (
    _,
    _,
    refl,
    (_, refl, omega arith, ((refl, refl), ((refl, refl), tt))),
    (
      _,
      _,
      refl,
      (_, refl, refl),
      (
        _,
        _,
        refl,
        (_, 1, some_ty text, refl, refl, (text, refl, (refl, refl, omega arith))),
        (
          _,
          _,
          refl,
          (_, 2, refl, refl),
          (_, _, refl, (_, refl, (_, _, refl, (_, refl, (refl, refl)))), refl),
        ),
      ),
    ),
  ),
)

abbrev image : Bytes
image = 2 ∷ 5 ∷ 6 ∷ 5 ∷ 1 ∷ 2 ∷ 104 ∷ 105 ∷ 2 ∷ 1 ∷ 1 ∷ 7 ∷ []

written : encode_value prims core_names wasm_type sample shape ≡ ok image
unfolding prims encode_value varint write put_flags flag_bits le_bytes mark_flags flags_size set_bit
    contains eq variant_discriminant enum_discriminant find_enum_discriminant
    find_variant_discriminant
written = refl

decode_value-encode_value_example :
    (bytes : Bytes) × (encode_value prims core_names wasm_type sample shape ≡ ok bytes)
    × (decode_value prims read_varint slice wasm_type bytes shape ≡ ok sample)
    × ((d : ℕ) (rest : Bytes)
        → decode_value prims read_varint slice wasm_type (bytes ++ d ∷ rest) shape
          ≡ err invalid_data)
decode_value-encode_value_example =
    decode_value-encode_value prims core_names read_varint slice wasm_type (λ v t h. refl) sample
      shape sample-HasType

encode_val-encode_value_example :
    (bytes : Bytes) × (encode_value prims core_names wasm_type sample shape ≡ ok bytes)
    × (encode_val prims core_names host sample shape ≡ ok (bytes, []))
encode_val-encode_value_example =
    encode_val-encode_value prims core_names host wasm_type sample shape sample-HasType
