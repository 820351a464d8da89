-- ===== src/Values/Wave/Trailing.antt =====
-- `decode_value` of crates/wave/src/decode.rs against the encoder: what comes behind a value.
use wrpc.Prelude.{
  ℕ, ◌≡◌, refl, ap, sym, ◌∙◌, arith, false, [], ◌∷◌, ◌++◌, append-nil, some, Bytes, ok,
}
use wrpc.Leb128.{Leb128, ReadLeb128}
use wrpc.Reader.{Reader}
use wrpc.Frame.Header.{CoreName}
use wrpc.Values.{Ty, Value}
use wrpc.Values.Prims.{Prims}
use wrpc.Values.Typing.{HasType}
use wrpc.Values.Wave.{encode_value, read_value}
use wrpc.Values.Wave.RoundTrip.{reads_all}
use wrpc.Values.Wave.{decode_value}
use wrpc.Prelude.{err, invalid_data}
use wrpc.Values.Wave.Types.{WasmType}

module _ {leb : Leb128} (p : Prims leb) (core_name : CoreName leb) (leb_reader : ReadLeb128 leb)
    (reader : Reader) (types : WasmType)
    (makes : (v : Value) (t : Ty) → HasType p false v t → types.make t v ≡ some v) where
  -- A value of its type is encoded, and decoding exactly its bytes gives the value back; with any
  -- bytes behind them, decoding is refused with `InvalidData`.
  pub decode_value-encode_value :
      (v : Value) (t : Ty)
      → HasType p false v t
      → (b : Bytes) × (encode_value p core_name types v t ≡ ok b)
        × (decode_value p leb_reader reader types b t ≡ ok v)
        × ((c : ℕ) (rest : Bytes)
            → decode_value p leb_reader reader types (b ++ c ∷ rest) t ≡ err invalid_data)
  unfolding decode_value
  decode_value-encode_value v t h =
      let (b, w, r) = reads_all p core_name leb_reader reader types makes v t h in
      let exact : read_value p leb_reader reader types t b ≡ ok (v, []) =
        ap (read_value p leb_reader reader types t) (sym (append-nil b)) ∙ r [] in
      (b, w, rw (exact) refl, λ c rest. rw (r (c ∷ rest)) (ground arith))

  -- No value's bytes are the front of those of another value of the same type: where the encoding
  -- of one starts with that of the other, the values are the same, and nothing follows.
  pub encode_value_prefix_free :
      (v w : Value) (t : Ty) (b c : Bytes)
      → HasType p false v t
      → HasType p false w t
      → encode_value p core_name types v t ≡ ok b
      → encode_value p core_name types w t ≡ ok (b ++ c)
      → (v ≡ w) × (c ≡ [])
  encode_value_prefix_free v w t b c h k e f =
      let (b', e', r) = reads_all p core_name leb_reader reader types makes v t h in
      let (c', f', s) = reads_all p core_name leb_reader reader types makes w t k in
      let x : b' ≡ b = cc in
      let y : c' ≡ b ++ c = cc in
      let left : read_value p leb_reader reader types t (b ++ c) ≡ ok (v, c) =
        ap (λ q. read_value p leb_reader reader types t (q ++ c)) (sym x) ∙ r c in
      let right : read_value p leb_reader reader types t (b ++ c) ≡ ok (w, []) =
        ap (read_value p leb_reader reader types t) (sym y ∙ sym (append-nil c')) ∙ s [] in
      let both = sym left ∙ right in (cc, cc)
