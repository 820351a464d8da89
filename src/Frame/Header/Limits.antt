-- ===== src/Frame/Header/Limits.antt =====
-- What a peer can make a server accept as a header.
use wrpc.Prelude.{
  ℕ, ◌≤◌, ◌≡◌, inl, inr, Bool, true, arith, Bytes, ok, bind_ok, length, ltb, ◌∷◌, Bool-cases,
}
use wrpc.Leb128.{Leb128, ReadLeb128}
use wrpc.Reader.{Reader}
use wrpc.Frame.Header.{
  Header, HeaderDecoder, header, protocol, read_name, read_names, read_version, read,
}

module _ (leb : Leb128) (utf8 : Bytes → Bool) (leb_reader : ReadLeb128 leb) (reader : Reader) where
  read_name_ok :
      (max_len : ℕ) (rx s rest : Bytes)
      → read_name leb utf8 leb_reader reader max_len rx ≡ ok (s, rest)
      → (length s ≤ max_len) × (utf8 s ≡ true)
  unfolding read_name
  read_name_ok max_len rx s rest e =
      let ((n, rx'), en, e1) = bind_ok (leb_reader.read_u32 rx) _ e in
      elim (Bool-cases (ltb max_len n)) [
        | inl long ↦ ground arith
        | inr short ↦
            let ((buf, rx''), eb, e2) = bind_ok (reader.read_exact n rx') _ (rw short at e1) in
            ground (arith, reader.read_exact_takes n rx' buf rx'')
      ]

  read_names_ok :
      (d : HeaderDecoder) (rx : Bytes) (h : Header) (rest : Bytes)
      → read_names leb utf8 leb_reader reader d rx ≡ ok (h, rest)
      → (length h.instance_name ≤ d.max_instance_len)
        × (utf8 h.instance_name ≡ true)
        × (length h.name ≤ d.max_name_len)
        × (utf8 h.name ≡ true)
  unfolding read_names
  read_names_ok d rx h rest e =
      let ((i, rx'), ei, e1) =
        bind_ok (read_name leb utf8 leb_reader reader d.max_instance_len rx) _ e in
      let ((n, rx''), en, e2) =
        bind_ok (read_name leb utf8 leb_reader reader d.max_name_len rx') _ e1 in
      ground (
        arith,
        read_name_ok d.max_instance_len rx i rx' ei,
        read_name_ok d.max_name_len rx' n rx'' en,
      )

  read_version_header :
      (d : HeaderDecoder) (v : ℕ) (rx : Bytes) (h : Header) (rest : Bytes)
      → read_version leb utf8 leb_reader reader d (ok (v, rx)) ≡ header h rest
      → (v ≡ protocol) × (read_names leb utf8 leb_reader reader d rx ≡ ok (h, rest))
  unfolding read_version
  read_version_header d v rx h rest e = ground arith

  -- A header is read only from a stream that begins with the protocol's version byte, and then
  -- both its names are valid UTF-8 of at most the lengths that the decoder allows.
  pub read_accepts :
      (d : HeaderDecoder) (v : ℕ) (rx : Bytes) (h : Header) (rest : Bytes)
      → read leb utf8 leb_reader reader d (v ∷ rx) ≡ header h rest
      → (v ≡ protocol)
        × (length h.instance_name ≤ d.max_instance_len)
        × (utf8 h.instance_name ≡ true)
        × (length h.name ≤ d.max_name_len)
        × (utf8 h.name ≡ true)
  unfolding read
  read_accepts d v rx h rest e =
      let (p, q) = read_version_header d v rx h rest (rw (reader.read_u8-cons v rx) at e) in
      let (a, b, c, f) = read_names_ok d rx h rest q in (p, a, b, c, f)
