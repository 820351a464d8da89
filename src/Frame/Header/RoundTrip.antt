-- ===== src/Frame/Header/RoundTrip.antt =====
-- What a server reads of the header that a client wrote.
use wrpc.Prelude.{
  ℕ, ◌≤◌, ◌<◌, ◌≡◌, refl, Bool, true, [], ◌∷◌, ◌++◌, append_assoc, append-nil, if◌then◌else◌, arith,
  Bytes, Result, ok, bind_ok, try_u32-eq_ok, try_u32, u32_mod, length, ltb,
}
use wrpc.Leb128.{Leb128, ReadLeb128}
use wrpc.Reader.{Reader}
use wrpc.Frame.RoundTrip.{image}
use wrpc.Frame.Header.{
  HeaderDecoder, header, CoreName, protocol, encode_invocation, read_name, read_names, read_version,
  read,
}

module _ (leb : Leb128) where
  -- A name as it is written.
  abbrev pub named : Bytes → Bytes
  named s = leb.encode (length s) ++ s

  -- The parameters as the frame of the root path, unless there are none.
  abbrev pub params_frame : Bytes → Bytes
  params_frame [] = []
  params_frame (x ∷ xs) = image leb (record { path = []; content = x ∷ xs })

  module _ (core_name : CoreName leb) where
    core_name_ok :
        (s dst : Bytes) {out : Bytes}
        → core_name.encode s dst ≡ ok out
        → (out ≡ dst ++ named s) × (length s < u32_mod)
    core_name_ok s dst e = ground (
      arith,
      core_name.encode_lem s dst,
      core_name.encode_long s dst,
      append_assoc dst (leb.encode (length s)) s,
    )

    -- The frame's first bytes that the header ends with, and the parameters behind them.
    params_part :
        (params front bytes : Bytes)
        → (if ltb 0 (length params)
            then Result.ok (front ++ 0 ∷ [] ++ leb.encode (length params))
            else ok front)
          ≡ ok bytes
        → bytes ++ params ≡ front ++ params_frame params
    params_part [] front bytes e = ground (arith, append-nil front, append-nil bytes)
    params_part (x ∷ xs) front bytes e =
        let b : bytes ≡ front ++ 0 ∷ [] ++ leb.encode (length (x ∷ xs)) = ground arith in
        rw (b, leb.encode-zero) (simp append_assoc)

    -- The invocation is the version, the two names and the beginning of the parameters' frame.
    encode_invocation_ok :
        (instance_name func params bytes : Bytes)
        → encode_invocation leb core_name [] instance_name func (length params) ≡ ok bytes
        → (bytes ++ params
            ≡ protocol ∷ (named instance_name ++ (named func ++ params_frame params)))
          × (length instance_name < u32_mod)
          × (length func < u32_mod)
    unfolding encode_invocation
    encode_invocation_ok instance_name func params bytes e =
        let (n, en, e1) = bind_ok (try_u32 (length params)) _ e in
        let (b1, eb1, e2) = bind_ok (core_name.encode instance_name (protocol ∷ [])) _ e1 in
        let (b2, eb2, e3) = bind_ok (core_name.encode func b1) _ e2 in
        let (q1, h1) = core_name_ok instance_name (protocol ∷ []) eb1 in
        let (q2, h2) = core_name_ok func b1 eb2 in
        let last = params_part params b2 bytes (rw ((try_u32-eq_ok (length params) en).0) at e3) in
        (rw (last, q2, q1) (simp append_assoc), h1, h2)

  module _ (utf8 : Bytes → Bool) (leb_reader : ReadLeb128 leb) (reader : Reader) where
    read_name-named :
        (max_len : ℕ) (s rest : Bytes)
        → length s < u32_mod
        → length s ≤ max_len
        → utf8 s ≡ true
        → read_name leb utf8 leb_reader reader max_len (named s ++ rest) ≡ ok (s, rest)
    unfolding read_name
    read_name-named max_len s rest hu hl hs =
        rw
          (
            append_assoc (leb.encode (length s)),
            leb_reader.read_u32-got (leb.encode (length s) ++ (s ++ rest)) (length s) (s ++ rest)
                (leb.decode-encode (length s) (s ++ rest) hu),
          )
          (ground (arith, reader.read_exact-append s rest))

    read_names-named :
        (d : HeaderDecoder) (instance_name func rest : Bytes)
        → length instance_name < u32_mod
        → length func < u32_mod
        → length instance_name ≤ d.max_instance_len
        → length func ≤ d.max_name_len
        → utf8 instance_name ≡ true
        → utf8 func ≡ true
        → read_names leb utf8 leb_reader reader d (named instance_name ++ (named func ++ rest))
          ≡ ok (record { instance_name = instance_name; name = func }, rest)
    unfolding read_names
    read_names-named d instance_name func rest hi hf li lf ui uf =
        rw (read_name-named d.max_instance_len instance_name (named func ++ rest) hi li ui)
          (rw (read_name-named d.max_name_len func rest hf lf uf) refl)

    -- If the client's `encode_invocation` succeeds for the lengths of valid UTF-8 names and of the
    -- parameters, then the server, reading the bytes with the parameters behind them, gets those
    -- two names, provided that they are within its limits, and what it has still to read is the
    -- frame that carries the parameters on the root path (nothing if there are none) and then
    -- whatever follows.
    pub read-encode_invocation :
        (core_name : CoreName leb) (d : HeaderDecoder)
        (instance_name func params bytes rest : Bytes)
        → encode_invocation leb core_name [] instance_name func (length params) ≡ ok bytes
        → length instance_name ≤ d.max_instance_len
        → length func ≤ d.max_name_len
        → utf8 instance_name ≡ true
        → utf8 func ≡ true
        → read leb utf8 leb_reader reader d (bytes ++ params ++ rest)
          ≡ header
              (record { instance_name = instance_name; name = func })
              (params_frame params ++ rest)
    unfolding read read_version
    read-encode_invocation core_name d instance_name func params bytes rest e li lf ui uf =
        let (q, hi, hf) = encode_invocation_ok core_name instance_name func params bytes e in
        rw
          (
            q,
            reader.read_u8-cons protocol,
            append_assoc (named instance_name),
            append_assoc (named func),
          )
          (rw
            (read_names-named d instance_name func (params_frame params ++ rest) hi hf li lf ui uf)
            refl)
