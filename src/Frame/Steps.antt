-- ===== src/Frame/Steps.antt =====
-- One round of the loop over the path elements of codec.rs, by the answer of the number decoder.
use wrpc.Prelude.{ℕ, suc, ◌≡◌, List, [], ◌∷◌, ◌++◌, none, some, Bytes, ErrorKind, ok, err}
use wrpc.Leb128.{Leb128, got, more, bad}
use wrpc.Frame.Decoder.{Decoder, decode_path}

module _ (leb : Leb128) (k : ℕ) (d : Decoder) (path : List ℕ) {src : Bytes} where
  pub decode_path_more :
      leb.decode src ≡ more
      → decode_path leb (suc k) d path src ≡ (ok none, record d { path = some path }, src)
  unfolding decode_path
  decode_path_more e = rw (e, decode_path)

  pub decode_path_got :
      {i : ℕ} {rest : Bytes}
      → leb.decode src ≡ got i rest
      → decode_path leb (suc k) d path src
        ≡ decode_path leb k (record d { path_cap = k }) (path ++ i ∷ []) rest
  unfolding decode_path
  decode_path_got e = rw (e, decode_path)

  pub decode_path_bad :
      {x : ErrorKind} {rest : Bytes}
      → leb.decode src ≡ bad x rest
      → decode_path leb (suc k) d path src ≡ (err x, d, rest)
  unfolding decode_path
  decode_path_bad e = rw (e, decode_path)
