-- ===== src/Frame/Streaming.antt =====
-- The decoder of codec.rs over a byte stream that arrives in pieces.
use wrpc.Prelude.{
  ℕ, zero, suc, ◌<◌, ◌≡◌, refl, inl, inr, List, [], ◌∷◌, ◌++◌, Option, none, some, arith, Bytes, ok,
  err, take-append, drop-append, length-append,
}
use wrpc.Leb128.{Leb128, Read-cases}
use wrpc.Frame.Steps.{decode_path_more, decode_path_got, decode_path_bad}
use wrpc.Frame.Decoder.{
  Decoder, Outcome, take_data, data_length, decode_data, decode_path, path_length, resume_path,
  decode,
}

module _ (leb : Leb128) where
  -- What comes of an outcome when `later` arrives: an incomplete frame is taken up again, a frame
  -- or an error stands, and `later` lies behind what was left.
  abbrev pub resume : Outcome → Bytes → Outcome
  resume (ok none, d, src) later = decode leb d (src ++ later)
  resume (ok (some f), d, src) later = (ok (some f), d, src ++ later)
  resume (err e, d, src) later = (err e, d, src ++ later)

  module _ (max_depth max_size : ℕ) where
    -- The decoder inside a call, with `k` elements and `n` bytes of data to come.
    abbrev pub inside : ℕ → ℕ → Decoder
    inside k n = record {
      path = none;
      path_cap = k;
      data_len = n;
      max_depth = max_depth;
      max_size = max_size;
    }

    take_data-append :
        (n : ℕ) (path : List ℕ) (src later : Bytes)
        → 0 < n
        → take_data leb (inside 0 n) path (src ++ later)
          ≡ resume (take_data leb (inside 0 n) path src) later
    unfolding take_data decode resume_path decode_path decode_data
    take_data-append n path src later h =
        ground (arith, length-append src later, take-append n src later, drop-append n src later)

    data_length-append :
        (path : List ℕ) (src later : Bytes)
        → data_length leb (inside 0 0) path (src ++ later) (leb.decode (src ++ later))
          ≡ resume (data_length leb (inside 0 0) path src (leb.decode src)) later
    unfolding data_length decode resume_path decode_path decode_data
    data_length-append path src later = elim (Read-cases (leb.decode src)) [
      | inl e ↦ rw (e, data_length) refl
      | inr (inl (n, rest, e)) ↦
          rw (e, leb.decode-append_got src later n rest e)
            (ground (arith, take_data-append n path rest later))
      | inr (inr (x, rest, e)) ↦ rw (e, leb.decode-append_bad src later x rest e) refl
    ]

    decode_data-append :
        (n : ℕ) (path : List ℕ) (src later : Bytes)
        → decode_data leb (inside 0 n) path (src ++ later)
          ≡ resume (decode_data leb (inside 0 n) path src) later
    unfolding decode_data
    decode_data-append zero path src later = data_length-append path src later
    decode_data-append (suc n) path src later =
        ground (arith, take_data-append (suc n) path src later)

    decode_path-append :
        (k n : ℕ) (path : List ℕ) (src later : Bytes)
        → decode_path leb k (inside k n) path (src ++ later)
          ≡ resume (decode_path leb k (inside k n) path src) later
    unfolding decode resume_path
    decode_path-append zero n path src later =
        unfold decode_path in decode_data-append n path src later
    decode_path-append (suc k) n path src later = elim (Read-cases (leb.decode src)) [
      | inl e ↦ rw (decode_path_more leb k (inside (suc k) n) path e) refl
      | inr (inl (i, rest, e)) ↦
          rw
            (
              decode_path_got leb k (inside (suc k) n) path e,
              decode_path_got leb k (inside (suc k) n) path
                  (leb.decode-append_got src later i rest e),
            )
            (decode_path-append k n (path ++ i ∷ []) rest later)
      | inr (inr (x, rest, e)) ↦
          rw
            (
              decode_path_bad leb k (inside (suc k) n) path e,
              decode_path_bad leb k (inside (suc k) n) path
                  (leb.decode-append_bad src later x rest e),
            )
            refl
    ]

    resume_path-append :
        (p : Option (List ℕ)) (k n : ℕ) (src later : Bytes)
        → resume_path leb p (inside k n) (src ++ later)
          ≡ resume (resume_path leb p (inside k n) src) later
    unfolding resume_path
    resume_path-append none k n src later = elim (Read-cases (leb.decode src)) [
      | inl e ↦ unfold path_length decode in rw (e, resume) refl
      | inr (inl (i, rest, e)) ↦
          rw (e, leb.decode-append_got src later i rest e)
            (unfold path_length in ground (arith, decode_path-append i n [] rest later))
      | inr (inr (x, rest, e)) ↦
          rw (e, leb.decode-append_bad src later x rest e) (unfold path_length in refl)
    ]
    resume_path-append (some path) k n src later = decode_path-append k n path src later

  -- For every decoder state, buffer and later bytes, one call on all the bytes gives what the
  -- call on the buffer gives, taken up again when the later bytes arrive: where a frame was
  -- incomplete the next call goes on from the stored state to the same outcome, and a frame or an
  -- error does not depend on the bytes behind it, which stay in the buffer. So the frames that are
  -- decoded do not depend on how the stream is cut into reads.
  pub decode-append :
      (d : Decoder) (src later : Bytes)
      → decode leb d (src ++ later) ≡ resume (decode leb d src) later
  unfolding decode
  decode-append d src later =
      resume_path-append d.max_depth d.max_size d.path d.path_cap d.data_len src later
