-- ===== src/Values/Runtime/Options.antt =====
-- Options, results, flags, futures and streams: what is written is read back.
use wrpc.Prelude.{
  ℕ, ◌+◌, ◌/◌, ◌≤◌, ◌≡◌, refl, sym, ◌∙◌, true, List, [], ◌∷◌, ◌++◌, Bytes, Result, ok, ltb, length,
  arith, inl, inr, Bool-cases,
}
use wrpc.Leb128.{Leb128, ReadLeb128}
use wrpc.Reader.{Reader}
use wrpc.Frame.Header.{CoreName}
use wrpc.Values.{
  Ty, MaybeTy, Value, MaybeValue, payload_supported, option_of, result_of, flags_of, future_of,
  stream_of, some_ty, option, result_ok, result_err, flags, future, stream, no_value, some_value,
  local, remote,
}
use wrpc.Values.Prims.{Prims}
use wrpc.Values.Reads.{Reads}
use wrpc.Values.Flags.{put_flags, flags_size, kept}
use wrpc.Values.Flags.RoundTrip.{marked-put_flags, marked-of_le, length-put_flags}
use wrpc.Values.Wave.{read_optional}
use wrpc.Values.Runtime.Handles.{Host}
use wrpc.Values.Runtime.Encoder.{encode_future, encode_stream, encode_val}
use wrpc.Values.Runtime.Decoder.{open_source, read_flags, read_future, read_stream, read_val}
use wrpc.Values.Runtime.Paths.{sources, located}
use wrpc.Values.Runtime.Sent.{SentVal, SentPayload}

-- Above 128 flags, `cap` bytes.
flags_size_long : (n : ℕ) → 129 ≤ n → (n + 7) / 8 ≡ flags_size n
unfolding flags_size
flags_size_long n h = ground arith

module _ {leb : Leb128} (p : Prims leb) (core_name : CoreName leb) (leb_reader : ReadLeb128 leb)
    (reader : Reader) (host : Host) (index : List ℕ → Result (List ℕ)) where
  pub got_none :
      (t : Ty) → SentVal p core_name leb_reader reader host index (option no_value) (option_of t)
  unfolding encode_val read_val sources located read_optional
  got_none t = (0 ∷ [], refl, λ path o rest. rw (p.read_option_status-none rest) refl)

  pub got_some :
      (v : Value) (t : Ty)
      → SentVal p core_name leb_reader reader host index v t
      → SentVal p core_name leb_reader reader host index (option (some_value v)) (option_of t)
  unfolding encode_val read_val sources located read_optional
  got_some v t (b, w, r) = (
    1 ∷ b,
    rw (w) refl,
    λ path o rest. rw (p.read_option_status-some (b ++ rest), r path o rest) refl,
  )

  pub got_ok :
      (v : MaybeValue) (m o : MaybeTy)
      → SentPayload p core_name leb_reader reader host index v m
      → SentVal p core_name leb_reader reader host index (result_ok v) (result_of m o)
  unfolding encode_val read_val sources located
  got_ok v m o (b, w, r) = (
    0 ∷ b,
    rw (w) refl,
    λ path o rest. rw (p.read_result_status-ok (b ++ rest), r path o rest) refl,
  )

  pub got_err :
      (v : MaybeValue) (m o : MaybeTy)
      → SentPayload p core_name leb_reader reader host index v m
      → SentVal p core_name leb_reader reader host index (result_err v) (result_of o m)
  unfolding encode_val read_val sources located
  got_err v m o (b, w, r) = (
    1 ∷ b,
    rw (w) refl,
    λ path o rest. rw (p.read_result_status-err (b ++ rest), r path o rest) refl,
  )

  pub got_flags :
      (fs names : List Bytes)
      → kept fs names ≡ fs
      → SentVal p core_name leb_reader reader host index (flags fs) (flags_of names)
  unfolding encode_val read_val sources located read_flags
  got_flags fs names k =
      let b = put_flags names fs in
      let n : flags_size (length names) ≡ length b = sym (length-put_flags names fs) in
      let reads : Reads b (read_flags p leb_reader reader host index names) (flags fs) = λ rest.
        elim (Bool-cases (ltb (length names) 129)) [
          | inl c ↦
              rw (c, n, reader.read_exact-append b rest, marked-of_le names fs (ground arith), k)
                refl
          | inr c ↦
              rw
                (
                  c,
                  flags_size_long (length names) (ground arith) ∙ n,
                  reader.read_exact-append b rest,
                  marked-put_flags names fs,
                  k,
                )
                refl
        ] in
      (b, refl, λ path o rest. reads rest)

  pub got_future :
      (i : ℕ) (m : MaybeTy)
      → payload_supported m ≡ true
      → host.pipe_future m (local i) ≡ ok (local i)
      → ((path : List ℕ) → host.new_reader (remote path) ≡ ok (remote path))
      → SentVal p core_name leb_reader reader host index (future (local i)) (future_of m)
  unfolding encode_val encode_future read_val sources located read_future open_source
  got_future i m h piped made = (
    0 ∷ [],
    rw (h, piped) refl,
    λ path o rest. rw (h, p.read_option_status-none rest, o.0, made path) refl,
  )

  pub got_stream :
      (i : ℕ) (t : Ty)
      → payload_supported (some_ty t) ≡ true
      → host.pipe_stream t (local i) ≡ ok (local i)
      → ((path : List ℕ) → host.new_reader (remote path) ≡ ok (remote path))
      → SentVal p core_name leb_reader reader host index (stream (local i)) (stream_of (some_ty t))
  unfolding encode_val encode_stream read_val sources located read_stream open_source
  got_stream i t h piped made = (
    0 ∷ [],
    rw (h, piped) refl,
    λ path o rest. rw (h, p.read_option_status-none rest, o.0, made path) refl,
  )
