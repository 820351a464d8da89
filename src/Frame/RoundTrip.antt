-- ===== src/Frame/RoundTrip.antt =====
-- The encoder and the decoder of codec.rs against one another.
use wrpc.Prelude.{
  ℕ, ◌≤◌, ◌<◌, ◌≡◌, refl, List, [], ◌∷◌, ◌++◌, append_assoc, some, arith, Bytes, ok, u32_mod,
  length, All, take-length_append, drop-length_append, length-append, append-nil,
}
use wrpc.Prelude.{◌⊎◌, inl, inr, ap, sym, err, invalid_input}
use wrpc.Leb128.{Leb128, got}
use wrpc.Frame.{Frame}
use wrpc.Frame.Encoder.{encode_elements, encode}
use wrpc.Frame.Steps.{decode_path_got}
use wrpc.Frame.Decoder.{
  Decoder, new, take_data, data_length, decode_data, decode_path, path_length, resume_path, decode,
}

-- What can be written with 32-bit numbers.
abbrev pub Fits : Frame → Type 0
Fits f = (length f.path < u32_mod) × All (λ p. p < u32_mod) f.path × (length f.content < u32_mod)

module _ (leb : Leb128) where
  -- The elements of a path one after the other.
  abbrev pub elements : List ℕ → Bytes
  elements [] = []
  elements (p ∷ path) = leb.encode p ++ elements path

  abbrev pub image : Frame → Bytes
  image f =
      leb.encode (length f.path)
      ++ (elements f.path ++ (leb.encode (length f.content) ++ f.content))

  encode_elements-cases :
      (path : List ℕ) (dst : Bytes)
      → (All (λ p. p < u32_mod) path × (encode_elements leb path dst ≡ ok (dst ++ elements path)))
        ⊎ ((¬ All (λ p. p < u32_mod) path) × (encode_elements leb path dst ≡ err invalid_input))
  unfolding encode_elements
  encode_elements-cases [] dst = inl (tt, ap ok (sym (append-nil dst)))
  encode_elements-cases (p ∷ path) dst = elim (encode_elements-cases path (dst ++ leb.encode p)) [
    | inl (h, e) ↦ ground (arith, append_assoc dst (leb.encode p) (elements path))
    | inr (h, e) ↦ ground arith
  ]

  image_assoc :
      (f : Frame) (dst : Bytes)
      → dst
          ++ leb.encode (length f.path)
          ++ elements f.path
          ++ leb.encode (length f.content)
          ++ f.content
        ≡ dst ++ image f
  image_assoc f dst = simp append_assoc

  -- Encoding succeeds, and appends the numbers of the frame and its data, exactly for the frames
  -- whose path length, path elements and data length are below 2 ^ 32; any other is refused with
  -- `InvalidInput`.
  pub encode_cases :
      (f : Frame) (dst : Bytes)
      → (Fits f × (encode leb f dst ≡ ok (dst ++ image f)))
        ⊎ ((¬ Fits f) × (encode leb f dst ≡ err invalid_input))
  unfolding encode
  encode_cases f dst = elim (encode_elements-cases f.path (dst ++ leb.encode (length f.path))) [
    | inl (h, e) ↦ ground (
      arith,
      image_assoc f dst,
      append_assoc (dst ++ leb.encode (length f.path) ++ elements f.path)
          (leb.encode (length f.content)) f.content,
    )
    | inr (h, e) ↦ ground arith
  ]

  encode-image :
      (f : Frame) (dst out : Bytes) → encode leb f dst ≡ ok out → (out ≡ dst ++ image f) × Fits f
  encode-image f dst out e = ground (arith, encode_cases f dst)

  take_data-content :
      (d : Decoder) (path : List ℕ) (content rest : Bytes)
      → d.data_len ≡ length content
      → take_data leb d path (content ++ rest)
        ≡ (ok (some (record { path = path; content = content })), record d { data_len = 0 }, rest)
  unfolding take_data
  take_data-content d path content rest h = rw h (
      ground (
        arith,
        length-append content rest,
        take-length_append content rest,
        drop-length_append content rest,
      ))

  data_length-content :
      (d : Decoder) (path : List ℕ) (src content rest : Bytes)
      → length content ≤ d.max_size
      → data_length leb d path src (got (length content) (content ++ rest))
        ≡ (ok (some (record { path = path; content = content })), record d { data_len = 0 }, rest)
  unfolding data_length
  data_length-content d path src [] rest h = ground arith
  data_length-content d path src (x ∷ xs) rest h =
      ground (arith, take_data-content (record d { data_len = length (x ∷ xs) }) path (x ∷ xs) rest)

  decode_data-content :
      (d : Decoder) (path : List ℕ) (content rest : Bytes)
      → d.data_len ≡ 0
      → length content ≤ d.max_size
      → length content < u32_mod
      → decode_data leb d path (leb.encode (length content) ++ (content ++ rest))
        ≡ (ok (some (record { path = path; content = content })), record d { data_len = 0 }, rest)
  unfolding decode_data
  decode_data-content d path content rest hd hs hu =
      rw (leb.decode-encode (length content) (content ++ rest) hu) (
        ground (
          arith,
          data_length-content d path (leb.encode (length content) ++ (content ++ rest)) content rest
              hs,
        ))

  decode_path-elements :
      (path before : List ℕ) (d : Decoder) (rest : Bytes)
      → d.path_cap ≡ length path
      → All (λ p. p < u32_mod) path
      → decode_path leb (length path) d before (elements path ++ rest)
        ≡ decode_data leb (record d { path_cap = 0 }) (before ++ path) rest
  decode_path-elements [] before d rest c h =
      unfold decode_path in ground (arith, append-nil before)
  decode_path-elements (p ∷ path) before d rest c h =
      rw
        (
          append_assoc (leb.encode p),
          decode_path_got leb (length path) d before
              (leb.decode-encode p (elements path ++ rest) h.0),
        )
        (ground (
          arith,
          decode_path-elements path (before ++ p ∷ []) (record d { path_cap = length path }) rest
              refl h.1,
          append_assoc before (p ∷ []) path,
        ))

  pub decode-image :
      (f : Frame) (max_depth max_size : ℕ) (rest : Bytes)
      → Fits f
      → length f.path ≤ max_depth
      → length f.content ≤ max_size
      → decode leb (new max_depth max_size) (image f ++ rest)
        ≡ (ok (some f), new max_depth max_size, rest)
  unfolding decode resume_path path_length
  decode-image f max_depth max_size rest (h, hp, hc) hd hs =
      rw
        (
          append_assoc (leb.encode (length f.path)),
          append_assoc (elements f.path),
          append_assoc (leb.encode (length f.content)),
          leb.decode-encode (length f.path) _ h,
        )
        (ground (
          arith,
          decode_path-elements f.path []
              (record (new max_depth max_size) { path_cap = length f.path })
              (leb.encode (length f.content) ++ (f.content ++ rest)) refl hp,
          decode_data-content (new max_depth max_size) f.path f.content rest refl hs hc,
        ))

  -- If encoding a frame into a buffer succeeds, the bytes appended to the buffer are decoded by a
  -- new decoder to that very frame, with the decoder as it was at first and whatever follows the
  -- frame left in the buffer, provided that the frame is within the decoder's two limits.
  pub decode-encode :
      (f : Frame) (max_depth max_size : ℕ) (bytes rest : Bytes)
      → encode leb f [] ≡ ok bytes
      → length f.path ≤ max_depth
      → length f.content ≤ max_size
      → decode leb (new max_depth max_size) (bytes ++ rest)
        ≡ (ok (some f), new max_depth max_size, rest)
  decode-encode f max_depth max_size bytes rest e hd hs =
      let (b, fits) = encode-image f [] bytes e in
      rw b (decode-image f max_depth max_size rest fits hd hs)
