-- ===== src/Conn/FrameHead/RoundTrip.antt =====
-- What ingress of conn/mod.rs reads of a frame that codec.rs encoded.
use wrpc.Prelude.{
  ℕ, suc, ◌+◌, ◌≤◌, ◌<◌, ◌≡◌, refl, List, [], ◌∷◌, ◌++◌, append_assoc, append-nil, some, arith,
  Bytes, ok, err, All, not_found, length, u32_mod, ltb, if◌then◌else◌, lt→ltb, ltb→lt, Bool-cases,
  ◌⊎◌, inl, inr,
}
use wrpc.Leb128.{Leb128, ReadLeb128, got}
use wrpc.Reader.{Reader}
use wrpc.Frame.{Frame}
use wrpc.Frame.RoundTrip.{Fits, elements, image}
use wrpc.Conn.FrameHead.{read_path, read_head_rest, read_head_at, read_head}

module _ (leb : Leb128) (leb_reader : ReadLeb128 leb) (reader : Reader) (depth : ℕ) where
  read_encoded :
      (n : ℕ) (rest : Bytes)
      → n < u32_mod
      → leb_reader.read_u32 (leb.encode n ++ rest) ≡ ok (n, rest)
  read_encoded n rest h = leb_reader.read_u32-got _ n rest (leb.decode-encode n rest h)

  read_path_step :
      (k i p : ℕ) (before : List ℕ) (rest : Bytes)
      → p < u32_mod
      → read_path leb leb_reader reader depth (suc k) i before (leb.encode p ++ rest)
        ≡ read_path leb leb_reader reader depth k
            (i + 1)
            (if ltb i depth then before ++ p ∷ [] else before)
            rest
  unfolding read_path
  read_path_step k i p before rest h = rw (read_encoded p rest h)

  read_path-elements :
      (path before : List ℕ) (i : ℕ) (rest : Bytes)
      → All (λ p. p < u32_mod) path
      → i + length path ≤ depth
      → read_path leb leb_reader reader depth (length path) i before (elements leb path ++ rest)
        ≡ ok (before ++ path, rest)
  read_path-elements [] before i rest h l = unfold read_path in rw append-nil
  read_path-elements (p ∷ path) before i rest h l =
      rw
        (
          append_assoc (leb.encode p),
          read_path_step (length path) i p before (elements leb path ++ rest) h.0,
          lt→ltb i depth (omega arith),
        )
        (ground (
          arith,
          read_path-elements path (before ++ p ∷ []) (i + 1) rest h.1 (omega arith),
          append_assoc before (p ∷ []) path,
        ))

  -- A path that is too long is still read to its end.
  read_path_deep :
      (path before : List ℕ) (i : ℕ) (rest : Bytes)
      → All (λ p. p < u32_mod) path
      → (kept : List ℕ) × (read_path leb leb_reader reader depth
            (length path)
            i
            before
            (elements leb path ++ rest)
          ≡ ok (kept, rest))
  read_path_deep [] before i rest h = unfold read_path in (before, refl)
  read_path_deep (p ∷ path) before i rest h =
      rw
        (
          append_assoc (leb.encode p),
          read_path_step (length path) i p before (elements leb path ++ rest) h.0,
        )
        (read_path_deep path _ (i + 1) rest h.1)

  -- The number that a frame begins with is read whole, though its first byte is read on its own.
  read_head_got :
      (src : Bytes) (n : ℕ) (rest : Bytes)
      → leb.decode src ≡ got n rest
      → read_head leb leb_reader reader depth src
        ≡ read_head_rest leb leb_reader reader depth n rest
  unfolding read_head read_head_at
  read_head_got [] n rest h = absurd (omega (arith, leb.decode_takes [] n rest h))
  read_head_got (b ∷ bs) n rest h =
      rw (reader.read_u8-cons b bs) (rw (leb_reader.read_u32-got (b ∷ bs) n rest h))

  -- Of an encoded frame whose path is at most as deep as the declared paths, ingress reads the
  -- path and the length of the data, and the data is what it reads next. A frame with a deeper
  -- path is refused with `NotFound`.
  pub read_head-image :
      (f : Frame) (rest : Bytes)
      → Fits f
      → ((length f.path ≤ depth)
          × (read_head leb leb_reader reader depth (image leb f ++ rest)
              ≡ ok (
                  some (record { path = f.path; data_len = length f.content }, f.content ++ rest))))
        ⊎ ((depth < length f.path)
            × (read_head leb leb_reader reader depth (image leb f ++ rest) ≡ err not_found))
  read_head-image f rest (h, hp, hc) =
      let after = leb.encode (length f.content) ++ (f.content ++ rest) in
      rw
        (
          append_assoc (leb.encode (length f.path)),
          append_assoc (elements leb f.path),
          append_assoc (leb.encode (length f.content)),
          read_head_got _ (length f.path) (elements leb f.path ++ after) (leb.decode-encode _ _ h),
        )
        (elim (Bool-cases (ltb depth (length f.path))) [
          | inl deep ↦
              let (kept, e) = read_path_deep f.path [] 0 after hp in
              inr (
                ltb→lt _ _ deep,
                unfold read_head_rest in
                    rw (e, read_encoded (length f.content) (f.content ++ rest) hc, deep),
              )
          | inr fits ↦
              let l : length f.path ≤ depth = ground arith in
              inl (
                l,
                unfold read_head_rest in
                    rw (read_path-elements f.path [] 0 after hp (omega arith))
                      (rw (read_encoded (length f.content) (f.content ++ rest) hc, fits)),
              )
        ])
