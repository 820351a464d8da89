-- ===== src/Conn/Egress/Frames.antt =====
-- The handles, egress and the frame encoder agree: conn/mod.rs writes what codec.rs encodes.
use wrpc.Prelude.{
  ℕ, ◌≡◌, refl, sym, ap, ◌∙◌, ◌≢◌, List, [], ◌∷◌, ◌++◌, append_assoc, append-nil, arith, Bytes, ok,
  err, ◌>>=◌, bind_ok, try_u32, length,
}
use wrpc.Prelude.{◌≤◌, ◌⊎◌, inl, inr, All, map, invalid_input, some}
use wrpc.Leb128.{Leb128}
use wrpc.Frame.RoundTrip.{Fits, image, encode_cases, decode-image}
use wrpc.Frame.Decoder.{Decoder, new, decode}
use wrpc.Frame.{Frame}
use wrpc.Frame.Encoder.{encode_elements, encode}
use wrpc.Conn.Outgoing.{Outgoing, root, join, index_at, index}
use wrpc.Conn.Egress.{write_frame, egress}

module _ (leb : Leb128) where
  -- A handle whose stored path prefix is the encoding of its path.
  abbrev pub IsHandle : Outgoing → Type 0
  IsHandle o = index_at leb o.path ≡ ok o

  index_at-path : (path : List ℕ) {o : Outgoing} → index_at leb path ≡ ok o → o.path ≡ path
  unfolding index_at
  index_at-path path e =
      let (n, en, e1) = bind_ok (try_u32 (length path)) _ e in
      let (buf, eb, e2) = bind_ok (encode_elements leb path (leb.encode n)) _ e1 in ground arith

  -- The handle of the root is one.
  pub root-IsHandle : IsHandle root
  unfolding index_at encode_elements
  root-IsHandle = ground (arith, leb.encode-zero)

  -- A handle that `index` returns has the path asked for behind that of the handle it was asked
  -- of, its stored prefix encodes that path, and the path asked for was not empty.
  pub index-IsHandle :
      (o o' : Outgoing) (path : List ℕ)
      → index leb o path ≡ ok o'
      → IsHandle o' × (o'.path ≡ join o.path path) × (path ≢ [])
  unfolding index
  index-IsHandle o o' [] e = cc
  index-IsHandle o o' (p ∷ ps) e =
      let q = index_at-path (join o.path (p ∷ ps)) e in (ap (index_at leb) q ∙ e, q, λ z. cc)

  -- A message sent by a handle is written as the frame of its path and data is encoded.
  write_frame-encode :
      (o : Outgoing) (content : Bytes)
      → IsHandle o
      → write_frame leb (o.path_buf, content)
        ≡ encode leb (record { path = o.path; content = content }) []
  unfolding write_frame encode index_at
  write_frame-encode o content e =
      let (n, en, e1) = bind_ok (try_u32 (length o.path)) _ e in
      let (buf, eb, e2) = bind_ok (encode_elements leb o.path (leb.encode n)) _ e1 in ground arith

  -- The frames encoded one after the other.
  abbrev pub images : List Frame → Bytes
  images [] = []
  images (f ∷ fs) = image leb f ++ images fs

  abbrev pub frame_of : Outgoing × Bytes → Frame
  frame_of (o, content) = record { path = o.path; content = content }

  abbrev pub message_of : Outgoing × Bytes → Bytes × Bytes
  message_of (o, content) = (o.path_buf, content)

  -- For messages sent by handles, egress succeeds exactly if each message's frame can be encoded,
  -- and then it has appended the encodings of the frames, in the order sent, to what it had
  -- written; otherwise it fails with `InvalidInput`.
  pub egress_cases :
      (ms : List (Outgoing × Bytes)) (out : Bytes)
      → All (λ m. IsHandle m.0) ms
      → (All (λ m. Fits (frame_of m)) ms
          × (egress leb (map message_of ms) out ≡ ok (out ++ images (map frame_of ms))))
        ⊎ ((¬ All (λ m. Fits (frame_of m)) ms)
            × (egress leb (map message_of ms) out ≡ err invalid_input))
  unfolding egress
  egress_cases [] out h = inl (tt, ap ok (sym (append-nil out)))
  egress_cases ((o, content) ∷ ms) out (h, hs) =
      elim (encode_cases leb (frame_of (o, content)) []) [
        | inl (fits, e) ↦
            rw (write_frame-encode o content h ∙ e, ◌>>=◌)
              (elim (egress_cases ms (out ++ image leb (frame_of (o, content))) hs) [
                | inl (all, e') ↦ inl ((fits, all), rw e' (ap ok (append_assoc out _ _)))
                | inr (all, e') ↦ inr (λ q. all q.1, e')
              ])
        | inr (fits, e) ↦ inr (λ q. fits q.0, rw (write_frame-encode o content h ∙ e))
      ]

  -- The decoder, called again and again, returns the frames `fs`, and leaves `rest`.
  abbrev pub Decodes : Decoder → List Frame → Bytes → Bytes → Type 0
  Decodes d [] src rest = src ≡ rest
  Decodes d (f ∷ fs) src rest =
      (mid : Bytes) × (decode leb d src ≡ (ok (some f), d, mid)) × Decodes d fs mid rest

  abbrev pub Within : ℕ → ℕ → Frame → Type 0
  Within max_depth max_size f = (length f.path ≤ max_depth) × (length f.content ≤ max_size)

  Decodes-images :
      (max_depth max_size : ℕ) (fs : List Frame) (rest : Bytes)
      → All Fits fs
      → All (Within max_depth max_size) fs
      → Decodes (new max_depth max_size) fs (images fs ++ rest) rest
  Decodes-images max_depth max_size [] rest a w = refl
  Decodes-images max_depth max_size (f ∷ fs) rest a w = (
    images fs ++ rest,
    rw (append_assoc (image leb f))
        (decode-image leb f max_depth max_size (images fs ++ rest) a.0 w.0.0 w.0.1),
    Decodes-images max_depth max_size fs rest a.1 w.1,
  )

  All-map :
      (ms : List (Outgoing × Bytes)) → All (λ m. Fits (frame_of m)) ms → All Fits (map frame_of ms)
  All-map [] a = tt
  All-map (m ∷ ms) a = (a.0, All-map ms a.1)

  -- If egress of the messages of handles succeeds, a frame decoder whose limits the frames keep
  -- reads back from the bytes, in order, a frame for each message, with the path of the handle
  -- that sent it and the data sent.
  pub egress-Decodes :
      (max_depth max_size : ℕ) (ms : List (Outgoing × Bytes)) (bytes rest : Bytes)
      → All (λ m. IsHandle m.0) ms
      → egress leb (map message_of ms) [] ≡ ok bytes
      → All (Within max_depth max_size) (map frame_of ms)
      → Decodes (new max_depth max_size) (map frame_of ms) (bytes ++ rest) rest
  egress-Decodes max_depth max_size ms bytes rest h e w = elim (egress_cases ms [] h) [
    | inl (fits, e') ↦
        let q : bytes ≡ images (map frame_of ms) = cc in
        rw q (Decodes-images max_depth max_size (map frame_of ms) rest (All-map ms fits) w)
    | inr (fits, e') ↦ cc
  ]
