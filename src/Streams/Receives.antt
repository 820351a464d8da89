-- ===== src/Streams/Receives.antt =====
-- What `StreamDecoderBytes` of crates/transport/src/value.rs receives.
use wrpc.Prelude.{
  ℕ, Bool, true, false, ◌≡◌, refl, ap, sym, ◌∙◌, subst, ◌⊎◌, inl, inr, List, [], ◌∷◌, ◌++◌,
  append_assoc, append-nil, Option, none, some, Bytes, Result, ok, err, invalid_data, broken_pipe,
}
use wrpc.Lists.{Decoded}
use wrpc.Lists.Resume.{continue, IsResumable}
use wrpc.Streams.{
  BufferedIncoming, Framed, State, receiving, finished, at_end, ensure_processed, on_chunk,
  empty_or, Step, takes, fails, reads_buffer, reads_inner, ends, fails_reading, Steps, stay, step,
  start,
}

module _ {S : Type 0} (decode : S → Bytes → Decoded S Bytes) where
  -- The decoder gives the chunks `items`, which are not empty, of the bytes, and then an empty
  -- one, with `rest` behind it.
  abbrev pub Yields : S → Bytes → List Bytes → Bytes → Type 0
  Yields s src [] rest = (t : S) × (decode s src ≡ (ok (some []), (t, rest)))
  Yields s src (c ∷ items) rest =
      (t : S) × (later : Bytes) × (b : ℕ) × (bs : Bytes) × (c ≡ b ∷ bs)
      × (decode s src ≡ (ok (some c), (t, later)))
      × Yields t later items rest

  -- All that is still to be decoded.
  abbrev pub ahead : Framed S → Bytes
  ahead f = f.read_buffer ++ (f.incoming.buffer ++ f.incoming.inner)

  -- In the loop, what was sent is the front of `all`, and the decoder gives the others of what is
  -- ahead. The task ends without an error only once all was sent, and then tells the stream so;
  -- otherwise the front of it was sent, and the stream was dropped, or there is data behind the
  -- end of the stream.
  abbrev pub Holds : List Bytes → Bytes → State S → Type 0
  Holds all rest (receiving f sent) =
      (items : List Bytes) × (sent ++ items ≡ all) × Yields f.dec (ahead f) items rest
  Holds all rest (finished (ok u) told sent) = (sent ≡ all) × (told ≡ true)
  Holds all rest (finished (err e) told sent) =
      (items : List Bytes) × (sent ++ items ≡ all)
      × (told ≡ false)
      × ((e ≡ broken_pipe) ⊎ ((e ≡ invalid_data) × ((b : ℕ) × (bs : Bytes) × (rest ≡ b ∷ bs))))

  module _ (resumable : IsResumable decode) (all : List Bytes) (rest : Bytes) where
    -- What the decoder makes of the bytes that it has, before those that come.
    pub whole :
        (f : Framed S) (s : S) (left : Bytes) (r : Result (Option Bytes))
        → decode f.dec f.read_buffer ≡ (r, (s, left))
        → decode f.dec (ahead f)
          ≡ continue decode (r, (s, left)) (f.incoming.buffer ++ f.incoming.inner)
    whole f s left r e =
        resumable f.dec f.read_buffer (f.incoming.buffer ++ f.incoming.inner)
        ∙ ap (λ q. continue decode q (f.incoming.buffer ++ f.incoming.inner)) e

    -- The decoder asks for more, and gets it.
    more-Yields :
        (s t : S) (src src' : Bytes) (items : List Bytes)
        → decode s src ≡ decode t src'
        → Yields s src items rest
        → Yields t src' items rest
    more-Yields s t src src' [] e (u, h) = (u, sym e ∙ h)
    more-Yields s t src src' (c ∷ items) e (u, later, b, bs, n, h, k) =
        (u, later, b, bs, n, sym e ∙ h, k)

    pub first_chunk :
        (s : S) (src : Bytes) (items : List Bytes)
        → Yields s src items rest
        → (c : Bytes) × (t : S) × (later : Bytes) × (decode s src ≡ (ok (some c), (t, later)))
    first_chunk s src [] (t, h) = ([], t, rest, h)
    first_chunk s src (c ∷ items) (t, later, b, bs, n, h, k) = (c, t, later, h)

    taking-Holds :
        (f : Framed S) (sent : List Bytes) (alive : Bool) (s : S) (left chunk : Bytes)
        → decode f.dec (ahead f)
          ≡ (ok (some chunk), (s, left ++ (f.incoming.buffer ++ f.incoming.inner)))
        → Holds all rest (receiving f sent)
        → Holds all rest (on_chunk alive (record f { dec = s; read_buffer = left }) sent chunk)
    unfolding on_chunk ensure_processed
    taking-Holds f sent alive s left [] e ([], p, (t, h)) = ended left f.incoming.buffer cc
      where
        ended :
            (x y : Bytes)
            → rest ≡ x ++ (y ++ f.incoming.inner)
            → Holds all rest (at_end sent (empty_or x (empty_or y (ok tt))))
        ended [] [] q = (sym (append-nil sent) ∙ p, refl)
        ended [] (b ∷ bs) q = ([], p, refl, inr (refl, (b, bs ++ f.incoming.inner, q)))
        ended (b ∷ bs) y q = ([], p, refl, inr (refl, (b, bs ++ (y ++ f.incoming.inner), q)))
    taking-Holds f sent alive s left (b ∷ bs) e ([], p, (t, h)) = cc
    taking-Holds f sent alive s left [] e (c ∷ items, p, (t, later, b, bs, n, h, k)) = cc
    taking-Holds f sent true s left (x ∷ xs) e (c ∷ items, p, (t, later, b, bs, n, h, k)) =
        let same : c ≡ x ∷ xs = cc in
        let state : t ≡ s = cc in
        let behind : later ≡ left ++ (f.incoming.buffer ++ f.incoming.inner) = cc in
        (
          items,
          append_assoc sent ((x ∷ xs) ∷ []) items ∙ ap (λ q. sent ++ q ∷ items) (sym same) ∙ p,
          subst (λ q. Yields q (left ++ (f.incoming.buffer ++ f.incoming.inner)) items rest) state
              (subst (λ q. Yields t q items rest) behind k),
        )
    taking-Holds f sent false s left (x ∷ xs) e (c ∷ items, p, (t, later, b, bs, n, h, k)) =
        (c ∷ items, p, refl, inl refl)

    pub eof-Holds :
        (f : Framed S) (sent : List Bytes) (s : S) (left : Bytes)
        → decode f.dec f.read_buffer ≡ (ok none, (s, left))
        → f.incoming.buffer ≡ []
        → f.incoming.inner ≡ []
        → Holds all rest (receiving f sent)
        → ⊥
    eof-Holds f sent s left e b i (items, p, y) =
        let (c, t, later, h) = first_chunk f.dec (ahead f) items y in
        let same : ahead f ≡ f.read_buffer =
          ap (λ q. f.read_buffer ++ (q ++ f.incoming.inner)) b
          ∙ ap (λ q. f.read_buffer ++ q) i
          ∙ append-nil f.read_buffer in
        cc (sym h ∙ ap (decode f.dec) same ∙ e)

    pub Step-Holds : (p q : State S) → Step decode p q → Holds all rest p → Holds all rest q
    Step-Holds p q (takes f sent alive s left chunk e) h =
        taking-Holds f sent alive s left chunk (whole f s left (ok (some chunk)) e) h
    Step-Holds p q (fails f sent s left k e) (items, w, y) =
        let (c, t, later, h) = first_chunk f.dec (ahead f) items y in
        cc (sym h ∙ whole f s left (err k) e)
    Step-Holds p q (reads_buffer f sent s left later b bs e x) (items, w, y) = (
      items,
      w,
      more-Yields f.dec s (ahead f) ((left ++ b ∷ bs) ++ (later ++ f.incoming.inner)) items
          (whole f s left (ok none) e
            ∙ ap (λ q. decode s (left ++ (q ++ f.incoming.inner))) x
            ∙ ap (λ q. decode s (left ++ q)) (append_assoc (b ∷ bs) later f.incoming.inner)
            ∙ ap (decode s) (sym (append_assoc left (b ∷ bs) (later ++ f.incoming.inner))))
          y,
    )
    Step-Holds p q (reads_inner f sent s left later b bs e x z) (items, w, y) = (
      items,
      w,
      more-Yields f.dec s (ahead f) ((left ++ b ∷ bs) ++ later) items
          (whole f s left (ok none) e
            ∙ ap (λ q. decode s (left ++ (q ++ f.incoming.inner))) x
            ∙ ap (λ q. decode s (left ++ q)) z
            ∙ ap (decode s) (sym (append_assoc left (b ∷ bs) later)))
          y,
    )
    Step-Holds p q (ends f sent s left k e b i n) h = absurd (eof-Holds f sent s left e b i h)
    Step-Holds p q (fails_reading f sent s left k e b i n) h =
        absurd (eof-Holds f sent s left e b i h)

    Steps-keep : (p q : State S) → Steps decode p q → Holds all rest p → Holds all rest q
    Steps-keep p q (stay s) h = h
    Steps-keep p q (step x y z k ks) h = Steps-keep y z ks (Step-Holds x y k h)

    -- If the decoder may be given its bytes in pieces, and gives the chunks `all` of the data, and
    -- then an empty one with `rest` behind it: in whatever pieces the data comes, what is sent to
    -- the stream is the front of these chunks. The task returns without an error only once all of
    -- them were sent, and then the stream is told that it is complete. It fails only where the
    -- stream was dropped, or with `InvalidData` where there is data behind the end.
    pub Steps-Receives :
        (dec : S) (r : BufferedIncoming) (q : State S)
        → Yields dec (r.buffer ++ r.inner) all rest
        → Steps decode (start dec r) q
        → Holds all rest q
    Steps-Receives dec r q y steps = Steps-keep (start dec r) q steps (all, refl, y)
