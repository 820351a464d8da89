-- ===== src/Conn/Outgoing/Stream/Framing.antt =====
-- What `write_stream_bytes` of crates/transport/src/value.rs sends, in whatever order its branches
-- are taken.
use wrpc.Prelude.{
  ◌≡◌, refl, ap, sym, ◌∙◌, inl, inr, List, [], ◌∷◌, ◌++◌, map, append_assoc, append-nil, Bytes,
  Result, ok, err, length, ltb, u32_mod, Bool-cases,
}
use wrpc.Leb128.{Leb128}
use wrpc.Conn.Outgoing.{Channel, Outgoing, write_bytes}
use wrpc.Conn.Outgoing.Chunks.{flatten, Writes, send-cases, write_bytes-Writes}
use wrpc.Conn.Outgoing.Stream.{
  State, running, finished, after_end, put_chunk, next_item, send_pending, Step, takes, sends,
  Steps, stay, step,
}

flatten-append : (xs ys : List Bytes) → flatten (xs ++ ys) ≡ flatten xs ++ flatten ys
flatten-append [] ys = refl
flatten-append (x ∷ xs) ys =
    ap (◌++◌ x) (flatten-append xs ys) ∙ sym (append_assoc x (flatten xs) (flatten ys))

map-append : {A C : Type 0} (f : A → C) (xs ys : List A) → map f (xs ++ ys) ≡ map f xs ++ map f ys
map-append f [] ys = refl
map-append f (x ∷ xs) ys = ap (λ l. f x ∷ l) (map-append f xs ys)

-- A list of bytes as a stream: every chunk that is not empty with its length, and at the end an
-- empty chunk.
unfoldable pub framed : Leb128 → List Bytes → Bytes
framed leb [] = 0 ∷ []
framed leb ([] ∷ items) = framed leb items
framed leb ((b ∷ bs) ∷ items) = (leb.encode (length (b ∷ bs)) ++ (b ∷ bs)) ++ framed leb items

module _ (leb : Leb128) (o : Outgoing) where
  -- The messages `xs` were sent on the path of the handle since the channel was `c0`.
  abbrev pub SentSince : Channel → Channel → List Bytes → Type 0
  SentSince c0 c xs = c.sent ≡ c0.sent ++ map (λ x. (o.path_buf, x)) xs

  -- In the loop, what was sent, what is in the buffer and what is to come are the stream; when it
  -- returns, all was sent, or an error is returned and the front of it was sent.
  abbrev pub Holds : Channel → List Bytes → State → Type 0
  Holds c0 all (running items buf c) =
      (xs : List Bytes) × SentSince c0 c xs
      × (flatten xs ++ (buf ++ framed leb items) ≡ framed leb all)
  Holds c0 all (finished (ok u) c) =
      (xs : List Bytes) × SentSince c0 c xs × (flatten xs ≡ framed leb all)
  Holds c0 all (finished (err e) c) =
      (xs : List Bytes) × (rest : Bytes) × SentSince c0 c xs × (flatten xs ++ rest ≡ framed leb all)

  SentSince-append :
      (c0 c c' : Channel) (xs ys : List Bytes)
      → SentSince c0 c xs
      → SentSince c c' ys
      → SentSince c0 c' (xs ++ ys)
  SentSince-append c0 c c' xs ys h k =
      k
      ∙ ap (λ l. l ++ map (λ x. (o.path_buf, x)) ys) h
      ∙ append_assoc c0.sent (map (λ x. (o.path_buf, x)) xs) (map (λ x. (o.path_buf, x)) ys)
      ∙ ap (◌++◌ c0.sent) (sym (map-append (λ x. (o.path_buf, x)) xs ys))

  pub sending-Holds :
      (c0 c : Channel) (all items : List Bytes) (buf : Bytes)
      → Holds c0 all (running items buf c)
      → Holds c0 all (send_pending leb o items buf c)
  unfolding send_pending
  sending-Holds c0 c all items buf (xs, h, e) = elim (send-cases c (o.path_buf, buf)) [
    | inl (z, f) ↦ rw (f) (xs, buf ++ framed leb items, h, e)
    | inr (c1, f, s, r, k) ↦
        let whole : flatten (xs ++ buf ∷ []) ++ ([] ++ framed leb items) ≡ framed leb all =
          ap (λ l. l ++ framed leb items)
            (flatten-append xs (buf ∷ []) ∙ ap (◌++◌ (flatten xs)) (append-nil buf))
          ∙ append_assoc (flatten xs) buf (framed leb items)
          ∙ e in
        rw (f) (xs ++ buf ∷ [], SentSince-append c0 c c1 xs (buf ∷ []) h s, whole)
  ]

  pub ending-Holds :
      (c0 c : Channel) (all : List Bytes) (buf : Bytes)
      → Holds c0 all (running [] buf c)
      → Holds c0 all (next_item leb o [] buf c)
  unfolding next_item framed
  ending-Holds c0 c all buf (xs, h, e) =
      ending (write_bytes o c (buf ++ 0 ∷ [])) (write_bytes-Writes o c (buf ++ 0 ∷ []))
    where
      ending :
          (out : Result (Unit {0}) × Channel)
          → Writes o c (buf ++ 0 ∷ []) out
          → Holds c0 all (after_end out)
      ending (ok u, c') (ys, rest, s, inl (r, none)) = (
        xs ++ ys,
        SentSince-append c0 c c' xs ys h s.messages,
        flatten-append xs ys
            ∙ ap (◌++◌ (flatten xs))
                (sym (append-nil (flatten ys)) ∙ ap (◌++◌ (flatten ys)) (sym none) ∙ s.whole)
            ∙ e,
      )
      ending (ok u, c') (ys, rest, s, inr (r, z, l)) = cc
      ending (err k, c') (ys, rest, s, inl (r, none)) = cc
      ending (err k, c') (ys, rest, s, inr (r, z, l)) = (
        xs ++ ys,
        rest,
        SentSince-append c0 c c' xs ys h s.messages,
        ap (λ q. q ++ rest) (flatten-append xs ys)
            ∙ append_assoc (flatten xs) (flatten ys) rest
            ∙ ap (◌++◌ (flatten xs)) s.whole
            ∙ e,
      )

  pub taking-Holds :
      (c0 c : Channel) (all items : List Bytes) (buf chunk : Bytes)
      → Holds c0 all (running (chunk ∷ items) buf c)
      → Holds c0 all (next_item leb o (chunk ∷ items) buf c)
  unfolding next_item put_chunk framed
  taking-Holds c0 c all items buf [] (xs, h, e) = (xs, h, e)
  taking-Holds c0 c all items buf (b ∷ bs) (xs, h, e) =
      elim (Bool-cases (ltb (length (b ∷ bs)) u32_mod)) [
        | inl small ↦
            let n = length (b ∷ bs) in
            rw (small) (
              xs,
              h,
              ap (◌++◌ (flatten xs))
                    (append_assoc buf (leb.encode n ++ (b ∷ bs)) (framed leb items))
                  ∙ e,
            )
        | inr large ↦ rw (large) (xs, buf ++ framed leb ((b ∷ bs) ∷ items), h, e)
      ]

  Step-Holds :
      (c0 : Channel) (all : List Bytes) (s t : State)
      → Step leb o s t
      → Holds c0 all s
      → Holds c0 all t
  Step-Holds c0 all s t (takes [] buf c g) h = ending-Holds c0 c all buf h
  Step-Holds c0 all s t (takes (chunk ∷ items) buf c g) h = taking-Holds c0 c all items buf chunk h
  Step-Holds c0 all s t (sends items buf c g) h = sending-Holds c0 c all items buf h

  Steps-keep :
      (c0 : Channel) (all : List Bytes) (s t : State)
      → Steps leb o s t
      → Holds c0 all s
      → Holds c0 all t
  Steps-keep c0 all s t (stay r) h = h
  Steps-keep c0 all s t (step p q r k ks) h = Steps-keep c0 all q r ks (Step-Holds c0 all p q k h)

  -- In whatever order the branches of the loop are taken: what the messages sent on the path of
  -- the handle carry, with what is in the buffer and what is to come, is the stream of the items;
  -- when the loop returns without an error, all of it was sent, its end included, and with an
  -- error the front of it.
  pub Steps-Holds :
      (c : Channel) (items : List Bytes) (s : State)
      → Steps leb o (running items [] c) s
      → Holds c items s
  Steps-Holds c items s steps =
      Steps-keep c items (running items [] c) s steps ([], sym (append-nil c.sent), refl)
