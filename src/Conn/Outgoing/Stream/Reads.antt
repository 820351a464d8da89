-- ===== src/Conn/Outgoing/Stream/Reads.antt =====
-- `write_stream_read` of crates/transport/src/value.rs: the loop of `Stream`, with a reader in
-- place of a stream. The reader gives chunks, of which an empty one is its end, and fails or ends
-- behind the last. What `put_chunk` adds to the buffer is the same in both loops.
use wrpc.Prelude.{
  ℕ, ◌<◌, ◌≡◌, refl, ap, sym, ◌∙◌, true, List, [], ◌∷◌, ◌++◌, append_assoc, append-nil, Bytes,
  subst, Result, ok, err, length, ltb, try_u32, try_u32-eq_ok, inl, inr,
}
use wrpc.Leb128.{Leb128}
use wrpc.Conn.Outgoing.{Channel, Outgoing, write_bytes}
use wrpc.Conn.Outgoing.Chunks.{flatten, Writes, write_bytes-Writes, send-cases}
use wrpc.Conn.Outgoing.Stream.{
  State, running, finished, after_chunk, after_end, put_chunk, next_item, send_pending, max_pending,
}
use wrpc.Conn.Outgoing.Stream.Framing.{framed, Holds, sending-Holds, ending-Holds, taking-Holds}

-- After the last chunk: the reader ends, or fails.
abbrev pub after_reads : Result (Unit {0}) → State → Channel → State
after_reads (ok u) end c = end
after_reads (err e) end c = finished (err e) c

-- In front of the loop: the length of what is ready is written, if any.
abbrev pub after_header : List Bytes → Bytes → Result (Unit {0}) × Channel → State
after_header reads ready (err e, c) = finished (err e) c
after_header reads ready (ok u, c) = running reads ready c

module _ (leb : Leb128) (o : Outgoing) where
  abbrev pub write_header : List Bytes → Bytes → Channel → Result ℕ → State
  write_header reads ready c (err e) = finished (err e) c
  write_header reads ready c (ok n) = after_header reads ready (write_bytes o c (leb.encode n))

  unfoldable pub start : List Bytes → Bytes → Channel → State
  start reads [] c = running reads [] c
  start reads (b ∷ bs) c = write_header reads (b ∷ bs) c (try_u32 (length (b ∷ bs)))

  -- The branch of `items.read_buf(..)`, where the reader gives `ending` behind the chunks.
  unfoldable pub next_read : Result (Unit {0}) → List Bytes → Bytes → Channel → State
  next_read ending [] buf c = after_reads ending (after_end (write_bytes o c (buf ++ 0 ∷ []))) c
  next_read ending ([] ∷ reads) buf c = after_end (write_bytes o c (buf ++ 0 ∷ []))
  next_read ending ((b ∷ bs) ∷ reads) buf c = after_chunk reads c (put_chunk leb o buf (b ∷ bs))

  module _ (ending : Result (Unit {0})) where
    -- One round of the loop, with the guard of its branch.
    pub data ReadStep : State → State → Type 0 where
      takes :
          (reads : List Bytes) (buf : Bytes) (c : Channel)
          → ltb (length buf) max_pending ≡ true
          → ReadStep (running reads buf c) (next_read ending reads buf c)
      sends :
          (reads : List Bytes) (buf : Bytes) (c : Channel)
          → 0 < length buf
          → ReadStep (running reads buf c) (send_pending leb o reads buf c)

    pub data ReadSteps : State → State → Type 0 where
      stay : (s : State) → ReadSteps s s
      step : (s t u : State) → ReadStep s t → ReadSteps t u → ReadSteps s u

  -- What the reader gives before its end.
  abbrev pub before_end : List Bytes → List Bytes
  before_end [] = []
  before_end ([] ∷ reads) = []
  before_end ((b ∷ bs) ∷ reads) = (b ∷ bs) ∷ before_end reads

  abbrev cut : State → State
  cut (running reads buf c) = running (before_end reads) buf c
  cut (finished r c) = finished r c

  cut-after_chunk :
      (reads : List Bytes) (c : Channel) (r : Result Bytes)
      → cut (after_chunk reads c r) ≡ after_chunk (before_end reads) c r
  cut-after_chunk reads c (err e) = refl
  cut-after_chunk reads c (ok buf) = refl

  cut-send_pending :
      (reads : List Bytes) (buf : Bytes) (c : Channel)
      → cut (send_pending leb o reads buf c) ≡ send_pending leb o (before_end reads) buf c
  unfolding send_pending
  cut-send_pending reads buf c = elim (send-cases c (o.path_buf, buf)) [
    | inl (z, f) ↦ rw (f) refl
    | inr (c1, f, s, r, k) ↦ rw (f) refl
  ]

  cut-end : (out : Result (Unit {0}) × Channel) → cut (after_end out) ≡ after_end out
  cut-end (r, c) = refl

  ReadStep-Holds :
      (ending : Result (Unit {0})) (c0 : Channel) (all : List Bytes) (s t : State)
      → ReadStep ending s t
      → Holds leb o c0 all (cut s)
      → Holds leb o c0 all (cut t)
  unfolding next_read next_item
  ReadStep-Holds (ok u) c0 all s t (takes [] buf c g) h = ending-Holds leb o c0 c all buf h
  ReadStep-Holds (err e) c0 all s t (takes [] buf c g) (xs, h, w) = (xs, buf ++ framed leb [], h, w)
  ReadStep-Holds ending c0 all s t (takes ([] ∷ reads) buf c g) h =
      ending-Holds leb o c0 c all buf h
  ReadStep-Holds ending c0 all s t (takes ((b ∷ bs) ∷ reads) buf c g) h =
      subst (Holds leb o c0 all) (sym (cut-after_chunk reads c (put_chunk leb o buf (b ∷ bs))))
        (taking-Holds leb o c0 c all (before_end reads) buf (b ∷ bs) h)
  ReadStep-Holds ending c0 all s t (sends reads buf c g) h =
      subst (Holds leb o c0 all) (sym (cut-send_pending reads buf c))
        (sending-Holds leb o c0 c all (before_end reads) buf h)

  ReadSteps-keep :
      (ending : Result (Unit {0})) (c0 : Channel) (all : List Bytes) (s t : State)
      → ReadSteps ending s t
      → Holds leb o c0 all (cut s)
      → Holds leb o c0 all (cut t)
  ReadSteps-keep ending c0 all s t (stay r) h = h
  ReadSteps-keep ending c0 all s t (step p q r k ks) h =
      ReadSteps-keep ending c0 all q r ks (ReadStep-Holds ending c0 all p q k h)

  start-Holds :
      (reads : List Bytes) (ready : Bytes) (c : Channel)
      → Holds leb o c (ready ∷ before_end reads) (cut (start reads ready c))
  unfolding start framed
  start-Holds reads [] c = ([], sym (append-nil c.sent), refl)
  start-Holds reads (b ∷ bs) c = of_length (try_u32 (length (b ∷ bs))) refl
    where
      later : Bytes
      later = (b ∷ bs) ++ framed leb (before_end reads)

      written :
          (out : Result (Unit {0}) × Channel)
          → Writes o c (leb.encode (length (b ∷ bs))) out
          → Holds leb o c ((b ∷ bs) ∷ before_end reads) (cut (after_header reads (b ∷ bs) out))
      written (ok u, c') (ys, rest, s, inl (r, none)) = (
        ys,
        s.messages,
        ap (λ q. q ++ later)
              (sym (append-nil (flatten ys)) ∙ ap (◌++◌ (flatten ys)) (sym none) ∙ s.whole)
            ∙ sym (
                append_assoc (leb.encode (length (b ∷ bs))) (b ∷ bs)
                  (framed leb (before_end reads))),
      )
      written (ok u, c') (ys, rest, s, inr (r, z, l)) = cc
      written (err k, c') (ys, rest, s, inl (r, none)) = cc
      written (err k, c') (ys, rest, s, inr (r, z, l)) = (
        ys,
        rest ++ later,
        s.messages,
        sym (append_assoc (flatten ys) rest later)
            ∙ ap (λ q. q ++ later) s.whole
            ∙ sym (
                append_assoc (leb.encode (length (b ∷ bs))) (b ∷ bs)
                  (framed leb (before_end reads))),
      )

      of_length :
          (n : Result ℕ)
          → try_u32 (length (b ∷ bs)) ≡ n
          → Holds leb o c ((b ∷ bs) ∷ before_end reads) (cut (write_header reads (b ∷ bs) c n))
      of_length (err e) h =
          ([], framed leb ((b ∷ bs) ∷ before_end reads), sym (append-nil c.sent), refl)
      of_length (ok n) h =
          let same : n ≡ length (b ∷ bs) = (try_u32-eq_ok (length (b ∷ bs)) h).0 in
          subst
            (λ q.
              Holds leb o c ((b ∷ bs) ∷ before_end reads)
                (cut (after_header reads (b ∷ bs) (write_bytes o c (leb.encode q)))))
            (sym same)
            (written (write_bytes o c (leb.encode (length (b ∷ bs))))
              (write_bytes-Writes o c (leb.encode (length (b ∷ bs)))))

  -- In whatever order the branches of the loop are taken: once `write_stream_read` returned
  -- without an error, the messages that it sent on the path of the handle carry the stream of
  -- what was ready and of the chunks of the reader up to its end; with an error, that of the
  -- reader included, they carry the front of it.
  pub ReadSteps-Holds :
      (ending : Result (Unit {0})) (c : Channel) (reads : List Bytes) (ready : Bytes)
      (r : Result (Unit {0})) (c' : Channel)
      → ReadSteps ending (start reads ready c) (finished r c')
      → Holds leb o c (ready ∷ before_end reads) (finished r c')
  ReadSteps-Holds ending c reads ready r c' steps =
      ReadSteps-keep ending c (ready ∷ before_end reads) (start reads ready c) (finished r c') steps
        (start-Holds reads ready c)
