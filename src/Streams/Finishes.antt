-- ===== src/Streams/Finishes.antt =====
-- The task of `StreamDecoderBytes` of crates/transport/src/value.rs ends, fails_reading, where the data of a
-- stream is there.
use wrpc.Prelude.{
  ℕ, zero, suc, ◌+◌, ◌-◌, ◌<◌, ◌≤◌, ◌≡◌, refl, ap, sym, subst, ◌∙◌, true, inl, inr, List, [], ◌∷◌,
  ◌++◌, append-nil, none, some, Bytes, ErrorKind, Result, ok, err, arith, length, length-append,
}
use wrpc.Lists.{Decoded}
use wrpc.Lists.Resume.{IsResumable}
use wrpc.Streams.{
  BufferedIncoming, Framed, State, receiving, finished, at_end, empty_or, ensure_processed,
  on_chunk, send_chunk, on_eof, Step, takes, fails, reads_buffer, reads_inner, ends, fails_reading,
  Steps, stay, step, start,
}
use wrpc.Streams.Receives.{Yields, ahead, Holds, Step-Holds, first_chunk, eof-Holds, whole}

module _ {S : Type 0} (decode : S → Bytes → Decoded S Bytes) (resumable : IsResumable decode)
    (all : List Bytes) where
  -- How many rounds are left at most: one for each byte that was not read, and for each chunk.
  abbrev pub rounds : State S → ℕ
  rounds (receiving f sent) =
      suc ((length f.incoming.buffer + length f.incoming.inner) + (length all - length sent))
  rounds (finished r told sent) = 0

  sent-le :
      (f : Framed S) (sent : List Bytes)
      → Holds decode all [] (receiving f sent)
      → length sent ≤ length all
  sent-le f sent (items, w, y) =
      let l : length (sent ++ items) ≡ length all = ap length w in
      omega (arith, length-append sent items)

  rounds-send_chunk :
      (alive : _) (f : Framed S) (sent : List Bytes) (chunk : Bytes)
      → Holds decode all [] (send_chunk alive f sent chunk)
      → rounds (send_chunk alive f sent chunk) < rounds (receiving f sent)
  rounds-send_chunk true f sent chunk h =
      omega (arith, length-append sent (chunk ∷ []), sent-le f (sent ++ chunk ∷ []) h)
  rounds-send_chunk _ f sent chunk h = omega arith

  rounds-at_end :
      (f : Framed S) (sent : List Bytes) (r : Result (Unit {0}))
      → rounds (at_end {S = S} sent r) < rounds (receiving f sent)
  rounds-at_end f sent (ok u) = omega arith
  rounds-at_end f sent (err e) = omega arith

  rounds-on_eof :
      (f : Framed S) (sent : List Bytes) (e : ErrorKind) (rest : Bytes)
      → rounds (on_eof {S = S} e sent rest) < rounds (receiving f sent)
  rounds-on_eof f sent e [] = omega arith
  rounds-on_eof f sent e (b ∷ bs) = omega arith

  rounds-Step :
      (p q : State S)
      → Step decode p q
      → Holds decode all [] p
      → Holds decode all [] q
      → rounds q < rounds p
  unfolding on_chunk
  rounds-Step p q (takes f sent alive s rest [] e) h k =
      rounds-at_end f sent (ensure_processed (record f { dec = s; read_buffer = rest }))
  rounds-Step p q (takes f sent alive s rest (b ∷ bs) e) h k =
      rounds-send_chunk alive (record f { dec = s; read_buffer = rest }) sent (b ∷ bs) k
  rounds-Step p q (fails f sent s rest e x) h k = omega arith
  rounds-Step p q (reads_buffer f sent s rest later b bs e x) h k =
      let l : length f.incoming.buffer ≡ length ((b ∷ bs) ++ later) = ap length x in
      omega (arith, length-append (b ∷ bs) later)
  rounds-Step p q (reads_inner f sent s rest later b bs e x y) h k =
      let l : length f.incoming.inner ≡ length ((b ∷ bs) ++ later) = ap length y in
      omega (arith, length-append (b ∷ bs) later)
  rounds-Step p q (ends f sent s rest e d x y n) h k = rounds-on_eof f sent e rest
  rounds-Step p q (fails_reading f sent s rest e d x y n) h k = omega arith

  abbrev pub num_steps : (p q : State S) → Steps decode p q → ℕ
  num_steps p q (stay s) = 0
  num_steps p q (step x y z k ks) = suc (num_steps y z ks)

  num_steps-le :
      (p q : State S) (steps : Steps decode p q)
      → Holds decode all [] p
      → num_steps p q steps + rounds q ≤ rounds p
  num_steps-le p q (stay s) h = omega arith
  num_steps-le p q (step x y z k ks) h =
      let h' = Step-Holds decode resumable all [] x y k h in
      omega (arith, num_steps-le y z ks h', rounds-Step x y k h h')

  -- In the loop, or ended without an error.
  abbrev IsFine : State S → Type 0
  IsFine (receiving f sent) = Unit {0}
  IsFine (finished r told sent) = r ≡ ok tt

  at_end-IsFine :
      (sent : List Bytes) (x y : Bytes)
      → Holds decode all [] (at_end sent (empty_or x (empty_or y (ok tt))))
      → IsFine (at_end sent (empty_or x (empty_or y (ok tt))))
  at_end-IsFine sent [] [] h = refl
  at_end-IsFine sent [] (b ∷ bs) (items, w, t, inl e) = cc
  at_end-IsFine sent [] (b ∷ bs) (items, w, t, inr (e, (c, cs, n))) = cc
  at_end-IsFine sent (b ∷ bs) y (items, w, t, inl e) = cc
  at_end-IsFine sent (b ∷ bs) y (items, w, t, inr (e, (c, cs, n))) = cc

  -- While the stream is not dropped, the task goes on.
  enabled :
      (f : Framed S) (sent : List Bytes)
      → Holds decode all [] (receiving f sent)
      → (q : State S) × Step decode (receiving f sent) q × IsFine q
  unfolding on_chunk ensure_processed
  enabled f sent h = by_answer (decode f.dec f.read_buffer) refl
    where
      more :
          (s : S) (rest buffer inner : Bytes)
          → decode f.dec f.read_buffer ≡ (ok none, (s, rest))
          → f.incoming.buffer ≡ buffer
          → f.incoming.inner ≡ inner
          → (q : State S) × Step decode (receiving f sent) q × IsFine q
      more s rest (b ∷ bs) inner e x y =
          (_, reads_buffer f sent s rest [] b bs e (x ∙ sym (append-nil (b ∷ bs))), tt)
      more s rest [] (b ∷ bs) e x y =
          (_, reads_inner f sent s rest [] b bs e x (y ∙ sym (append-nil (b ∷ bs))), tt)
      more s rest [] [] e x y = absurd (eof-Holds decode resumable all [] f sent s rest e x y h)

      by_answer :
          (out : Decoded S Bytes)
          → decode f.dec f.read_buffer ≡ out
          → (q : State S) × Step decode (receiving f sent) q × IsFine q
      by_answer (ok (some []), (s, rest)) e =
          let k = takes f sent true s rest [] e in
          (
            _,
            k,
            at_end-IsFine sent rest f.incoming.buffer
                (Step-Holds decode resumable all [] (receiving f sent) _ k h),
          )
      by_answer (ok (some (b ∷ bs)), (s, rest)) e = (_, takes f sent true s rest (b ∷ bs) e, tt)
      by_answer (ok none, (s, rest)) e = more s rest f.incoming.buffer f.incoming.inner e refl refl
      by_answer (err x, (s, rest)) e =
          let (items, w, y) = h in
          let (c, t, later, g) =
            first_chunk decode resumable all [] f.dec (ahead decode f) items y in
          cc (sym g ∙ whole decode resumable all [] f s rest (err x) e)

  completes :
      (n : ℕ) (p : State S)
      → rounds p ≤ n
      → Holds decode all [] p
      → IsFine p
      → Steps decode p (finished (ok tt) true all)
  completes n (finished (ok u) told sent) l (w, t) fine =
      subst (λ b. Steps decode (finished (ok u) told sent) (finished (ok tt) b all)) t
        (subst (λ q. Steps decode (finished (ok u) told sent) (finished (ok u) told q)) w
          (stay (finished (ok u) told sent)))
  completes n (finished (err e) told sent) l h fine = cc
  completes zero (receiving f sent) l h fine = absurd (omega arith)
  completes (suc n) (receiving f sent) l h fine =
      let (q, k, good) = enabled f sent h in
      let h' = Step-Holds decode resumable all [] (receiving f sent) q k h in
      step (receiving f sent) q (finished (ok tt) true all) k
        (completes n q (omega (arith, rounds-Step (receiving f sent) q k h h')) h' good)

  -- If the decoder may be given its bytes in pieces, and gives the chunks `all` of the data, and
  -- then an empty one with nothing behind it: the task can go on until it has sent all of them and
  -- told the stream that it is complete. However it goes on, it takes at most a round for each
  -- byte and for each chunk, and one more.
  pub receives_all :
      (dec : S) (r : BufferedIncoming)
      → Yields decode dec (r.buffer ++ r.inner) all []
      → Steps decode (start dec r) (finished (ok tt) true all)
        × ((q : State S) (steps : Steps decode (start dec r) q)
            → num_steps (start dec r) q steps
              ≤ suc ((length r.buffer + length r.inner) + length all))
  receives_all dec r y = (
    completes (rounds (start dec r)) (start dec r) (omega arith) (all, refl, y) tt,
    λ q steps. omega (arith, num_steps-le (start dec r) q steps (all, refl, y)),
  )
