-- ===== src/Conn/Outgoing/Chunks.antt =====
-- What `write_bytes` of conn/mod.rs sends.
use wrpc.Prelude.{
  ℕ, zero, suc, ◌+◌, ◌≤◌, ◌<◌, ◌≡◌, refl, ap, sym, ◌∙◌, ◌⊎◌, inl, inr, List, [], ◌∷◌, ◌++◌, map,
  append_assoc, append-nil, arith, Bytes, Result, ok, err, length, take, drop, min, All,
  length-take, length-drop, take-append-drop,
}
use wrpc.Conn.Outgoing.{
  Channel, Outgoing, max_frame_data, send, and_then, write_chunks, write_bytes,
}

abbrev pub flatten : List Bytes → Bytes
flatten [] = []
flatten (x ∷ xs) = x ++ flatten xs

-- Data that one frame can carry, and that does not close the stream.
abbrev pub IsChunk : Bytes → Type 0
IsChunk x = (0 < length x) × (length x ≤ max_frame_data)

-- The chunks `xs` were sent on the path of `o`, and `rest` was not.
pub record Sent (o : Outgoing) (c c' : Channel) (xs : List Bytes) (rest buf : Bytes) : Type 0 where
  pub messages : c'.sent ≡ c.sent ++ map (λ x. (o.path_buf, x)) xs
  pub chunks : All IsChunk xs
  pub whole : flatten xs ++ rest ≡ buf
  pub room : length xs + c'.room ≡ c.room

-- All was sent, or the channel was closed on the way and its error is returned.
abbrev pub Ends : Channel → Bytes → Result (Unit {0}) × Channel → Type 0
Ends c rest (r, c') =
    ((r ≡ ok tt) × (rest ≡ [])) ⊎ ((r ≡ err c.error) × (c'.room ≡ 0) × (0 < length rest))

abbrev pub Writes : Outgoing → Channel → Bytes → Result (Unit {0}) × Channel → Type 0
Writes o c buf (r, c') =
    (xs : List Bytes) × (rest : Bytes) × Sent o c c' xs rest buf × Ends c rest (r, c')

Sent-cons :
    (o : Outgoing) (c c1 c' : Channel) (x : Bytes) (xs : List Bytes) (rest buf : Bytes)
    → c1.sent ≡ c.sent ++ (o.path_buf, x) ∷ []
    → suc c1.room ≡ c.room
    → IsChunk x
    → Sent o c1 c' xs rest buf
    → Sent o c c' (x ∷ xs) rest (x ++ buf)
Sent-cons o c c1 c' x xs rest buf e r h s = record {
  messages =
      s.messages
      ∙ rw e (append_assoc c.sent ((o.path_buf, x) ∷ []) (map (λ x. (o.path_buf, x)) xs));
  chunks = (h, s.chunks);
  whole = append_assoc x (flatten xs) rest ∙ ap (◌++◌ x) s.whole;
  room = omega (arith, s.room);
}

pub send-cases :
    (c : Channel) (m : Bytes × Bytes)
    → ((c.room ≡ 0) × (send c m ≡ (err c.error, c)))
      ⊎ ((c1 : Channel) × (send c m ≡ (ok tt, c1))
          × (c1.sent ≡ c.sent ++ m ∷ [])
          × (suc c1.room ≡ c.room)
          × (c1.error ≡ c.error))
unfolding send
send-cases c m = by_room c.room refl
  where
    by_room :
        (r : ℕ)
        → c.room ≡ r
        → ((c.room ≡ 0) × (send c m ≡ (err c.error, c)))
          ⊎ ((c1 : Channel) × (send c m ≡ (ok tt, c1))
              × (c1.sent ≡ c.sent ++ m ∷ [])
              × (suc c1.room ≡ c.room)
              × (c1.error ≡ c.error))
    by_room zero e = inl (e, ground arith)
    by_room (suc k) e =
        inr (record c { sent = c.sent ++ m ∷ []; room = k }, rw (e, send), refl, sym e, refl)

Ends-error :
    (c c1 : Channel) (rest : Bytes) (out : Result (Unit {0}) × Channel)
    → c1.error ≡ c.error
    → Ends c1 rest out
    → Ends c rest out
Ends-error c c1 rest out e (inl h) = inl h
Ends-error c c1 rest out e (inr (h, z, l)) = inr (rw e at h, z, l)

IsChunk-take : (b : ℕ) (bs : Bytes) → IsChunk (take (min (length (b ∷ bs)) max_frame_data) (b ∷ bs))
IsChunk-take b bs = omega (arith, length-take (min (length (b ∷ bs)) max_frame_data) (b ∷ bs))

write_chunks-Writes :
    (fuel : ℕ) (o : Outgoing) (c : Channel) (buf : Bytes)
    → length buf ≤ fuel
    → Writes o c buf (write_chunks fuel o c buf)
unfolding write_chunks
write_chunks-Writes fuel o c [] h = (
  [],
  [],
  record { messages = sym (append-nil c.sent); chunks = tt; whole = refl; room = omega arith },
  inl (refl, refl),
)
write_chunks-Writes zero o c (b ∷ bs) h = absurd (omega arith)
write_chunks-Writes (suc fuel) o c (b ∷ bs) h =
    let n = min (length (b ∷ bs)) max_frame_data in
    elim (send-cases c (o.path_buf, take n (b ∷ bs))) [
      | inl (z, e) ↦
          rw (e, and_then)
            (
              [],
              b ∷ bs,
              record {
                messages = sym (append-nil c.sent);
                chunks = tt;
                whole = refl;
                room = omega arith;
              },
              inr (refl, z, omega arith),
            )
      | inr (c1, e, es, er, ee) ↦
          let (xs, rest, s, d) =
            write_chunks-Writes fuel o c1 (drop n (b ∷ bs))
              (omega (arith, length-drop n (b ∷ bs))) in
          rw (e, and_then)
            (
              take n (b ∷ bs) ∷ xs,
              rest,
              rw (take-append-drop n (b ∷ bs)) at (
                  Sent-cons o c c1 (write_chunks fuel o c1 (drop n (b ∷ bs))).1 (take n (b ∷ bs)) xs
                    rest (drop n (b ∷ bs)) es er (IsChunk-take b bs) s),
              Ends-error c c1 rest (write_chunks fuel o c1 (drop n (b ∷ bs))) ee d,
            )
    ]

-- `write_bytes` cuts the buffer into chunks that are not empty and fit one frame, and sends them
-- in order on the path of the handle, each in one place of the channel. Either the chunks make up
-- the buffer and it succeeds, or the channel closed before its end, the chunks make up the
-- beginning of the buffer, and its error is returned.
pub write_bytes-Writes :
    (o : Outgoing) (c : Channel) (buf : Bytes) → Writes o c buf (write_bytes o c buf)
unfolding write_bytes
write_bytes-Writes o c buf = write_chunks-Writes (length buf) o c buf (omega arith)
