-- ===== src/Conn/Ingress/Data.antt =====
-- How the data of a frame is passed on by `ingress` of crates/transport/src/frame/conn/mod.rs.
use wrpc.Prelude.{
  ℕ, zero, suc, ◌-◌, ◌≤◌, ◌<◌, ◌≡◌, refl, ap, ◌∙◌, ◌⊎◌, inl, inr, List, [], ◌∷◌, ◌++◌, append_assoc,
  arith, Bytes, Result, ok, err, broken_pipe, unexpected_eof, ltb, length, take, drop, min, All,
  length-take, length-drop, length-append, take-append-drop, Bool-cases, true,
}
use wrpc.Conn.Outgoing.Chunks.{flatten}
use wrpc.Conn.Ingress.{send_data, ingress_data}

-- The chunks `xs` were sent of the `n` bytes of data in front of `rx`, with room for `room`.
-- Either all the data was sent and the stream behind it is left, or the stream ended inside the
-- data, or the receiver was closed and the room used up.
abbrev pub Ends : ℕ → ℕ → Bytes → List Bytes → Result Bytes → Type 0
Ends room n rx xs r =
    ((rest : Bytes) × (r ≡ ok rest) × (flatten xs ++ rest ≡ rx) × (length (flatten xs) ≡ n))
    ⊎ ((r ≡ err unexpected_eof) × (length rx < n))
    ⊎ ((r ≡ err broken_pipe) × (length xs ≡ room) × (length (flatten xs) < n))

-- The chunks are not empty and at most `cap` long, and make up a beginning of the stream.
pub record Sends (cap room n : ℕ) (rx : Bytes) (xs : List Bytes) (r : Result Bytes) : Type 0 where
  pub chunks : All (λ x. (0 < length x) × (length x ≤ cap)) xs
  pub front : (rest : Bytes) × (flatten xs ++ rest ≡ rx)
  pub fits : length xs ≤ room
  pub ends : Ends room n rx xs r

Ends-cons :
    (room n k : ℕ) (rx : Bytes) (xs : List Bytes) (r : Result Bytes)
    → k ≤ length rx
    → k ≤ n
    → Ends room (n - k) (drop k rx) xs r
    → Ends (suc room) n rx (take k rx ∷ xs) r
Ends-cons room n k rx xs r l b (inl (rest, e, w, z)) = inl (
  rest,
  e,
  append_assoc (take k rx) (flatten xs) rest ∙ ap (◌++◌ (take k rx)) w ∙ take-append-drop k rx,
  omega (arith, length-append (take k rx) (flatten xs), length-take k rx l),
)
Ends-cons room n k rx xs r l b (inr (inl (e, s))) = inr (inl (e, omega (arith, length-drop k rx)))
Ends-cons room n k rx xs r l b (inr (inr (e, z, s))) =
    inr
      (inr (e, ap suc z, omega (arith, length-append (take k rx) (flatten xs), length-take k rx l)))

Sends-cons :
    (cap room n k : ℕ) (rx : Bytes) (xs : List Bytes) (r : Result Bytes)
    → 0 < k
    → k ≤ cap
    → k ≤ length rx
    → k ≤ n
    → Sends cap room (n - k) (drop k rx) xs r
    → Sends cap (suc room) n rx (take k rx ∷ xs) r
Sends-cons cap room n k rx xs r p c l b s = record {
  chunks = ((omega (arith, length-take k rx l), omega (arith, length-take k rx l)), s.chunks);
  front = (
    s.front.0,
    append_assoc (take k rx) (flatten xs) s.front.0
        ∙ ap (◌++◌ (take k rx)) s.front.1
        ∙ take-append-drop k rx,
  );
  fits = omega (arith, s.fits);
  ends = Ends-cons room n k rx xs r l b s.ends;
}

module _ (cap : ℕ) (positive : 0 < cap) where
  send_data-Sends :
      (fuel room n : ℕ) (rx : Bytes)
      → n ≤ fuel
      → Sends cap room n rx (send_data cap fuel room n rx).0 (send_data cap fuel room n rx).1
  send_data-Sends fuel room zero rx h =
      unfold send_data in
      record {
        chunks = tt;
        front = (rx, refl);
        fits = omega arith;
        ends = inl (rx, refl, refl, refl);
      }
  send_data-Sends zero room (suc m) rx h = absurd (omega (arith, h))
  send_data-Sends (suc fuel) zero (suc m) rx h =
      unfold send_data in
      elim (Bool-cases (ltb (length rx) (min (suc m) cap))) [
        | inl e ↦ rw e (record {
          chunks = tt;
          front = (rx, refl);
          fits = omega arith;
          ends = inr (inl (refl, ground arith));
        })
        | inr e ↦ rw e (record {
          chunks = tt;
          front = (rx, refl);
          fits = omega arith;
          ends = inr (inr (refl, refl, omega arith));
        })
      ]
  send_data-Sends (suc fuel) (suc room) (suc m) rx h = round (
      send_data-Sends fuel room (suc m - min (suc m) cap) (drop (min (suc m) cap) rx) (omega arith))
    where
      round :
          Sends cap room
            (suc m - min (suc m) cap)
            (drop (min (suc m) cap) rx)
            (send_data cap fuel room (suc m - min (suc m) cap) (drop (min (suc m) cap) rx)).0
            (send_data cap fuel room (suc m - min (suc m) cap) (drop (min (suc m) cap) rx)).1
          → Sends cap
              (suc room)
              (suc m)
              rx
              (send_data cap (suc fuel) (suc room) (suc m) rx).0
              (send_data cap (suc fuel) (suc room) (suc m) rx).1
      round s =
          unfold send_data in
          elim (Bool-cases (ltb (length rx) (min (suc m) cap))) [
            | inl e ↦ rw e (ended e)
            | inr e ↦ rw e (
                Sends-cons cap room (suc m) (min (suc m) cap) rx _ _ (omega arith) (omega arith)
                  (ground arith) (omega arith) s)
          ]
        where
          ended :
              ltb (length rx) (min (suc m) cap) ≡ true
              → Sends cap (suc room) (suc m) rx [] (err unexpected_eof)
          ended e = record {
            chunks = tt;
            front = (rx, refl);
            fits = omega arith;
            ends = inr (inl (refl, ground arith));
          }

  -- For a positive bound on chunks, the `n` bytes of a frame's data are sent in order as chunks
  -- that are not empty and within the bound. All of them are sent and the stream behind them is
  -- left; or the stream ends before `n` bytes and ingress fails with `UnexpectedEof`; or the
  -- receiver is closed before that, and ingress fails with `BrokenPipe`.
  pub ingress_data-Sends :
      (room n : ℕ) (rx : Bytes)
      → Sends cap room n rx (ingress_data cap room n rx).0 (ingress_data cap room n rx).1
  unfolding ingress_data
  ingress_data-Sends room n rx = send_data-Sends n room n rx (omega arith)
