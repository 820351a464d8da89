-- ===== src/Conn/Outgoing/Stream/Finishes.antt =====
-- The loop of `write_stream_bytes` of crates/transport/src/value.rs ends.
use wrpc.Prelude.{
  ℕ, zero, suc, ◌+◌, ◌*◌, ◌<◌, ◌≤◌, List, [], ◌∷◌, arith, Bytes, Result, ok, err, length, ltb,
  Bool-cases, inl, inr,
}
use wrpc.Leb128.{Leb128}
use wrpc.Conn.Outgoing.{Channel, Outgoing, send}
use wrpc.Conn.Outgoing.Stream.{
  State, running, finished, after_chunk, after_send, put_chunk, next_item, send_pending, Step,
  takes, sends, Steps, stay, step, max_pending,
}

-- One for data in the buffer.
abbrev pending : Bytes → ℕ
pending [] = 0
pending (b ∷ bs) = 1

-- How many rounds are left at most.
abbrev pub rounds : State → ℕ
rounds (running items buf c) = suc (2 * length items + pending buf)
rounds (finished r c) = 0

pending_le : (buf : Bytes) → pending buf ≤ 1
pending_le [] = omega arith
pending_le (b ∷ bs) = omega arith

rounds-after_chunk :
    (items : List Bytes) (c : Channel) (r : Result Bytes)
    → rounds (after_chunk items c r) ≤ suc (2 * length items + 1)
rounds-after_chunk items c (err e) = omega arith
rounds-after_chunk items c (ok buf) = omega (arith, pending_le buf)

rounds-after_send :
    (items : List Bytes) (out : Result (Unit {0}) × Channel)
    → rounds (after_send items out) ≤ suc (2 * length items)
rounds-after_send items (err e, c) = omega arith
rounds-after_send items (ok u, c) = omega arith

module _ (leb : Leb128) (o : Outgoing) where
  rounds-Step : (s t : State) → Step leb o s t → rounds t < rounds s
  unfolding next_item send_pending
  rounds-Step s t (takes [] buf c g) = omega arith
  rounds-Step s t (takes (chunk ∷ items) buf c g) =
      omega (arith, rounds-after_chunk items c (put_chunk leb o buf chunk))
  rounds-Step s t (sends items [] c g) = absurd (omega arith)
  rounds-Step s t (sends items (b ∷ bs) c g) =
      omega (arith, rounds-after_send items (send c (o.path_buf, b ∷ bs)))

  abbrev pub num_steps : (s t : State) → Steps leb o s t → ℕ
  num_steps s t (stay r) = 0
  num_steps s t (step p q r k ks) = suc (num_steps q r ks)

  -- However the branches are taken, each round brings the end nearer: there are at most two rounds
  -- for each item, and one more, with one for what is in the buffer at first.
  pub num_steps_bounded :
      (s t : State) (steps : Steps leb o s t) → num_steps s t steps + rounds t ≤ rounds s
  num_steps_bounded s t (stay r) = omega arith
  num_steps_bounded s t (step p q r k ks) =
      omega (arith, num_steps_bounded q r ks, rounds-Step p q k)

  -- While the loop runs, one of its branches is enabled.
  enabled :
      (items : List Bytes) (buf : Bytes) (c : Channel)
      → (t : State) × Step leb o (running items buf c) t
  enabled items buf c = elim (Bool-cases (ltb (length buf) max_pending)) [
    | inl small ↦ (next_item leb o items buf c, takes items buf c small)
    | inr large ↦ (send_pending leb o items buf c, sends items buf c (ground arith))
  ]

  finishes_within :
      (n : ℕ) (s : State)
      → rounds s ≤ n
      → (r : Result (Unit {0})) × (c : Channel) × Steps leb o s (finished r c)
  finishes_within n (finished r c) h = (r, c, stay (finished r c))
  finishes_within zero (running items buf c) h = absurd (omega arith)
  finishes_within (suc n) (running items buf c) h =
      let (t, k) = enabled items buf c in
      let (r, c', ks) =
        finishes_within n t (omega (arith, rounds-Step (running items buf c) t k)) in
      (r, c', step (running items buf c) t (finished r c') k ks)

  -- From wherever the loop is, it can go on until it returns: as long as it runs, one of its
  -- branches is enabled.
  pub finishes :
      (s : State) → (r : Result (Unit {0})) × (c : Channel) × Steps leb o s (finished r c)
  finishes s = finishes_within (rounds s) s (omega arith)

  -- However the branches of the loop are taken, each round brings its end nearer: there are at most
  -- two rounds for each item, and one more, with one for what is in the buffer at first. From
  -- wherever it is then, it can go on until it returns.
  pub always_ends :
      (s t : State) (steps : Steps leb o s t)
      → (num_steps s t steps + rounds t ≤ rounds s)
        × ((r : Result (Unit {0})) × (c : Channel) × Steps leb o t (finished r c))
  always_ends s t steps = (num_steps_bounded s t steps, finishes t)
