-- ===== src/Server/Waiting.antt =====
-- What waits in a channel of `Server` of crates/transport/src/frame/conn/server.rs, before and after
-- a call.
use wrpc.Prelude.{
  ℕ, zero, suc, ◌≡◌, ◌≢◌, refl, ap, ◌∙◌, Bool, true, false, ◌==◌, inl, inr, List, [], ◌∷◌, ◌++◌,
  append-nil, Option, none, some, Bytes, arith, drop, if◌then◌else◌, Bool-cases, Option-cases,
}
use wrpc.BTree.{BTreeMap, ℕ_ord}
use wrpc.Frame.Header.{HeaderRead, header, io, unsupported_version}
use wrpc.Server.{
  Connection, Mailbox, Server, Accepted, accepted, find_handler, mailbox, update_mailbox, post,
  send_to, dispatch, with_header, serve_in, next, head, first_of, later_of, drop_stream,
  close_mailbox,
}
use wrpc.Server.Calls.{Call, dropping}

module _ {C O : Type 0} where
  abbrev pub waiting_in : Option (Mailbox C O) → List (Connection C O)
  waiting_in none = []
  waiting_in (some m) = m.pending

  -- What waits in a channel.
  abbrev pub waiting : Server C O → ℕ → List (Connection C O)
  waiting srv c = waiting_in (mailbox srv.mailboxes c)

  abbrev pub is_accepted : Accepted C O → Bool
  is_accepted accepted = true
  is_accepted other = false

  -- The connection, if it is for the channel `c`.
  abbrev pub for_channel : Option ℕ → ℕ → Connection C O → List (Connection C O)
  for_channel none c x = []
  for_channel (some d) c x = if d == c then x ∷ [] else []

  -- If the header names a function whose handler is the channel `c`.
  abbrev pub named : Server C O → C → O → HeaderRead → ℕ → List (Connection C O)
  named srv cx tx (header h rest) c =
      for_channel (find_handler srv.handlers h.instance_name h.name) c (cx, rest, tx)
  named srv cx tx (io e) c = []
  named srv cx tx (unsupported_version v) c = []

  abbrev pub all_of : Option (Connection C O) → List (Connection C O)
  all_of none = []
  all_of (some x) = x ∷ []

  -- No call drops the stream of the channel.
  unfoldable pub IsKept : ℕ → List (Call C O) → Type 0
  IsKept c [] = Unit {0}
  IsKept c (dropping d ∷ ks) = (d ≢ c) × IsKept c ks
  IsKept c (k ∷ ks) = IsKept c ks

  abbrev pub changed : (Mailbox C O → Mailbox C O) → Option (Mailbox C O) → Option (Mailbox C O)
  changed f none = none
  changed f (some m) = some (f m)

  pub mailbox-update :
      (f : Mailbox C O → Mailbox C O) (d c : ℕ) (ms : List (Mailbox C O))
      → mailbox (update_mailbox f d ms) c
        ≡ (if d == c then changed f (mailbox ms c) else mailbox ms c)
  unfolding mailbox update_mailbox
  mailbox-update f d c [] = ground arith
  mailbox-update f zero zero (m ∷ ms) = ground arith
  mailbox-update f zero (suc c) (m ∷ ms) = ground arith
  mailbox-update f (suc d) zero (m ∷ ms) = ground arith
  mailbox-update f (suc d) (suc c) (m ∷ ms) = mailbox-update f d c ms ∙ ground arith

  abbrev new_mailbox : Mailbox C O
  new_mailbox = record { pending = []; closed = false }

  waiting_in-new :
      (ms : List (Mailbox C O)) (c : ℕ)
      → waiting_in (mailbox (ms ++ new_mailbox ∷ []) c) ≡ waiting_in (mailbox ms c)
  unfolding mailbox
  waiting_in-new [] zero = refl
  waiting_in-new [] (suc c) = refl
  waiting_in-new (m ∷ ms) zero = refl
  waiting_in-new (m ∷ ms) (suc c) = waiting_in-new ms c

  mailbox-before :
      (ms : List (Mailbox C O)) (c : ℕ) (m : Mailbox C O)
      → mailbox ms c ≡ some m
      → mailbox (ms ++ new_mailbox ∷ []) c ≡ some m
  unfolding mailbox
  mailbox-before [] c m e = cc
  mailbox-before (y ∷ ms) zero m e = e
  mailbox-before (y ∷ ms) (suc c) m e = mailbox-before ms c m e

  -- A connection that is sent to a channel.
  pub sends :
      (srv : Server C O) (d c : ℕ) (x : Connection C O)
      → waiting srv c
          ++ (if is_accepted (send_to srv d x (mailbox srv.mailboxes d)).0
              then for_channel (some d) c x
              else [])
        ≡ waiting (send_to srv d x (mailbox srv.mailboxes d)).1 c
  unfolding send_to
  sends srv d c x = elim (Option-cases (mailbox srv.mailboxes d)) [
    | inl e ↦ rw (e) (append-nil (waiting srv c))
    | inr (m, e) ↦ elim (Bool-cases m.closed) [
      | inl dropped ↦ rw (e, dropped) (append-nil (waiting srv c))
      | inr live ↦ elim (Bool-cases (d == c)) [
        | inl same ↦
            let there : mailbox srv.mailboxes c ≡ some m =
              ap (mailbox srv.mailboxes) (let q : c ≡ d = ground arith in q) ∙ e in
            rw (e, live, mailbox-update (post x) d c srv.mailboxes, same, there) refl
        | inr other ↦
            rw (e, live, mailbox-update (post x) d c srv.mailboxes, other)
              (append-nil (waiting srv c))
      ]
    ]
  ]

  pub by_header :
      (srv : Server C O) (cx : C) (tx : O) (r : HeaderRead) (c : ℕ)
      → waiting srv c
          ++ (if is_accepted (with_header srv cx tx r).0 then named srv cx tx r c else [])
        ≡ waiting (with_header srv cx tx r).1 c
  unfolding with_header dispatch
  by_header srv cx tx (io e) c = append-nil (waiting srv c)
  by_header srv cx tx (unsupported_version v) c = append-nil (waiting srv c)
  by_header srv cx tx (header h rest) c =
      elim (Option-cases (find_handler srv.handlers h.instance_name h.name)) [
        | inl e ↦ rw (e) (append-nil (waiting srv c))
        | inr (d, e) ↦ rw (e) (sends srv d c (cx, rest, tx))
      ]

  pub serve_in-waiting :
      (srv : Server C O) (i n : Bytes) (functions : BTreeMap ℕ ℕ) (o : Option ℕ) (c : ℕ)
      → waiting (serve_in srv i n functions o).1 c ≡ waiting srv c
  unfolding serve_in
  serve_in-waiting srv i n functions none c = waiting_in-new srv.mailboxes c
  serve_in-waiting srv i n functions (some d) c = refl

  front_and_rest : (xs : List (Connection C O)) → xs ≡ all_of (head xs) ++ drop 1 xs
  front_and_rest [] = refl
  front_and_rest (x ∷ xs) = refl

  pub next-waiting :
      (srv : Server C O) (d c : ℕ)
      → waiting srv c ≡ (if d == c then all_of (next srv c).0 else []) ++ waiting (next srv d).1 c
  unfolding next
  next-waiting srv d c = elim (Bool-cases (d == c)) [
    | inr other ↦ rw (mailbox-update later_of d c srv.mailboxes, other) refl
    | inl same ↦
        rw (mailbox-update later_of d c srv.mailboxes, same) (by_pending (mailbox srv.mailboxes c))
  ]
    where
      by_pending :
          (o : Option (Mailbox C O))
          → waiting_in o ≡ all_of (first_of o) ++ waiting_in (changed later_of o)
      by_pending none = refl
      by_pending (some m) = front_and_rest m.pending

  pub drop-waiting :
      (srv : Server C O) (d c : ℕ) → d ≢ c → waiting (drop_stream srv d) c ≡ waiting srv c
  unfolding drop_stream
  drop-waiting srv d c ne =
      let other : (d == c) ≡ false = ground arith in
      rw (mailbox-update close_mailbox d c srv.mailboxes, other) refl

  -- The stream of the channel is dropped.
  abbrev pub Dropped : ℕ → Server C O → Type 0
  Dropped c srv = mailbox srv.mailboxes c ≡ some (record { pending = []; closed = true })

  pub update-Dropped :
      (f : Mailbox C O → Mailbox C O) (srv : Server C O) (d c : ℕ)
      → f (record { pending = []; closed = true }) ≡ record { pending = []; closed = true }
      → Dropped c srv
      → mailbox (update_mailbox f d srv.mailboxes) c ≡ some (record { pending = []; closed = true })
  update-Dropped f srv d c same e = elim (Bool-cases (d == c)) [
    | inl here ↦ rw (mailbox-update f d c srv.mailboxes, here, e) (ap some same)
    | inr other ↦ rw (mailbox-update f d c srv.mailboxes, other) e
  ]

  send_to-Dropped :
      (srv : Server C O) (d c : ℕ) (x : Connection C O)
      → Dropped c srv
      → Dropped c (send_to srv d x (mailbox srv.mailboxes d)).1
  unfolding send_to
  send_to-Dropped srv d c x e = elim (Option-cases (mailbox srv.mailboxes d)) [
    | inl f ↦ rw (f) e
    | inr (m, f) ↦ elim (Bool-cases m.closed) [
      | inl dropped ↦ rw (f, dropped) e
      | inr live ↦
          rw (f, live)
            (elim (Bool-cases (d == c)) [
              | inl here ↦
                  let at : mailbox srv.mailboxes d ≡ mailbox srv.mailboxes c =
                    ap (mailbox srv.mailboxes) (let q : d ≡ c = ground arith in q) in
                  cc
              | inr other ↦ rw (mailbox-update (post x) d c srv.mailboxes, other) e
            ])
    ]
  ]

  pub with_header-Dropped :
      (srv : Server C O) (cx : C) (tx : O) (r : HeaderRead) (c : ℕ)
      → Dropped c srv
      → Dropped c (with_header srv cx tx r).1
  unfolding with_header dispatch
  with_header-Dropped srv cx tx (io k) c e = e
  with_header-Dropped srv cx tx (unsupported_version v) c e = e
  with_header-Dropped srv cx tx (header h rest) c e =
      elim (Option-cases (find_handler srv.handlers h.instance_name h.name)) [
        | inl f ↦ rw (f) e
        | inr (d, f) ↦ rw (f) (send_to-Dropped srv d c (cx, rest, tx) e)
      ]

  pub serve_in-Dropped :
      (srv : Server C O) (i n : Bytes) (functions : BTreeMap ℕ ℕ) (o : Option ℕ) (c : ℕ)
      → Dropped c srv
      → Dropped c (serve_in srv i n functions o).1
  unfolding serve_in
  serve_in-Dropped srv i n functions none c e =
      mailbox-before srv.mailboxes c (record { pending = []; closed = true }) e
  serve_in-Dropped srv i n functions (some d) c e = e
