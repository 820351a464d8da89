-- ===== src/Server/Deliveries.antt =====
-- What `accept` of crates/transport/src/frame/conn/server.rs hands to the stream of a function, and
-- what this stream gives, whatever is called.
use wrpc.Prelude.{
  ℕ, ◌≡◌, ◌≢◌, refl, ap, sym, ◌∙◌, Bool, ◌==◌, inl, inr, List, [], ◌∷◌, ◌++◌, append_assoc,
  append-nil, none, some, Bytes, arith, if◌then◌else◌, Bool-cases, Option-cases,
}
use wrpc.BTree.{ℕ_ord, get}
use wrpc.Leb128.{Leb128, ReadLeb128}
use wrpc.Reader.{Reader}
use wrpc.Frame.Header.{HeaderDecoder, read}
use wrpc.Server.{
  Connection, Server, find_handler, or_empty, mailbox, later_of, with_header_decoder, next,
  drop_stream, close_mailbox, accept, serve,
}
use wrpc.Server.Waiting.{
  waiting_in, waiting, is_accepted, named, all_of, IsKept, by_header, serve_in-waiting,
  next-waiting, drop-waiting, mailbox-update, update-Dropped, with_header-Dropped, serve_in-Dropped,
  Dropped,
}
use wrpc.Server.Calls.{Call, serving, accepting, receiving, dropping, call, run, run-keeps}
use wrpc.Server.Inv.{with_header_decoder-Inv}

module _ (C O : Type 0) (leb : Leb128) (utf8 : Bytes → Bool) (leb_reader : ReadLeb128 leb)
    (reader : Reader) where
  -- What a call hands to the channel: the connection of an `accept` that succeeds with a header
  -- that names a function whose handler the channel is.
  unfoldable pub delivered_by : Server C O → Call C O → ℕ → List (Connection C O)
  delivered_by srv (accepting cx tx rx) c =
      if is_accepted (accept leb utf8 leb_reader reader srv cx tx rx).0
      then named srv cx tx (read leb utf8 leb_reader reader srv.decoder rx) c
      else []
  delivered_by srv k c = []

  unfoldable pub delivered : Server C O → List (Call C O) → ℕ → List (Connection C O)
  delivered srv [] c = []
  delivered srv (k ∷ ks) c =
      delivered_by srv k c ++ delivered (call C O leb utf8 leb_reader reader srv k) ks c

  -- What a call takes from the channel.
  unfoldable pub received_by : Server C O → Call C O → ℕ → List (Connection C O)
  received_by srv (receiving d) c = if d == c then all_of (next srv c).0 else []
  received_by srv k c = []

  unfoldable pub received : Server C O → List (Call C O) → ℕ → List (Connection C O)
  received srv [] c = []
  received srv (k ∷ ks) c =
      received_by srv k c ++ received (call C O leb utf8 leb_reader reader srv k) ks c

  -- One call that does not drop the stream.
  flows :
      (srv : Server C O) (k : Call C O) (c : ℕ)
      → IsKept c (k ∷ [])
      → waiting srv c ++ delivered_by srv k c
        ≡ received_by srv k c ++ waiting (call C O leb utf8 leb_reader reader srv k) c
  unfolding call delivered_by received_by IsKept serve accept
  flows srv (serving i n) c h =
      append-nil (waiting srv c)
      ∙ sym (
          serve_in-waiting srv i n (or_empty (get i srv.handlers))
            (get n (or_empty (get i srv.handlers))) c)
  flows srv (accepting cx tx rx) c h =
      by_header srv cx tx (read leb utf8 leb_reader reader srv.decoder rx) c
  flows srv (receiving d) c h = append-nil (waiting srv c) ∙ next-waiting srv d c
  flows srv (dropping d) c h = append-nil (waiting srv c) ∙ sym (drop-waiting srv d c h.0)

  call-Dropped :
      (srv : Server C O) (k : Call C O) (c : ℕ)
      → Dropped c srv
      → Dropped c (call C O leb utf8 leb_reader reader srv k)
  unfolding call serve accept next drop_stream
  call-Dropped srv (serving i n) c e =
      serve_in-Dropped srv i n (or_empty (get i srv.handlers))
        (get n (or_empty (get i srv.handlers))) c e
  call-Dropped srv (accepting cx tx rx) c e =
      with_header-Dropped srv cx tx (read leb utf8 leb_reader reader srv.decoder rx) c e
  call-Dropped srv (receiving d) c e = update-Dropped later_of srv d c refl e
  call-Dropped srv (dropping d) c e = update-Dropped close_mailbox srv d c refl e

  -- A dropped stream gets nothing and gives nothing.
  nothing_by :
      (srv : Server C O) (k : Call C O) (c : ℕ)
      → Dropped c srv
      → (delivered_by srv k c ≡ []) × (received_by srv k c ≡ [])
  unfolding call delivered_by received_by IsKept accept next
  nothing_by srv (serving i n) c e = (refl, refl)
  nothing_by srv (accepting cx tx rx) c e =
      let after = call-Dropped srv (accepting cx tx rx) c e in
      (
        ap (λ o. waiting_in o ++ delivered_by srv (accepting cx tx rx) c) (sym e)
            ∙ flows srv (accepting cx tx rx) c tt
            ∙ ap waiting_in after,
        refl,
      )
  nothing_by srv (receiving d) c e = (
    refl,
    rw (e) (elim (Bool-cases (d == c)) [ inl here ↦ rw (here) refl | inr other ↦ rw (other) refl ]),
  )
  nothing_by srv (dropping d) c e = (refl, refl)

  nothing :
      (srv : Server C O) (ks : List (Call C O)) (c : ℕ)
      → Dropped c srv
      → (delivered srv ks c ≡ [])
        × (received srv ks c ≡ [])
        × (waiting (run C O leb utf8 leb_reader reader srv ks) c ≡ [])
  unfolding delivered received run
  nothing srv [] c e = (refl, refl, ap waiting_in e)
  nothing srv (k ∷ ks) c e =
      let (a, b) = nothing_by srv k c e in
      let (d, r, w) =
        nothing (call C O leb utf8 leb_reader reader srv k) ks c (call-Dropped srv k c e) in
      (rw (a) d, rw (b) r, w)

  -- Everything that was handed to the channel is given by its stream, waits, or is lost.
  abbrev Flows : Server C O → List (Call C O) → ℕ → Type 0
  Flows srv ks c =
      (lost : List (Connection C O)) × (waiting srv c ++ delivered srv ks c
        ≡ received srv ks c ++ (waiting (run C O leb utf8 leb_reader reader srv ks) c ++ lost))
      × (IsKept c ks → lost ≡ [])

  goes_on :
      (srv : Server C O) (k : Call C O) (ks : List (Call C O)) (c : ℕ)
      → waiting srv c ++ delivered_by srv k c
        ≡ received_by srv k c ++ waiting (call C O leb utf8 leb_reader reader srv k) c
      → (IsKept c (k ∷ ks) → IsKept c ks)
      → Flows (call C O leb utf8 leb_reader reader srv k) ks c
      → Flows srv (k ∷ ks) c
  unfolding delivered received run
  goes_on srv k ks c one f (lost, e, h) =
      let srv' = call C O leb utf8 leb_reader reader srv k in
      let rest = waiting (run C O leb utf8 leb_reader reader srv' ks) c ++ lost in
      (
        lost,
        sym (append_assoc (waiting srv c) (delivered_by srv k c) (delivered srv' ks c))
            ∙ ap (λ q. q ++ delivered srv' ks c) one
            ∙ append_assoc (received_by srv k c) (waiting srv' c) (delivered srv' ks c)
            ∙ ap (◌++◌ (received_by srv k c)) e
            ∙ sym (append_assoc (received_by srv k c) (received srv' ks c) rest),
        λ kept. h (f kept),
      )

  dropping-Flows :
      (srv : Server C O) (d : ℕ) (ks : List (Call C O)) (c : ℕ)
      → Flows (drop_stream srv d) ks c
      → Flows srv (dropping d ∷ ks) c
  unfolding delivered received run call delivered_by received_by IsKept
  dropping-Flows srv d ks c rest = elim (Bool-cases (d == c)) [
    | inr other ↦
        let ne : d ≢ c = (λ e. absurd (ground arith)) in
        goes_on srv (dropping d) ks c (flows srv (dropping d) c (ne, tt)) (λ h. h.1) rest
    | inl same ↦ elim (Option-cases (mailbox srv.mailboxes c)) [
      | inl e ↦
          let after : mailbox (drop_stream srv d).mailboxes c ≡ none =
            unfold drop_stream in
            mailbox-update close_mailbox d c srv.mailboxes ∙ rw (same, e) refl in
          goes_on srv (dropping d) ks c (append-nil (waiting srv c) ∙ ap waiting_in (e ∙ sym after))
            (λ h. h.1) rest
      | inr (m, e) ↦
          let after : Dropped c (drop_stream srv d) =
            unfold drop_stream in
            mailbox-update close_mailbox d c srv.mailboxes ∙ rw (same, e) refl in
          let (a, b, w) = nothing (drop_stream srv d) ks c after in
          (
            waiting srv c,
            rw (a, b, w) (append-nil (waiting srv c)),
            λ h. absurd (h.0 (ground arith)),
          )
    ]
  ]

  run-Flows : (srv : Server C O) (ks : List (Call C O)) (c : ℕ) → Flows srv ks c
  unfolding IsKept call delivered received run
  run-Flows srv [] c = ([], refl, λ h. refl)
  run-Flows srv (serving i n ∷ ks) c =
      goes_on srv (serving i n) ks c (flows srv (serving i n) c tt) (λ h. h)
        (run-Flows (call C O leb utf8 leb_reader reader srv (serving i n)) ks c)
  run-Flows srv (accepting cx tx rx ∷ ks) c =
      goes_on srv (accepting cx tx rx) ks c (flows srv (accepting cx tx rx) c tt) (λ h. h)
        (run-Flows (call C O leb utf8 leb_reader reader srv (accepting cx tx rx)) ks c)
  run-Flows srv (receiving d ∷ ks) c =
      goes_on srv (receiving d) ks c (flows srv (receiving d) c tt) (λ h. h)
        (run-Flows (call C O leb utf8 leb_reader reader srv (receiving d)) ks c)
  run-Flows srv (dropping d ∷ ks) c = dropping-Flows srv d ks c (run-Flows (drop_stream srv d) ks c)

  -- Whatever is called from the start: the connections that the stream of a channel gives are, in
  -- order and each once, those of the calls of `accept` that succeeded with a header that names a
  -- function whose handler the channel is, behind which come those that wait in it. None of them is
  -- lost unless the stream is dropped. The channel is the handler of one function only.
  pub streams_in_order :
      (d : HeaderDecoder) (ks : List (Call C O)) (c : ℕ)
      → ((lost : List (Connection C O)) × (delivered (with_header_decoder d) ks c
            ≡ received (with_header_decoder d) ks c
              ++ (waiting (run C O leb utf8 leb_reader reader (with_header_decoder d) ks) c
                  ++ lost))
          × (IsKept c ks → lost ≡ []))
        × ((i n j k : Bytes)
            → find_handler
                (run C O leb utf8 leb_reader reader (with_header_decoder d) ks).handlers
                i
                n
              ≡ some c
            → find_handler
                (run C O leb utf8 leb_reader reader (with_header_decoder d) ks).handlers
                j
                k
              ≡ some c
            → (i ≡ j) × (n ≡ k))
  unfolding mailbox
  streams_in_order d ks c =
      let v =
        run-keeps C O leb utf8 leb_reader reader (with_header_decoder d) ks
          (with_header_decoder-Inv C O leb utf8 leb_reader reader d) in
      (run-Flows (with_header_decoder d) ks c, λ i n j k f g. v.unique i n j k c f g)
