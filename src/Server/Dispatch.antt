-- ===== src/Server/Dispatch.antt =====
-- To which stream a connection goes: `accept` and `serve` of
-- crates/transport/src/frame/conn/server.rs.
use wrpc.Prelude.{
  ℕ, zero, suc, Bool, true, false, ◌≤◌, ◌≡◌, ◌≢◌, refl, ap, ◌∙◌, length, List, [], ◌∷◌, ◌++◌, some,
  Bytes, ok, if◌then◌else◌,
}
use wrpc.Leb128.{Leb128, ReadLeb128}
use wrpc.Reader.{Reader}
use wrpc.Frame.Header.{CoreName, encode_invocation}
use wrpc.Frame.Header.RoundTrip.{params_frame, read-encode_invocation}
use wrpc.Server.{
  Connection, Mailbox, Server, accepted, send_error, find_handler, mailbox, update_mailbox, post,
  send_to, dispatch, with_header, accept,
}

module _ (C O : Type 0) (leb : Leb128) (utf8 : Bytes → Bool) (leb_reader : ReadLeb128 leb)
    (reader : Reader) where
  mailbox-post :
      (x : Connection C O) (c : ℕ) (ms : List (Mailbox C O)) (m : Mailbox C O)
      → mailbox ms c ≡ some m
      → (mailbox (update_mailbox (post x) c ms) c ≡ some (post x m))
        × ((d : ℕ) → d ≢ c → mailbox (update_mailbox (post x) c ms) d ≡ mailbox ms d)
  unfolding mailbox update_mailbox
  mailbox-post x c [] m e = cc
  mailbox-post x zero (y ∷ ms) m e =
      (ap (λ q. some (post x q)) (let same : y ≡ m = cc in same), later)
    where
      later : (d : ℕ) → d ≢ 0 → mailbox (update_mailbox (post x) 0 (y ∷ ms)) d ≡ mailbox (y ∷ ms) d
      later zero ne = absurd (ne refl)
      later (suc d) ne = refl
  mailbox-post x (suc c) (y ∷ ms) m e =
      let (here, others) = mailbox-post x c ms m e in (here, later others)
    where
      later :
          ((d : ℕ) → d ≢ c → mailbox (update_mailbox (post x) c ms) d ≡ mailbox ms d)
          → (d : ℕ) → d ≢ suc c
          → mailbox (update_mailbox (post x) (suc c) (y ∷ ms)) d ≡ mailbox (y ∷ ms) d
      later others zero ne = refl
      later others (suc d) ne = others d (λ e'. ne (ap suc e'))

  -- The connection is behind what waits in the channel `c`, and nothing else has changed.
  pub record Posted (x : Connection C O) (c : ℕ) (m : Mailbox C O) (srv srv' : Server C O)
      : Type 0 where
    pub here : mailbox srv'.mailboxes c ≡ some (record m { pending = m.pending ++ x ∷ [] })
    pub others : (d : ℕ) → d ≢ c → mailbox srv'.mailboxes d ≡ mailbox srv.mailboxes d
    pub handlers : srv'.handlers ≡ srv.handlers
    pub decoder : srv'.decoder ≡ srv.decoder

  -- A connection that is sent to a channel whose receiver is there, or dropped.
  pub send_to-live :
      (srv : Server C O) (c : ℕ) (x : Connection C O) (m : Mailbox C O)
      → mailbox srv.mailboxes c ≡ some m
      → m.closed ≡ false
      → send_to srv c x (mailbox srv.mailboxes c)
        ≡ (accepted, record srv { mailboxes = update_mailbox (post x) c srv.mailboxes })
  unfolding send_to
  send_to-live srv c x m at live =
      ap (send_to srv c x) at
      ∙ ap
          (λ b.
            if b
            then (send_error x, srv)
            else (accepted, record srv { mailboxes = update_mailbox (post x) c srv.mailboxes }))
          live

  pub send_to-closed :
      (srv : Server C O) (c : ℕ) (x : Connection C O) (m : Mailbox C O)
      → mailbox srv.mailboxes c ≡ some m
      → m.closed ≡ true
      → send_to srv c x (mailbox srv.mailboxes c) ≡ (send_error x, srv)
  unfolding send_to
  send_to-closed srv c x m at dropped =
      ap (send_to srv c x) at
      ∙ ap
          (λ b.
            if b
            then (send_error x, srv)
            else (accepted, record srv { mailboxes = update_mailbox (post x) c srv.mailboxes }))
          dropped

  pub posted :
      (srv : Server C O) (c : ℕ) (x : Connection C O) (m : Mailbox C O)
      → mailbox srv.mailboxes c ≡ some m
      → Posted x c m srv (record srv { mailboxes = update_mailbox (post x) c srv.mailboxes })
  posted srv c x m at =
      let (here, others) = mailbox-post x c srv.mailboxes m at in
      record { here = here; others = others; handlers = refl; decoder = refl }

  -- Where a function is served and its stream was not dropped: the invocation that a client
  -- writes for it is accepted, and put behind those that wait in this stream, with its context,
  -- the frame of its parameters and all that follows still to be read, and its writer. The other
  -- streams, and what is served, are as before.
  pub accept-encode_invocation :
      (srv : Server C O) (cx : C) (tx : O) (core_name : CoreName leb)
      (instance_name func params bytes rest : Bytes) (c : ℕ) (m : Mailbox C O)
      → find_handler srv.handlers instance_name func ≡ some c
      → mailbox srv.mailboxes c ≡ some m
      → m.closed ≡ false
      → encode_invocation leb core_name [] instance_name func (length params) ≡ ok bytes
      → length instance_name ≤ srv.decoder.max_instance_len
      → length func ≤ srv.decoder.max_name_len
      → utf8 instance_name ≡ true
      → utf8 func ≡ true
      → (srv' : Server C O) × (accept leb utf8 leb_reader reader srv cx tx (bytes ++ params ++ rest)
          ≡ (accepted, srv'))
        × Posted (cx, params_frame leb params ++ rest, tx) c m srv srv'
  unfolding accept with_header dispatch send_to
  accept-encode_invocation srv cx tx core_name i n params bytes rest c m f at live e li lf ui uf =
      let x : Connection C O = (cx, params_frame leb params ++ rest, tx) in
      (
        record srv { mailboxes = update_mailbox (post x) c srv.mailboxes },
        ap (with_header srv cx tx) (
              read-encode_invocation leb utf8 leb_reader reader core_name srv.decoder i n params
                bytes rest e li lf ui uf)
            ∙ ap (dispatch srv (record { instance_name = i; name = n }) x) f
            ∙ send_to-live srv c x m at live,
        posted srv c x m at,
      )
