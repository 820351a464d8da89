-- ===== src/Server/Inv.antt =====
-- What holds of `Server` of crates/transport/src/frame/conn/server.rs whatever is called.
pub mod Serving
use wrpc.Prelude.{
  ℕ, zero, suc, ◌+◌, ◌<◌, ◌≡◌, refl, ap, sym, ◌∙◌, ◌⊎◌, inl, inr, Bool, true, false, ◌&&◌, List, [],
  ◌∷◌, ◌++◌, subst, Option, none, some, Bytes, arith, length, length-append, drop, if◌then◌else◌,
  All, Option-cases, Bool-cases,
}
use wrpc.BTree.{BTreeMap, ℕ_ord, eq, get, insert}
use wrpc.BTree.Order.{eq→≡, eq_refl}
use wrpc.Leb128.{Leb128, ReadLeb128}
use wrpc.Reader.{Reader}
use wrpc.Frame.Header.{Header, HeaderDecoder, HeaderRead, header, io, unsupported_version, read}
use wrpc.Server.{
  Handlers, Connection, Mailbox, Server, Accepted, find_handler, or_empty, mailbox, update_mailbox,
  with_header_decoder, post, send_to, dispatch, with_header, serve_in, serve, next, later_of,
  drop_stream, close_mailbox, accept,
}
use wrpc.Server.Mailboxes.{
  get-or_empty, find_handler-insert, find_handler-again, length-update_mailbox,
  mailbox-update_mailbox, mailbox-append, has_mailbox, All-append, All-drop, All-map,
}

module _ (C O : Type 0) (leb : Leb128) (utf8 : Bytes → Bool) (leb_reader : ReadLeb128 leb)
    (reader : Reader) where
  -- The connection came with a header that names a function whose handler is the channel `c`.
  abbrev pub Routed : HeaderDecoder → Handlers → ℕ → Connection C O → Type 0
  Routed d handlers c x =
      (rx : Bytes) × (h : Header) × (read leb utf8 leb_reader reader d rx ≡ header h x.1)
      × (find_handler handlers h.instance_name h.name ≡ some c)

  -- Every handler has a channel, which no other function has, and what waits in a channel was
  -- sent to the function that it is of.
  pub record Inv (srv : Server C O) : Type 0 where
    pub in_range :
        (i n : Bytes) (c : ℕ) → find_handler srv.handlers i n ≡ some c → c < length srv.mailboxes
    pub unique :
        (i n j k : Bytes) (c : ℕ)
        → find_handler srv.handlers i n ≡ some c
        → find_handler srv.handlers j k ≡ some c
        → (i ≡ j) × (n ≡ k)
    pub routed :
        (c : ℕ) (m : Mailbox C O)
        → mailbox srv.mailboxes c ≡ some m
        → All (Routed srv.decoder srv.handlers c) m.pending

  pub with_header_decoder-Inv : (d : HeaderDecoder) → Inv (with_header_decoder d)
  unfolding find_handler get mailbox
  with_header_decoder-Inv d = record {
    in_range = λ i n c h. cc;
    unique = λ i n j k c h g. cc;
    routed = λ c m h. cc;
  }

  -- A change of one channel that keeps what waits in it, or adds what is routed to it.
  update-Inv :
      (srv : Server C O) (f : Mailbox C O → Mailbox C O) (c : ℕ)
      → ((m : Mailbox C O)
          → All (Routed srv.decoder srv.handlers c) m.pending
          → All (Routed srv.decoder srv.handlers c) (f m).pending)
      → Inv srv
      → Inv (record srv { mailboxes = update_mailbox f c srv.mailboxes })
  update-Inv srv f c keeps v = record {
    in_range = λ i n d h.
        let l = length-update_mailbox f c srv.mailboxes in omega (arith, v.in_range i n d h);
    unique = v.unique;
    routed = λ d m h.
        let (y, e, k) = mailbox-update_mailbox f c d srv.mailboxes m h in
        elim k [
          | inl (a, b) ↦ rw (b) (
              subst (λ q. All (Routed srv.decoder srv.handlers q) (f y).pending) a
                (keeps y (v.routed c y (ap (mailbox srv.mailboxes) a ∙ e))))
          | inr b ↦ rw (b) (v.routed d y e)
        ];
  }

  pub next-Inv : (srv : Server C O) (c : ℕ) → Inv srv → Inv (next srv c).1
  unfolding next
  next-Inv srv c v =
      update-Inv srv later_of c (λ m h. All-drop (Routed srv.decoder srv.handlers c) 1 m.pending h)
        v

  pub drop_stream-Inv : (srv : Server C O) (c : ℕ) → Inv srv → Inv (drop_stream srv c)
  unfolding drop_stream
  drop_stream-Inv srv c v = update-Inv srv close_mailbox c (λ m h. tt) v

  send_to-Inv :
      (srv : Server C O) (c : ℕ) (x : Connection C O) (o : Option (Mailbox C O))
      → Routed srv.decoder srv.handlers c x
      → Inv srv
      → Inv (send_to srv c x o).1
  unfolding send_to
  send_to-Inv srv c x none r v = v
  send_to-Inv srv c x (some m) r v = elim (Bool-cases m.closed) [
    | inl e ↦ rw (e) v
    | inr e ↦ rw (e) (
        update-Inv srv (post x) c
          (λ y h. All-append (Routed srv.decoder srv.handlers c) y.pending x h r) v)
  ]

  dispatch-Inv :
      (srv : Server C O) (h : Header) (x : Connection C O) (rx : Bytes) (o : Option ℕ)
      → read leb utf8 leb_reader reader srv.decoder rx ≡ header h x.1
      → find_handler srv.handlers h.instance_name h.name ≡ o
      → Inv srv
      → Inv (dispatch srv h x o).1
  unfolding dispatch
  dispatch-Inv srv h x rx none e f v = v
  dispatch-Inv srv h x rx (some c) e f v =
      send_to-Inv srv c x (mailbox srv.mailboxes c) (rx, h, e, f) v

  with_header-Inv :
      (srv : Server C O) (cx : C) (tx : O) (rx : Bytes) (r : HeaderRead)
      → read leb utf8 leb_reader reader srv.decoder rx ≡ r
      → Inv srv
      → Inv (with_header srv cx tx r).1
  unfolding with_header
  with_header-Inv srv cx tx rx (header h rest) e v =
      dispatch-Inv srv h (cx, rest, tx) rx (find_handler srv.handlers h.instance_name h.name) e refl
        v
  with_header-Inv srv cx tx rx (io k) e v = v
  with_header-Inv srv cx tx rx (unsupported_version k) e v = v

  pub accept-Inv :
      (srv : Server C O) (cx : C) (tx : O) (rx : Bytes)
      → Inv srv
      → Inv (accept leb utf8 leb_reader reader srv cx tx rx).1
  unfolding accept
  accept-Inv srv cx tx rx v =
      with_header-Inv srv cx tx rx (read leb utf8 leb_reader reader srv.decoder rx) refl v
