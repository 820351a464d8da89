-- ===== src/Server/Answers.antt =====
-- The answers of `accept` of crates/transport/src/frame/conn/server.rs, errors included.
use wrpc.Prelude.{
  ℕ, Bool, true, false, ◌≡◌, refl, List, Option, none, some, Bytes, inl, inr, Bool-cases,
}
use wrpc.Leb128.{Leb128, ReadLeb128}
use wrpc.Reader.{Reader}
use wrpc.Frame.Header.{Header, HeaderDecoder, HeaderRead, header, io, unsupported_version, read}
use wrpc.Server.{
  HeaderError, Mailbox, Server, Accepted, accepted, header_read, unhandled_function, send_error,
  find_handler, mailbox, with_header_decoder, dispatch, with_header, accept,
}
use wrpc.Server.Mailboxes.{has_mailbox}
use wrpc.Server.Inv.{Inv, with_header_decoder-Inv}
use wrpc.Server.Calls.{Call, run, run-keeps}
use wrpc.Server.Dispatch.{Posted, send_to-live, send_to-closed, posted}

module _ (C O : Type 0) (leb : Leb128) (utf8 : Bytes → Bool) (leb_reader : ReadLeb128 leb)
    (reader : Reader) where
  -- Why `accept` answers as it does, for a connection with the context `cx`, the writer `tx` and
  -- the bytes `rx` still to be read.
  abbrev pub Explained : Server C O → C → O → Bytes → Accepted C O × Server C O → Type 0
  Explained srv cx tx rx (accepted, srv') =
      (h : Header) × (rest : Bytes) × (c : ℕ) × (m : Mailbox C O) × (read leb utf8 leb_reader reader
          srv.decoder rx
        ≡ header h rest)
      × (find_handler srv.handlers h.instance_name h.name ≡ some c)
      × (mailbox srv.mailboxes c ≡ some m)
      × (m.closed ≡ false)
      × Posted C O leb utf8 leb_reader reader (cx, rest, tx) c m srv srv'
  Explained srv cx tx rx (header_read (HeaderError.io e), srv') =
      (read leb utf8 leb_reader reader srv.decoder rx ≡ io e) × (srv' ≡ srv)
  Explained srv cx tx rx (header_read (HeaderError.unsupported_version v), srv') =
      (read leb utf8 leb_reader reader srv.decoder rx ≡ unsupported_version v) × (srv' ≡ srv)
  Explained srv cx tx rx (unhandled_function i n, srv') =
      (rest : Bytes) × (read leb utf8 leb_reader reader srv.decoder rx
        ≡ header (record { instance_name = i; name = n }) rest)
      × (find_handler srv.handlers i n ≡ none)
      × (srv' ≡ srv)
  Explained srv cx tx rx (send_error x, srv') =
      (h : Header) × (rest : Bytes) × (c : ℕ) × (m : Mailbox C O) × (x ≡ (cx, rest, tx))
      × (read leb utf8 leb_reader reader srv.decoder rx ≡ header h rest)
      × (find_handler srv.handlers h.instance_name h.name ≡ some c)
      × (mailbox srv.mailboxes c ≡ some m)
      × (m.closed ≡ true)
      × (srv' ≡ srv)

  dispatch-Explained :
      (srv : Server C O) (cx : C) (tx : O) (rx : Bytes) (h : Header) (rest : Bytes) (o : Option ℕ)
      → Inv C O leb utf8 leb_reader reader srv
      → read leb utf8 leb_reader reader srv.decoder rx ≡ header h rest
      → find_handler srv.handlers h.instance_name h.name ≡ o
      → Explained srv cx tx rx (dispatch srv h (cx, rest, tx) o)
  unfolding dispatch
  dispatch-Explained srv cx tx rx h rest none v e f = (rest, e, f, refl)
  dispatch-Explained srv cx tx rx h rest (some c) v e f =
      let (m, at) = has_mailbox srv.mailboxes c (v.in_range h.instance_name h.name c f) in
      elim (Bool-cases m.closed) [
        | inl dropped ↦
            rw (send_to-closed C O leb utf8 leb_reader reader srv c (cx, rest, tx) m at dropped)
              (h, rest, c, m, refl, e, f, at, dropped, refl)
        | inr live ↦
            rw (send_to-live C O leb utf8 leb_reader reader srv c (cx, rest, tx) m at live) (
              h,
              rest,
              c,
              m,
              e,
              f,
              at,
              live,
              posted C O leb utf8 leb_reader reader srv c (cx, rest, tx) m at,
            )
      ]

  with_header-Explained :
      (srv : Server C O) (cx : C) (tx : O) (rx : Bytes) (r : HeaderRead)
      → Inv C O leb utf8 leb_reader reader srv
      → read leb utf8 leb_reader reader srv.decoder rx ≡ r
      → Explained srv cx tx rx (with_header srv cx tx r)
  unfolding with_header
  with_header-Explained srv cx tx rx (header h rest) v e =
      dispatch-Explained srv cx tx rx h rest (find_handler srv.handlers h.instance_name h.name) v e
        refl
  with_header-Explained srv cx tx rx (io k) v e = (e, refl)
  with_header-Explained srv cx tx rx (unsupported_version k) v e = (e, refl)

  -- In every server that calls can lead to, `accept` sends the connection to the function that
  -- its header names, where the function is served and its stream is there. Otherwise the server
  -- stays as it is, and the error says why: the header's error, the names of a function that is
  -- not served, or the connection given back where the stream was dropped.
  pub accept_cases :
      (d : HeaderDecoder) (ks : List (Call C O)) (cx : C) (tx : O) (rx : Bytes)
      → Explained (run C O leb utf8 leb_reader reader (with_header_decoder d) ks) cx tx rx (
          accept leb utf8 leb_reader reader
            (run C O leb utf8 leb_reader reader (with_header_decoder d) ks)
            cx
            tx
            rx)
  unfolding accept
  accept_cases d ks cx tx rx =
      let srv = run C O leb utf8 leb_reader reader (with_header_decoder d) ks in
      with_header-Explained srv cx tx rx (read leb utf8 leb_reader reader srv.decoder rx)
        (run-keeps C O leb utf8 leb_reader reader (with_header_decoder d) ks
          (with_header_decoder-Inv C O leb utf8 leb_reader reader d))
        refl
