-- ===== src/Server/Calls.antt =====
-- Calls of `Server` of crates/transport/src/frame/conn/server.rs one after the other: its lock is
-- held while a call looks at the handlers.
use wrpc.Prelude.{
  ℕ, Bool, ◌≡◌, length, refl, ap, sym, ◌∙◌, List, [], ◌∷◌, Option, none, some, Bytes, inl, inr,
  Bool-cases,
}
use wrpc.BTree.Order.{eq_refl}
use wrpc.Leb128.{Leb128, ReadLeb128}
use wrpc.Reader.{Reader}
use wrpc.BTree.{BTreeMap, ℕ_ord, get, insert}
use wrpc.Frame.Header.{Header, HeaderRead, header, io, unsupported_version, read}
use wrpc.Server.{
  Connection, Mailbox, Server, find_handler, or_empty, mailbox, send_to, dispatch, with_header,
  serve_in, serve, next, drop_stream, accept,
}
use wrpc.Server.Mailboxes.{find_handler-insert, find_handler-again, get-or_empty}
use wrpc.Server.Inv.{Inv, next-Inv, drop_stream-Inv, accept-Inv}
use wrpc.Server.Inv.Serving.{serve-Inv, extended_keeps}

pub data Call (C O : Type 0) : Type 0 where
  serving : Bytes → Bytes → Call C O
  accepting : C → O → Bytes → Call C O
  receiving : ℕ → Call C O
  dropping : ℕ → Call C O

module _ (C O : Type 0) (leb : Leb128) (utf8 : Bytes → Bool) (leb_reader : ReadLeb128 leb)
    (reader : Reader) where
  unfoldable pub call : Server C O → Call C O → Server C O
  call srv (serving i n) = (serve srv i n).1
  call srv (accepting cx tx rx) = (accept leb utf8 leb_reader reader srv cx tx rx).1
  call srv (receiving c) = (next srv c).1
  call srv (dropping c) = drop_stream srv c

  unfoldable pub run : Server C O → List (Call C O) → Server C O
  run srv [] = srv
  run srv (k ∷ ks) = run (call srv k) ks

  call-Inv :
      (srv : Server C O) (k : Call C O)
      → Inv C O leb utf8 leb_reader reader srv
      → Inv C O leb utf8 leb_reader reader (call srv k)
  unfolding call
  call-Inv srv (serving i n) v = serve-Inv C O leb utf8 leb_reader reader srv i n v
  call-Inv srv (accepting cx tx rx) v = accept-Inv C O leb utf8 leb_reader reader srv cx tx rx v
  call-Inv srv (receiving c) v = next-Inv C O leb utf8 leb_reader reader srv c v
  call-Inv srv (dropping c) v = drop_stream-Inv C O leb utf8 leb_reader reader srv c v

  pub run-keeps :
      (srv : Server C O) (ks : List (Call C O))
      → Inv C O leb utf8 leb_reader reader srv
      → Inv C O leb utf8 leb_reader reader (run srv ks)
  unfolding run
  run-keeps srv [] v = v
  run-keeps srv (k ∷ ks) v = run-keeps (call srv k) ks (call-Inv srv k v)

  abbrev pub Kept : Server C O → Server C O → Type 0
  Kept srv srv' =
      (i n : Bytes) (c : ℕ)
      → find_handler srv.handlers i n ≡ some c
      → find_handler srv'.handlers i n ≡ some c

  serve_in-Kept :
      (srv : Server C O) (i n : Bytes) (o : Option ℕ)
      → find_handler srv.handlers i n ≡ o
      → Kept srv (serve_in srv i n (or_empty (get i srv.handlers)) o).1
  unfolding serve_in
  serve_in-Kept srv i n none e j k d h =
      extended_keeps srv.handlers
        (insert i (insert n (length srv.mailboxes) (or_empty (get i srv.handlers))) srv.handlers) i
        n (length srv.mailboxes) j k d
        (λ a b. find_handler-insert srv.handlers i n a b (length srv.mailboxes)) e h
  serve_in-Kept srv i n (some c) e j k d h = find_handler-again srv.handlers i j k ∙ h

  -- Everything but the channels is as it was.
  abbrev Alike : Server C O → Server C O → Type 0
  Alike srv srv' = (srv'.handlers ≡ srv.handlers) × (srv'.decoder ≡ srv.decoder)

  send_to-Alike :
      (srv : Server C O) (c : ℕ) (x : Connection C O) (o : Option (Mailbox C O))
      → Alike srv (send_to srv c x o).1
  unfolding send_to
  send_to-Alike srv c x none = (refl, refl)
  send_to-Alike srv c x (some m) = elim (Bool-cases m.closed) [
    | inl e ↦ rw (e) (refl, refl)
    | inr e ↦ rw (e) (refl, refl)
  ]

  dispatch-Alike :
      (srv : Server C O) (h : Header) (x : Connection C O) (o : Option ℕ)
      → Alike srv (dispatch srv h x o).1
  unfolding dispatch
  dispatch-Alike srv h x none = (refl, refl)
  dispatch-Alike srv h x (some c) = send_to-Alike srv c x (mailbox srv.mailboxes c)

  with_header-Alike :
      (srv : Server C O) (cx : C) (tx : O) (r : HeaderRead) → Alike srv (with_header srv cx tx r).1
  unfolding with_header
  with_header-Alike srv cx tx (header h rest) =
      dispatch-Alike srv h (cx, rest, tx) (find_handler srv.handlers h.instance_name h.name)
  with_header-Alike srv cx tx (io k) = (refl, refl)
  with_header-Alike srv cx tx (unsupported_version k) = (refl, refl)

  -- The decoder is the same, and every handler is still there.
  abbrev pub Follows : Server C O → Server C O → Type 0
  Follows srv srv' = (srv'.decoder ≡ srv.decoder) × Kept srv srv'

  serve_in-decoder :
      (srv : Server C O) (i n : Bytes) (functions : BTreeMap ℕ ℕ) (o : Option ℕ)
      → (serve_in srv i n functions o).1.decoder ≡ srv.decoder
  unfolding serve_in
  serve_in-decoder srv i n functions none = refl
  serve_in-decoder srv i n functions (some c) = refl

  serve-Follows : (srv : Server C O) (i n : Bytes) → Follows srv (serve srv i n).1
  unfolding serve
  serve-Follows srv i n = (
    serve_in-decoder srv i n (or_empty (get i srv.handlers))
        (get n (or_empty (get i srv.handlers))),
    serve_in-Kept srv i n (get n (or_empty (get i srv.handlers)))
        (sym (get-or_empty srv.handlers i n)),
  )

  call-Follows : (srv : Server C O) (k : Call C O) → Follows srv (call srv k)
  unfolding call accept next drop_stream
  call-Follows srv (serving i n) = serve-Follows srv i n
  call-Follows srv (accepting cx tx rx) =
      let (h, d) = with_header-Alike srv cx tx (read leb utf8 leb_reader reader srv.decoder rx) in
      (d, λ i n c e. ap (λ hs. find_handler hs i n) h ∙ e)
  call-Follows srv (receiving c) = (refl, λ i n d e. e)
  call-Follows srv (dropping c) = (refl, λ i n d e. e)

  pub run-Follows : (srv : Server C O) (ks : List (Call C O)) → Follows srv (run srv ks)
  unfolding run
  run-Follows srv [] = (refl, λ i n c e. e)
  run-Follows srv (k ∷ ks) =
      let (d, kept) = call-Follows srv k in
      let (d', kept') = run-Follows (call srv k) ks in
      (d' ∙ d, λ i n c e. kept' i n c (kept i n c e))

  served :
      (srv : Server C O) (i n : Bytes) (c : ℕ)
      → (serve srv i n).0 ≡ some c
      → find_handler (serve srv i n).1.handlers i n ≡ some c
  unfolding serve serve_in
  served srv i n c e = by_entry (get n (or_empty (get i srv.handlers))) e
    where
      by_entry :
          (o : Option ℕ)
          → (serve_in srv i n (or_empty (get i srv.handlers)) o).0 ≡ some c
          → find_handler (serve_in srv i n (or_empty (get i srv.handlers)) o).1.handlers i n
            ≡ some c
      by_entry none h =
          find_handler-insert srv.handlers i n i n (length srv.mailboxes)
          ∙ rw (eq_refl i, eq_refl n) h
      by_entry (some b) h = cc

  serve_again :
      (srv : Server C O) (i n : Bytes) (c : ℕ)
      → find_handler srv.handlers i n ≡ some c
      → (serve srv i n).0 ≡ none
  unfolding serve serve_in
  serve_again srv i n c e = rw (get-or_empty srv.handlers i n, e) refl

  -- Once a function is served, it has this handler whatever is called, its stream dropped
  -- included: it is never served again.
  pub served_once :
      (srv : Server C O) (i n : Bytes) (c : ℕ) (ks : List (Call C O))
      → (serve srv i n).0 ≡ some c
      → (find_handler (run (serve srv i n).1 ks).handlers i n ≡ some c)
        × ((serve (run (serve srv i n).1 ks) i n).0 ≡ none)
  served_once srv i n c ks e =
      let f = (run-Follows (serve srv i n).1 ks).1 i n c (served srv i n c e) in
      (f, serve_again (run (serve srv i n).1 ks) i n c f)
