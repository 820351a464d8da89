-- ===== src/Conn/Incoming/Reading.antt =====
-- `poll_read` of `Incoming` in crates/transport/src/frame/conn/mod.rs, with the end of the data.
-- What the reader on the channel gives is a parameter; nothing means its end.
use wrpc.Prelude.{
  ℕ, ◌≡◌, ◌≢◌, refl, ap, ◌∙◌, Bool, true, false, List, [], ◌∷◌, Option, none, some, Bytes,
  ErrorKind, zero, suc, Result, ok, err,
}
use wrpc.Prelude as Prelude
use wrpc.Conn.Subscriptions.{TxSlot, open_to, closed, Subscriptions}
use wrpc.Conn.Subscriptions.Routing.{get_tx, route}
use wrpc.Conn.Subscriptions.Invariant.Delivery.{route_to}
use wrpc.Conn.Incoming.{Incoming, IngressState}
use wrpc.Conn.Ingress.{path_closed, receive}
use wrpc.Conn.Ingress.Closed.{get_tx-close_slot, receive_routed-closed}

abbrev pub is_closed_slot : Option TxSlot → Bool
is_closed_slot none = false
is_closed_slot (some (open_to c)) = false
is_closed_slot (some closed) = true

-- `is_closed`.
unfoldable pub is_closed : IngressState → List ℕ → Bool
is_closed st path = is_closed_slot (get_tx st.subs path)

-- The error that the end of the data stands for, if any.
abbrev pub end_of : Option ErrorKind → Bool → Result Bytes
end_of none b = ok []
end_of (some e) true = ok []
end_of (some e) false = err e

-- With a reader, by what it gives.
abbrev pub read_from : Incoming → IngressState → Result Bytes → Result Bytes × Incoming
read_from h st (err e) = (err e, h)
read_from h st (ok (b ∷ bs)) = (ok (b ∷ bs), h)
read_from h st (ok []) = (end_of st.error (is_closed st h.path), record h { rx = none })

-- Without one.
abbrev pub read_none : Bool → Incoming → Result Bytes × Incoming
read_none false h = (err Prelude.not_found, h)
read_none true h = (ok [], h)

-- By the reader.
abbrev pub read_slot : Option ℕ → Incoming → IngressState → Result Bytes → Result Bytes × Incoming
read_slot none h st got = read_none h.subscribed h
read_slot (some c) h st got = read_from h st got

-- `room` is what remains of the buffer.
unfoldable pub poll_read_incoming :
    Incoming → IngressState → ℕ → Result Bytes → Result Bytes × Incoming
poll_read_incoming h st zero got = (ok [], h)
poll_read_incoming h st (suc room) got = read_slot h.rx h st got

end_unclosed :
    (slot : Option TxSlot) (e : ErrorKind)
    → slot ≢ some closed
    → end_of (some e) (is_closed_slot slot) ≡ err e
end_unclosed none e h = refl
end_unclosed (some (open_to c)) e h = refl
end_unclosed (some closed) e h = absurd (h refl)

end_closed : (error : Option ErrorKind) → end_of error true ≡ ok []
end_closed none = refl
end_closed (some e) = refl

-- Where an empty frame closes the path: a reader of that path that is at its end, with room in its
-- buffer, gets the end of the stream right after, whether or not ingress failed. Whenever ingress
-- failed and the path is not closed, it gets the error of ingress there.
pub receive-poll_read_incoming :
    (s : Subscriptions) (permit : Bool) (n c room : ℕ) (error : Option ErrorKind)
    (failed subscribed : Bool) (path : List ℕ)
    → (receive s path permit n).0 ≡ path_closed
    → ((poll_read_incoming
          (record { rx = some c; subscribed = subscribed; path = path })
          (record { subs = (receive s path permit n).1; error = error; failed = failed })
          (suc room)
          (ok [])).0
        ≡ ok [])
      × ((st : IngressState) (e : ErrorKind)
          → st.error ≡ some e
          → get_tx st.subs path ≢ some closed
          → (poll_read_incoming
              (record { rx = some c; subscribed = subscribed; path = path })
              st
              (suc room)
              (ok [])).0
            ≡ err e)
unfolding poll_read_incoming is_closed receive
receive-poll_read_incoming s permit n c room error failed subscribed path h =
    let (d, r, after) = receive_routed-closed path n (route s path permit) h in
    let s' = (route s path permit).2 in
    let slot = get_tx-close_slot s' path (open_to d) (route_to s path permit (open_to d) r) in
    (
      ap (λ q. end_of error (is_closed_slot (get_tx q path))) after
          ∙ ap (λ q. end_of error (is_closed_slot q)) slot
          ∙ end_closed error,
      λ st e f g.
          ap (λ q. end_of q (is_closed_slot (get_tx st.subs path))) f
          ∙ end_unclosed (get_tx st.subs path) e g,
    )
