-- ===== src/Examples/Ingressing.antt =====
-- Runs of `ingress` of crates/transport/src/frame/conn/mod.rs behind the head of a frame.
use wrpc.Prelude.{
  ◌≡◌, ◌≢◌, true, ok, err, ErrorKind, broken_pipe, refl, false, [], ◌∷◌, some, arith,
}
use wrpc.BTree.{ℕ_ord, option_ord, get, insert, eq, lt}
use wrpc.Conn.Subscriptions.{
  Subscriptions, new, resolve, declare_all, declare, declare_prefixes, collect, resolve_from,
  elements, next_of, subscribe, modify,
}
use wrpc.Conn.Subscriptions.Routing.{route, route_new, claim_elements, claim_with_permit}
use wrpc.Conn.Subscriptions.{closed}
use wrpc.Conn.Subscriptions.Routing.{get_tx}
use wrpc.Conn.Incoming.{IngressState}
use wrpc.Conn.Incoming.Reading.{poll_read_incoming, receive-poll_read_incoming}
use wrpc.Conn.Ingress.{path_closed, receive, receive_routed, ingress_data}
use wrpc.Conn.Ingress.Data.{Sends, ingress_data-Sends}

-- Index 0 of the value is asynchronous.
abbrev start : Subscriptions
start = new ((some 0 ∷ []) ∷ []) 0

closes : (receive start (0 ∷ []) false 0).0 ≡ path_closed
unfolding receive receive_routed route route_new claim_elements claim_with_permit resolve new
    declare_all declare declare_prefixes collect resolve_from elements next_of subscribe modify get
    insert eq lt
closes = refl

-- Five bytes in chunks of at most two, for a receiver that is closed after two chunks.
ingress_data-Sends_example :
    Sends 2 2 5
      (1 ∷ 2 ∷ 3 ∷ 4 ∷ 5 ∷ 6 ∷ [])
      (ingress_data 2 2 5 (1 ∷ 2 ∷ 3 ∷ 4 ∷ 5 ∷ 6 ∷ [])).0
      (ingress_data 2 2 5 (1 ∷ 2 ∷ 3 ∷ 4 ∷ 5 ∷ 6 ∷ [])).1
ingress_data-Sends_example = ingress_data-Sends 2 (omega arith) 2 5 (1 ∷ 2 ∷ 3 ∷ 4 ∷ 5 ∷ 6 ∷ [])

-- The reader of index 0 is at the end of its data, and ingress failed.
receive-poll_read_incoming_example :
    ((poll_read_incoming
        (record { rx = some 1; subscribed = true; path = 0 ∷ [] })
        (record {
          subs = (receive start (0 ∷ []) false 0).1;
          error = some broken_pipe;
          failed = true;
        })
        4
        (ok [])).0
      ≡ ok [])
    × ((st : IngressState) (e : ErrorKind)
        → st.error ≡ some e
        → get_tx st.subs (0 ∷ []) ≢ some closed
        → (poll_read_incoming
            (record { rx = some 1; subscribed = true; path = 0 ∷ [] })
            st
            4
            (ok [])).0
          ≡ err e)
receive-poll_read_incoming_example =
    receive-poll_read_incoming start false 0 1 3 (some broken_pipe) true true (0 ∷ []) closes
