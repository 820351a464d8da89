-- ===== src/Conn/Ingress/Closed.antt =====
-- A path that an empty frame closed, in crates/transport/src/frame/conn/mod.rs.
use wrpc.Prelude.{ℕ, ◌≡◌, refl, Bool, List, some, arith, invalid_data, Option-cases, inl, inr}
use wrpc.BTree.{ℕ_ord, get}
use wrpc.BTree.Order.{eq_refl}
use wrpc.BTree.Laws.{get-insert}
use wrpc.Conn.Subscriptions.{TxSlot, open_to, closed, Subscriptions, modify, modify_at}
use wrpc.Conn.Subscriptions.Routing as Routing
use wrpc.Conn.Subscriptions.Routing.{
  Routed, to, released, unclaimed, get_tx, route, route_new, route_of,
}
use wrpc.Conn.Subscriptions.Invariant.Delivery.{route_to}
use wrpc.Conn.Ingress.{path_closed, fails, close_slot, receive, receive_routed}

-- The slot of a subscription with a sender is closed.
pub get_tx-close_slot :
    (s : Subscriptions) (path : List ℕ) (slot : TxSlot)
    → get_tx s path ≡ some slot
    → get_tx (modify path close_slot s) path ≡ some closed
unfolding modify
get_tx-close_slot s path slot h = elim (Option-cases (get path s.subs)) [
  | inl e ↦ cc
  | inr (sub, e) ↦
      rw (e, modify_at) (ground (arith, get-insert path path (close_slot sub) s.subs, eq_refl path))
]

route_closed :
    (s : Subscriptions) (path : List ℕ) (permit : Bool)
    → get_tx s path ≡ some closed
    → route s path permit ≡ (to closed, permit, s)
unfolding route
route_closed s path permit h = rw h refl

pub receive_routed-closed :
    (path : List ℕ) (n : ℕ) (r : Routed)
    → (receive_routed path n r).0 ≡ path_closed
    → (c : ℕ) × (r.0 ≡ to (open_to c)) × ((receive_routed path n r).1 ≡ modify path close_slot r.2)
unfolding receive_routed
receive_routed-closed path n (to closed, permit, s) e = cc
receive_routed-closed path n (to (open_to c), permit, s) e = (c, refl, ground arith)
receive_routed-closed path n (Routing.not_found, permit, s) e = cc
receive_routed-closed path n (released, permit, s) e = cc
receive_routed-closed path n (unclaimed, permit, s) e = cc

-- Once an empty frame closed a path, any later frame on that path, if nothing else changed the
-- subscriptions, makes ingress fail with `InvalidData`.
pub receive-receive_closed :
    (s : Subscriptions) (path : List ℕ) (permit permit' : Bool) (n n' : ℕ)
    → (receive s path permit n).0 ≡ path_closed
    → receive (receive s path permit n).1 path permit' n'
      ≡ (fails invalid_data, (receive s path permit n).1)
unfolding receive receive_routed
receive-receive_closed s path permit permit' n n' h =
    let (c, e, after) = receive_routed-closed path n (route s path permit) h in
    let s' = (route s path permit).2 in
    let slot = get_tx-close_slot s' path (open_to c) (route_to s path permit (open_to c) e) in
    rw (after, route_closed (modify path close_slot s') path permit' slot, receive_routed) refl
