-- ===== src/Conn/Subscriptions/Invariant/Delivery.antt =====
-- Where `route` of conn/mod.rs sends the data of a frame.
use wrpc.Prelude.{
  ℕ, ◌≡◌, ◌≢◌, Bool, false, List, [], ◌∷◌, Option, none, some, arith, Bool-cases, inl, inr, ltb,
}
use wrpc.BTree.{ℕ_ord, contains_key}
use wrpc.Conn.Subscriptions.{
  TxSlot, open_to, Subscriptions, Pattern, Element, element_path, elements, next_of, new, resolve,
}
use wrpc.Conn.Subscriptions.Routing.{
  Route, to, get_tx, route, route_new, route_of, finish, claim_elements, claim_with_permit,
}
use wrpc.Conn.Subscriptions.Invariant.{get_rx}
use wrpc.Conn.Subscriptions.Invariant.Routes.{route-Inv}
use wrpc.Conn.Subscriptions.Invariant.Reach.{Call, run, Gave, run-new-Inv}

claim_elements-ne_to :
    (es : List Element) (permit : Bool) (s : Subscriptions) (slot : TxSlot)
    → (claim_elements es permit s).0 ≢ some (to slot)
claim_elements-ne_to [] permit s slot = unfold claim_elements in λ e. cc
claim_elements-ne_to (e ∷ es) permit s slot =
    go (claim_elements-ne_to es permit s slot)
      (claim_elements-ne_to es false (claim_with_permit s e) slot)
  where
    go :
        (claim_elements es permit s).0 ≢ some (to slot)
        → (claim_elements es false (claim_with_permit s e)).0 ≢ some (to slot)
        → (claim_elements (e ∷ es) permit s).0 ≢ some (to slot)
    go a b =
        unfold claim_elements in
        elim (Bool-cases (contains_key (element_path e) s.subs)) [
          | inl known ↦ rw known a
          | inr fresh ↦ rw fresh (elim (Bool-cases (ltb e.position (next_of s e.container))) [
            | inl gone ↦ rw gone (λ q. cc)
            | inr here ↦
                rw here (elim (Bool-cases permit) [ inl p ↦ rw p b | inr p ↦ rw p (λ q. cc) ])
          ])
        ]

finish-to :
    (path : List ℕ) (pattern : List (Option ℕ)) (r : Option Route × Bool × Subscriptions)
    (slot : TxSlot)
    → r.0 ≢ some (to slot)
    → (finish path pattern r).0 ≡ to slot
    → get_tx (finish path pattern r).2 path ≡ some slot
finish-to path pattern (none, permit, s) slot n e = ground arith
finish-to path pattern (some r, permit, s) slot n e = ground arith

route_new_to :
    (r : Option (Pattern × List (Option ℕ))) (s : Subscriptions) (path : List ℕ) (permit : Bool)
    (slot : TxSlot)
    → (route_new r path permit s).0 ≡ to slot
    → get_tx (route_new r path permit s).2 path ≡ some slot
unfolding route_new
route_new_to none s path permit slot e = cc
route_new_to (some (p, pattern)) s path permit slot e =
    let es = elements [] [] path pattern in
    ground (
      arith,
      finish-to path pattern (claim_elements es permit s) slot
          (claim_elements-ne_to es permit s slot),
    )

route_of_to : (o : Option TxSlot) (slot : TxSlot) → route_of o ≡ to slot → o ≡ some slot
route_of_to none slot e = cc
route_of_to (some t) slot e = cc

-- If `route` answers with a sender slot, that is the slot of the path in the state after it.
pub route_to :
    (s : Subscriptions) (path : List ℕ) (permit : Bool) (slot : TxSlot)
    → (route s path permit).0 ≡ to slot
    → get_tx (route s path permit).2 path ≡ some slot
unfolding route
route_to s path permit slot =
    ground
      (arith, route_new_to (resolve s path) s path permit slot, route_of_to (get_tx s path) slot)

-- In any state that calls lead to from declared paths, if `route` answers for the path of a frame
-- with an open sender, then it is the one stored for that path afterwards, and no handle but one
-- of that very path receives on its channel: neither is its receiver stored for another path, nor
-- did one of the calls give it to a handle of another path.
pub route_delivers :
    (paths : List (List (Option ℕ))) (root : ℕ) (ks : List Call) (path : List ℕ) (permit : Bool)
    (c : ℕ)
    → (route (run (new paths root) ks) path permit).0 ≡ to (open_to c)
    → (get_tx (route (run (new paths root) ks) path permit).2 path ≡ some (open_to c))
      × ((q : List ℕ)
          → get_rx (route (run (new paths root) ks) path permit).2 q ≡ some c
          → path ≡ q)
      × ((q : List ℕ) → Gave (new paths root) ks q c → path ≡ q)
route_delivers paths root ks path permit c e =
    let v = route-Inv (run (new paths root) ks) path permit (run-new-Inv paths root ks) in
    let stored = route_to (run (new paths root) ks) path permit (open_to c) e in
    (stored, λ q r. v.own path q c stored r, λ q r. v.taken_own path q c stored r)
