-- ===== src/Conn/Subscriptions/Routing.antt =====
-- What the ingress of a frame does to `Subscriptions` of conn/mod.rs: `route`.
use wrpc.Prelude.{
  ℕ, Bool, true, false, List, [], ◌∷◌, Option, none, some, ltb, if◌then◌else◌, is_none,
}
use wrpc.BTree.{ℕ_ord, get, contains_key}
use wrpc.Conn.Subscriptions.{
  TxSlot, Pattern, Subscription, Subscriptions, Element, element_path, elements, next_of, subscribe,
  modify, resolve,
}

-- `Route`; the reference to the slot is the slot.
pub data Route : Type 0 where
  to : TxSlot → Route
  not_found : Route
  released : Route
  unclaimed : Route

-- A route, the permit that is left, and the state after it.
abbrev pub Routed : Type 0
Routed = Route × Bool × Subscriptions

abbrev pub tx_of : Option Subscription → Option TxSlot
tx_of none = none
tx_of (some sub) = sub.tx

-- `get_tx_mut`.
abbrev pub get_tx : Subscriptions → List ℕ → Option TxSlot
get_tx s path = tx_of (get path s.subs)

abbrev pub route_of : Option TxSlot → Route
route_of none = not_found
route_of (some slot) = to slot

-- `self.subscribe(..).permit = Some(permit)`
unfoldable pub claim_with_permit : Subscriptions → Element → Subscriptions
unfolding subscribe modify
claim_with_permit s e =
    modify (element_path e) (λ sub. record sub { permit = true })
      (subscribe s (element_path e) e.pattern)

-- The loop over the elements of the path; it returns early with a route.
unfoldable pub claim_elements :
    List Element → Bool → Subscriptions → Option Route × Bool × Subscriptions
claim_elements [] permit s = (none, permit, s)
claim_elements (e ∷ es) permit s =
    let go_on = claim_elements es permit s in
    let claimed = claim_elements es false (claim_with_permit s e) in
    if contains_key (element_path e) s.subs
    then go_on
    else (if ltb e.position (next_of s e.container)
        then (some released, permit, s)
        else (if permit then claimed else (some unclaimed, false, s)))

-- What follows the loop.
abbrev pub finish : List ℕ → List (Option ℕ) → Option Route × Bool × Subscriptions → Routed
finish path pattern (some r, permit, s) = (r, permit, s)
finish path pattern (none, permit, s) =
    let s' = subscribe s path pattern in (route_of (get_tx s' path), permit, s')

-- The part for a path that has no sender.
unfoldable pub route_new :
    Option (Pattern × List (Option ℕ)) → List ℕ → Bool → Subscriptions → Routed
route_new none path permit s = (not_found, permit, s)
route_new (some (p, pattern)) path permit s =
    if p.declared
    then finish path pattern (claim_elements (elements [] [] path pattern) permit s)
    else (not_found, permit, s)

unfoldable pub route : Subscriptions → List ℕ → Bool → Routed
route s path permit =
    if is_none (get_tx s path)
    then route_new (resolve s path) path permit s
    else (route_of (get_tx s path), permit, s)
