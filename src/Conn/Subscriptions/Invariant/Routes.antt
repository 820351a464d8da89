-- ===== src/Conn/Subscriptions/Invariant/Routes.antt =====
-- `route` of conn/mod.rs and the invariant.
use wrpc.Prelude.{
  ℕ, inl, inr, Bool, false, List, [], ◌∷◌, Option, none, some, arith, Bool-cases, ltb,
}
use wrpc.BTree.{ℕ_ord, contains_key}
use wrpc.Conn.Subscriptions.{
  Subscriptions, Pattern, Element, element_path, elements, next_of, resolve,
}
use wrpc.Conn.Subscriptions.Routing.{claim_with_permit, claim_elements, route_new, route}
use wrpc.Conn.Subscriptions.Invariant.{Owners, Inv}
use wrpc.Conn.Subscriptions.Invariant.Primitives.{subscribe-Inv, modify-Inv}

pub claim_with_permit-Inv :
    {H : Owners} (s : Subscriptions) (e : Element) → Inv H s → Inv H (claim_with_permit s e)
unfolding claim_with_permit
claim_with_permit-Inv s e v =
    modify-Inv _ (element_path e) _ (λ sub. (λ c q. q, λ c q. q))
      (subscribe-Inv s (element_path e) e.pattern v)

pub claim_elements-Inv :
    {H : Owners} (es : List Element) (permit : Bool) (s : Subscriptions)
    → Inv H s
    → Inv H (claim_elements es permit s).2
claim_elements-Inv [] permit s v = unfold claim_elements in v
claim_elements-Inv {H = H} (e ∷ es) permit s v =
    go (claim_elements-Inv es permit s v)
      (claim_elements-Inv es false (claim_with_permit s e) (claim_with_permit-Inv s e v))
  where
    go :
        Inv H (claim_elements es permit s).2
        → Inv H (claim_elements es false (claim_with_permit s e)).2
        → Inv H (claim_elements (e ∷ es) permit s).2
    go a b =
        unfold claim_elements in
        elim (Bool-cases (contains_key (element_path e) s.subs)) [
          | inl known ↦ rw known a
          | inr fresh ↦ rw fresh (elim (Bool-cases (ltb e.position (next_of s e.container))) [
            | inl gone ↦ rw gone v
            | inr here ↦ rw here (elim (Bool-cases permit) [ inl p ↦ rw p b | inr p ↦ rw p v ])
          ])
        ]

route_new-Inv :
    {H : Owners} (r : Option (Pattern × List (Option ℕ))) (path : List ℕ) (permit : Bool)
    (s : Subscriptions)
    → Inv H s
    → Inv H (route_new r path permit s).2
unfolding route_new
route_new-Inv none path permit s v = v
route_new-Inv (some (p, pattern)) path permit s v =
    let es = elements [] [] path pattern in
    let w = claim_elements-Inv es permit s v in
    ground (arith, w, subscribe-Inv (claim_elements es permit s).2 path pattern w)

-- `route` keeps the invariant.
pub route-Inv :
    {H : Owners} (s : Subscriptions) (path : List ℕ) (permit : Bool)
    → Inv H s
    → Inv H (route s path permit).2
unfolding route
route-Inv s path permit v = ground (arith, route_new-Inv (resolve s path) path permit s v)
