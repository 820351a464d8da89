-- ===== src/Examples/Receiving.antt =====
-- Runs of `Subscriptions` of crates/transport/src/frame/conn/mod.rs.
use wrpc.Prelude.{◌≢◌, ℕ, ◌≡◌, refl, inl, inr, true, List, [], ◌∷◌, Option, none, some, arith}
use wrpc.BTree.{ℕ_ord, option_ord, BTreeMap, get, insert, eq, lt}
use wrpc.BTree.Laws.{IsSorted}
use wrpc.Conn.Subscriptions.{
  Pattern, open_to, new, resolve, declare_all, declare, declare_prefixes, collect, resolve_from,
  elements, next_of, subscribe, modify,
}
use wrpc.Conn.Subscriptions.Indexing.{
  take_rx, take_resolved, any_released, index_elements, index_element, take_declared,
}
use wrpc.Conn.Subscriptions.Routing.{
  to, route, route_new, claim_elements, claim_with_permit, get_tx,
}
use wrpc.Conn.Subscriptions.Declared.{consistent, agree, agree_all}
use wrpc.Conn.Subscriptions.Declared.Resolve.{resolve-Matches}
use wrpc.Conn.Subscriptions.Invariant.{Inv, get_rx}
use wrpc.Conn.Subscriptions.Invariant.Reach.{Call, takes, routes, run, step, Gave, run-new-Inv}
use wrpc.Conn.Subscriptions.Invariant.Delivery.{route_delivers}
use wrpc.Conn.Subscriptions.Once.{take_each, take_rx_once}

abbrev small : BTreeMap ℕ ℕ
small = ([], 5) ∷ (1 ∷ [], 6) ∷ (1 ∷ 2 ∷ [], 7) ∷ (2 ∷ [], 8) ∷ []

small-IsSorted : IsSorted small
unfolding lt
small-IsSorted = ground arith

-- Index 0 of the value is asynchronous, and so are all elements of index 1.
abbrev paths : List (List (Option ℕ))
paths = (some 0 ∷ []) ∷ (some 1 ∷ none ∷ []) ∷ []

abbrev elements_pattern : List (Option ℕ)
elements_pattern = some 1 ∷ none ∷ []

consistent-paths : consistent paths ≡ true
unfolding consistent agree agree_all
consistent-paths = refl

resolve-Matches_example :
    (n : Pattern) × (resolve (new paths 0) (1 ∷ 7 ∷ []) ≡ some (n, some 1 ∷ none ∷ []))
    × (n.declared ≡ true)
resolve-Matches_example =
    resolve-Matches paths 0 (some 1 ∷ none ∷ []) (1 ∷ 7 ∷ []) consistent-paths (inr (inl refl))
      (refl, tt)

resolves :
    resolve (new paths 0) (1 ∷ 7 ∷ [])
    ≡ some (record { declared = true; wildcard = none }, some 1 ∷ none ∷ [])
unfolding resolve new declare_all declare declare_prefixes collect resolve_from get insert eq lt
resolves = refl

-- Data comes for the element 7, which is indexed then; data comes for the element 8.
abbrev calls : List Call
calls = routes (1 ∷ 7 ∷ []) true ∷ takes (1 ∷ 7 ∷ []) ∷ routes (1 ∷ 8 ∷ []) true ∷ []

run-new-Inv_example : Inv (Gave (new paths 0) calls) (run (new paths 0) calls)
run-new-Inv_example = run-new-Inv paths 0 calls

abbrev path_9 : List ℕ
path_9 = 1 ∷ 9 ∷ []

delivered : (route (run (new paths 0) calls) (1 ∷ 9 ∷ []) true).0 ≡ to (open_to 4)
unfolding run step route route_new claim_elements claim_with_permit take_rx take_resolved
    any_released index_elements index_element take_declared resolve new declare_all declare
    declare_prefixes collect resolve_from elements next_of subscribe modify get insert eq lt
delivered = refl

route_delivers_example :
    (get_tx (route (run (new paths 0) calls) (1 ∷ 9 ∷ []) true).2 (1 ∷ 9 ∷ []) ≡ some (open_to 4))
    × ((q : List ℕ)
        → get_rx (route (run (new paths 0) calls) (1 ∷ 9 ∷ []) true).2 q ≡ some 4
        → path_9 ≡ q)
    × ((q : List ℕ) → Gave (new paths 0) calls q 4 → path_9 ≡ q)
route_delivers_example = route_delivers paths 0 calls (1 ∷ 9 ∷ []) true 4 delivered

-- The element 7 is indexed.
takes_7 : (take_rx (new paths 0) (1 ∷ 7 ∷ [])).0 ≡ some (some 2)
unfolding take_rx take_resolved any_released index_elements index_element take_declared resolve new
    declare_all declare declare_prefixes collect resolve_from elements next_of subscribe modify get
    insert eq lt
takes_7 = refl

take_rx_once_example :
    (take_rx (take_each (take_rx (new paths 0) (1 ∷ 7 ∷ [])).1 ((1 ∷ 8 ∷ []) ∷ [])) (1 ∷ 7 ∷ [])).0
    ≢ some (some 2)
take_rx_once_example = take_rx_once (new paths 0) (1 ∷ 7 ∷ []) 2 2 ((1 ∷ 8 ∷ []) ∷ []) takes_7
