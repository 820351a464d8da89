-- ===== src/Conn/Subscriptions/Invariant/Takes.antt =====
-- `take_rx` of conn/mod.rs and the invariant, with the receiver that it gives to a handle.
use wrpc.Prelude.{
  ℕ, ◌≡◌, ◌∙◌, ◌⊎◌, inl, inr, Bool, true, false, ◌&&◌, List, [], Option, none, some, Bool-cases,
  is_none,
}
use wrpc.BTree.{ℕ_ord, get}
use wrpc.Conn.Subscriptions.{Subscriptions, Pattern, elements, subscribe, resolve}
use wrpc.Conn.Subscriptions.Indexing.{
  any_released, has_no_rx, index_elements, take_receiver, take_declared, take_resolved, take_rx,
}
use wrpc.Conn.Subscriptions.Invariant.{Owners, Inv, get_rx}
use wrpc.Conn.Subscriptions.Invariant.Primitives.{Lessens, subscribe-Inv, modify-Inv}
use wrpc.Conn.Subscriptions.Invariant.Operations.{index_elements-Inv}

pub fewer-Inv :
    {H K : Owners} (s : Subscriptions) → ((q : List ℕ) (c : ℕ) → K q c → H q c) → Inv H s → Inv K s
fewer-Inv s f v = record {
  subs_sorted = v.subs_sorted;
  next_sorted = v.next_sorted;
  tx_fresh = v.tx_fresh;
  rx_fresh = v.rx_fresh;
  own = v.own;
  taken_fresh = λ q c k. v.taken_fresh q c (f q c k);
  taken_own = λ p q c a k. v.taken_own p q c a (f q c k);
  apart = v.apart;
  silent = v.silent;
}

-- The owners after `r` was answered to a handle that takes the receiver of a path.
abbrev pub Taking : Owners → List ℕ → Option (Option ℕ) → Owners
Taking H path r q c = H q c ⊎ ((path ≡ q) × (r ≡ some (some c)))

same-Inv :
    {H : Owners} (s : Subscriptions) (path : List ℕ) (r : Option (Option ℕ))
    → ((c : ℕ) → r ≡ some (some c) → get_rx s path ≡ some c)
    → Inv H s
    → Inv (Taking H path r) s
same-Inv s path r f v = record {
  subs_sorted = v.subs_sorted;
  next_sorted = v.next_sorted;
  tx_fresh = v.tx_fresh;
  rx_fresh = v.rx_fresh;
  own = v.own;
  taken_fresh =
      λ q c k. elim k [ inl old ↦ v.taken_fresh q c old | inr (e, g) ↦ v.rx_fresh path c (f c g) ];
  taken_own = λ p q c a k. elim k [
    | inl old ↦ v.taken_own p q c a old
    | inr (e, g) ↦ v.own p path c a (f c g) ∙ e
  ];
  apart = v.apart;
  silent = v.silent;
}

take_receiver-Lessens : Lessens take_receiver
take_receiver-Lessens sub = (λ c e. e, λ c e. cc)

take_declared-Inv :
    {H : Owners} (b : Bool) (s : Subscriptions) (path : List ℕ) (pattern : List (Option ℕ))
    → Inv H s
    → Inv (Taking H path (take_declared b s path pattern).0) (take_declared b s path pattern).1
unfolding take_declared
take_declared-Inv false s path pattern v = same-Inv s path (some none) (λ c e. cc) v
take_declared-Inv true s path pattern v =
    let s' = subscribe s path pattern in
    modify-Inv s' path take_receiver take_receiver-Lessens
      (same-Inv s' path (some (get_rx s' path)) (λ c e. cc) (subscribe-Inv s path pattern v))

take_resolved-Inv :
    {H : Owners} (r : Option (Pattern × List (Option ℕ))) (s : Subscriptions) (path : List ℕ)
    → Inv H s
    → Inv (Taking H path (take_resolved r s path).0) (take_resolved r s path).1
unfolding take_resolved
take_resolved-Inv none s path v = same-Inv s path none (λ c e. cc) v
take_resolved-Inv {H} (some (p, pattern)) s path v =
    let es = elements [] [] path pattern in
    let refused : Inv (Taking H path none) s = same-Inv s path none (λ c e. cc) v in
    elim (Bool-cases (any_released s es)) [
      | inl gone ↦ rw (gone) refused
      | inr here ↦
          elim (Bool-cases (p.declared && is_none p.wildcard && has_no_rx (get path s.subs))) [
            | inl taken ↦ rw (here, taken) refused
            | inr there ↦
                rw (here, there)
                  (take_declared-Inv p.declared (index_elements s es) path pattern
                    (index_elements-Inv es s v))
          ]
    ]

-- `take_rx` keeps the invariant, the receiver that it gives included.
pub take_rx-Inv :
    {H : Owners} (s : Subscriptions) (path : List ℕ)
    → Inv H s
    → Inv (Taking H path (take_rx s path).0) (take_rx s path).1
unfolding take_rx
take_rx-Inv s path v = take_resolved-Inv (resolve s path) s path v
