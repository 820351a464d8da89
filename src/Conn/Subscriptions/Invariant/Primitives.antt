-- ===== src/Conn/Subscriptions/Invariant/Primitives.antt =====
-- The writes that the operations of conn/mod.rs are made of keep the invariant.
use wrpc.Prelude.{
  ℕ, suc, ◌≤◌, ◌<◌, ◌≡◌, ◌⊎◌, inl, inr, Bool, true, false, List, Option, some, arith, Bool-cases,
  Option-cases,
}
use wrpc.BTree.{ℕ_ord, BTreeMap, get, insert, eq}
use wrpc.BTree.Order.{eq→≡}
use wrpc.BTree.Laws.{IsSorted, get-insert, insert-IsSorted}
use wrpc.Conn.Nested.{remove_nested, get-remove_nested, remove_nested-IsSorted}
use wrpc.Conn.Subscriptions.{
  open_to, Subscription, Subscriptions, fresh_subscription, subscribe, modify, modify_at,
}
use wrpc.Conn.Subscriptions.Indexing.{rx_of}
use wrpc.Conn.Subscriptions.Routing.{tx_of, get_tx}
use wrpc.Conn.Subscriptions.Invariant.{Owners, Inv, get_rx}

-- A state with no new channel ends, and nothing reopened.
pub record Shrinks (s s' : Subscriptions) : Type 0 where
  pub subs_sorted : IsSorted s'.subs
  pub next_sorted : IsSorted s'.next
  pub fresh : s.fresh ≤ s'.fresh
  pub all_closed : s'.all_closed ≡ true → s.all_closed ≡ true
  pub tx_back :
      (p : List ℕ) (c : ℕ) → get_tx s' p ≡ some (open_to c) → get_tx s p ≡ some (open_to c)
  pub rx_back : (p : List ℕ) (c : ℕ) → get_rx s' p ≡ some c → get_rx s p ≡ some c

le_fresh : (s s' : Subscriptions) (c : ℕ) → s.fresh ≤ s'.fresh → c < s.fresh → c < s'.fresh
le_fresh s s' c h l = omega arith

pub Shrinks-Inv : {H : Owners} (s s' : Subscriptions) → Inv H s → Shrinks s s' → Inv H s'
Shrinks-Inv s s' v h = record {
  subs_sorted = h.subs_sorted;
  next_sorted = h.next_sorted;
  tx_fresh = λ p c e. le_fresh s s' c h.fresh (v.tx_fresh p c (h.tx_back p c e));
  rx_fresh = λ p c e. le_fresh s s' c h.fresh (v.rx_fresh p c (h.rx_back p c e));
  own = λ p q c a b. v.own p q c (h.tx_back p c a) (h.rx_back q c b);
  taken_fresh = λ q c e. le_fresh s s' c h.fresh (v.taken_fresh q c e);
  taken_own = λ p q c a e. v.taken_own p q c (h.tx_back p c a) e;
  apart = λ p q c a b. v.apart p q c (h.tx_back p c a) (h.tx_back q c b);
  silent = λ p c k e. v.silent p c (h.all_closed k) (h.tx_back p c e);
}

-- The subscription `new` has no channel end that `old` has not.
abbrev pub NoMore : Option Subscription → Subscription → Type 0
NoMore old new =
    ((c : ℕ) → new.tx ≡ some (open_to c) → tx_of old ≡ some (open_to c))
    × ((c : ℕ) → new.rx ≡ some c → rx_of old ≡ some c)

module _ (s : Subscriptions) (path : List ℕ) (sub : Subscription) where
  abbrev pub written : Subscriptions
  written = record s { subs = insert path sub s.subs }

  tx_written :
      NoMore (get path s.subs) sub
      → (p : List ℕ) (c : ℕ) → get_tx written p ≡ some (open_to c)
      → get_tx s p ≡ some (open_to c)
  tx_written h p c e = elim (Bool-cases (eq path p)) [
    | inl same ↦ ground (arith, get-insert path p sub s.subs, eq→≡ path p same, h.0 c)
    | inr other ↦ ground (arith, get-insert path p sub s.subs)
  ]

  rx_written :
      NoMore (get path s.subs) sub
      → (p : List ℕ) (c : ℕ) → get_rx written p ≡ some c
      → get_rx s p ≡ some c
  rx_written h p c e = elim (Bool-cases (eq path p)) [
    | inl same ↦ ground (arith, get-insert path p sub s.subs, eq→≡ path p same, h.1 c)
    | inr other ↦ ground (arith, get-insert path p sub s.subs)
  ]

  pub written-Inv : {H : Owners} → Inv H s → NoMore (get path s.subs) sub → Inv H written
  written-Inv v h = Shrinks-Inv s written v (record {
    subs_sorted = insert-IsSorted path sub s.subs v.subs_sorted;
    next_sorted = v.next_sorted;
    fresh = omega arith;
    all_closed = λ k. k;
    tx_back = tx_written h;
    rx_back = rx_written h;
  })

-- The subscription has at most the ends of the next channel, and its sender only while senders
-- are not closed.
abbrev pub OnFresh : Subscriptions → Subscription → Type 0
OnFresh s sub =
    ((c : ℕ) → sub.tx ≡ some (open_to c) → (c ≡ s.fresh) × (s.all_closed ≡ false))
    × ((c : ℕ) → sub.rx ≡ some c → c ≡ s.fresh)

module _ (s : Subscriptions) (path : List ℕ) (sub : Subscription) (h : OnFresh s sub) where
  abbrev pub added : Subscriptions
  added = record s { subs = insert path sub s.subs; fresh = suc s.fresh }

  tx_added :
      (p : List ℕ) (c : ℕ)
      → get_tx added p ≡ some (open_to c)
      → (get_tx s p ≡ some (open_to c)) ⊎ ((path ≡ p) × (c ≡ s.fresh) × (s.all_closed ≡ false))
  tx_added p c e = elim (Bool-cases (eq path p)) [
    | inl here ↦ ground (arith, get-insert path p sub s.subs, eq→≡ path p here, h.0 c)
    | inr other ↦ ground (arith, get-insert path p sub s.subs)
  ]

  rx_added :
      (p : List ℕ) (c : ℕ)
      → get_rx added p ≡ some c
      → (get_rx s p ≡ some c) ⊎ ((path ≡ p) × (c ≡ s.fresh))
  rx_added p c e = elim (Bool-cases (eq path p)) [
    | inl here ↦ ground (arith, get-insert path p sub s.subs, eq→≡ path p here, h.1 c)
    | inr other ↦ ground (arith, get-insert path p sub s.subs)
  ]

  pub added-Inv : {H : Owners} → Inv H s → Inv H added
  added-Inv v = record {
    subs_sorted = insert-IsSorted path sub s.subs v.subs_sorted;
    next_sorted = v.next_sorted;
    tx_fresh = λ p c e. ground (arith, tx_added p c e, v.tx_fresh p c);
    rx_fresh = λ p c e. ground (arith, rx_added p c e, v.rx_fresh p c);
    own = λ p q c a b.
        ground (arith, tx_added p c a, rx_added q c b, v.own p q c, v.tx_fresh p c, v.rx_fresh q c);
    taken_fresh = λ q c e. let l = v.taken_fresh q c e in omega arith;
    taken_own = λ p q c a e. elim (tx_added p c a) [
      | inl old ↦ v.taken_own p q c old e
      | inr (same, new, k) ↦ let l = v.taken_fresh q c e in absurd (omega arith)
    ];
    apart = λ p q c a b.
        ground
          (arith, tx_added p c a, tx_added q c b, v.apart p q c, v.tx_fresh p c, v.tx_fresh q c);
    silent = λ p c k e. ground (arith, tx_added p c e, v.silent p c k);
  }

fresh-OnFresh :
    (s : Subscriptions) (b : Bool) → OnFresh s (fresh_subscription s.all_closed b s.fresh)
fresh-OnFresh s b = (λ c e. ground arith, λ c e. ground arith)

undeclared-NoMore :
    (old : Option Subscription) (b : Bool) (n : ℕ) → NoMore old (fresh_subscription b false n)
undeclared-NoMore old true n = (λ c e. cc, λ c e. cc)
undeclared-NoMore old false n = (λ c e. cc, λ c e. cc)

pub subscribe-Inv :
    {H : Owners} (s : Subscriptions) (path : List ℕ) (pattern : List (Option ℕ))
    → Inv H s
    → Inv H (subscribe s path pattern)
unfolding subscribe
subscribe-Inv s path pattern v = ground (
  arith,
  added-Inv s path (fresh_subscription s.all_closed true s.fresh) (fresh-OnFresh s true) v,
  written-Inv s path (fresh_subscription s.all_closed false s.fresh) v
      (undeclared-NoMore (get path s.subs) s.all_closed s.fresh),
)

-- A change of a subscription that adds no channel end.
abbrev pub Lessens : (Subscription → Subscription) → Type 0
Lessens f = (sub : Subscription) → NoMore (some sub) (f sub)

pub modify-Inv :
    {H : Owners} (s : Subscriptions) (path : List ℕ) (f : Subscription → Subscription)
    → Lessens f
    → Inv H s
    → Inv H (modify path f s)
unfolding modify
modify-Inv s path f l v = elim (Option-cases (get path s.subs)) [
  | inl e ↦ rw (e, modify_at) v
  | inr (sub, e) ↦ rw (e, modify_at) (written-Inv s path (f sub) v (rw e (l sub)))
]

-- Other fields may change, and `next` for another map.
pub reset-Inv :
    {H : Owners} (s : Subscriptions) (next : BTreeMap ℕ ℕ) (k : Bool) (n : ℕ)
    → Inv H s
    → IsSorted next
    → Inv H (record s { next = next; unclaimed_closed = k; indexed = n })
reset-Inv s next k n v h = record {
  subs_sorted = v.subs_sorted;
  next_sorted = h;
  tx_fresh = v.tx_fresh;
  rx_fresh = v.rx_fresh;
  own = v.own;
  taken_fresh = v.taken_fresh;
  taken_own = v.taken_own;
  apart = v.apart;
  silent = v.silent;
}

module _ {H : Owners} (s : Subscriptions) (path : List ℕ) (v : Inv H s) where
  abbrev pub without : Subscriptions
  without = record s { subs = (remove_nested s.subs path).1 }

  tx_without :
      (p : List ℕ) (c : ℕ) → get_tx without p ≡ some (open_to c) → get_tx s p ≡ some (open_to c)
  tx_without p c e = ground (arith, get-remove_nested s.subs path p v.subs_sorted)

  rx_without : (p : List ℕ) (c : ℕ) → get_rx without p ≡ some c → get_rx s p ≡ some c
  rx_without p c e = ground (arith, get-remove_nested s.subs path p v.subs_sorted)

  pub without-Inv : Inv H without
  without-Inv = Shrinks-Inv s without v (record {
    subs_sorted = remove_nested-IsSorted s.subs path v.subs_sorted;
    next_sorted = v.next_sorted;
    fresh = omega arith;
    all_closed = λ k. k;
    tx_back = tx_without;
    rx_back = rx_without;
  })
