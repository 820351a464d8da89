-- ===== src/Conn/Subscriptions/Once.antt =====
-- `take_rx` of crates/transport/src/frame/conn/mod.rs gives the data of a position to one handle.
use wrpc.Prelude.{
  ℕ, ◌≡◌, refl, ◌≢◌, inl, inr, Bool, true, false, List, [], ◌∷◌, Option, none, some, arith,
  Bool-cases, Option-cases, is_none, ap,
}
use wrpc.BTree.{ℕ_ord, option_ord, get, contains_key}
use wrpc.BTree.Order.{eq_refl, eq→≡}
use wrpc.BTree.Laws.{get-insert}
use wrpc.Conn.Subscriptions.{
  Subscription, Subscriptions, Pattern, Element, element_path, elements, fresh_subscription,
  is_declared, subscribe, modify, modify_at, resolve,
}
use wrpc.Conn.Subscriptions.Indexing.{
  claim, index_element, index_elements, has_no_rx, rx_of, take_receiver, take_declared,
  take_resolved, take_rx,
}

-- The path has a subscription, without its receiver.
abbrev Taken : List ℕ → Subscriptions → Type 0
Taken path s = has_no_rx (get path s.subs) ≡ true

subscribe-Taken :
    (s : Subscriptions) (path q : List ℕ) (pattern : List (Option ℕ))
    → Taken path s
    → Taken path (subscribe s q pattern)
unfolding subscribe
subscribe-Taken s path q pattern h = elim (Bool-cases (contains_key q s.subs)) [
  | inl known ↦ rw known h
  | inr new ↦
      let sub = fresh_subscription s.all_closed (is_declared (get pattern s.patterns)) s.fresh in
      rw new (ground (arith, get-insert q path sub s.subs, eq→≡ q path))
]

modify-Taken :
    (s : Subscriptions) (path q : List ℕ) (f : Subscription → Subscription)
    → ((sub : Subscription) → is_none sub.rx ≡ true → is_none (f sub).rx ≡ true)
    → Taken path s
    → Taken path (modify q f s)
unfolding modify
modify-Taken s path q f k h = elim (Option-cases (get q s.subs)) [
  | inl e ↦ rw (e, modify_at) h
  | inr (sub, e) ↦
      rw (e, modify_at) (ground (arith, get-insert q path (f sub) s.subs, eq→≡ q path, k sub))
]

-- Taking the receiver out of a subscription.
modify-take_receiver :
    (s : Subscriptions) (path : List ℕ) (c : ℕ)
    → rx_of (get path s.subs) ≡ some c
    → Taken path (modify path take_receiver s)
unfolding modify
modify-take_receiver s path c h = elim (Option-cases (get path s.subs)) [
  | inl e ↦ cc
  | inr (sub, e) ↦
      rw (e, modify_at)
        (ground (arith, get-insert path path (take_receiver sub) s.subs, eq_refl path))
]

index_element-Taken :
    (s : Subscriptions) (path : List ℕ) (e : Element)
    → Taken path s
    → Taken path (index_element s e)
unfolding index_element
index_element-Taken s path e h =
    modify-Taken (subscribe s (element_path e) e.pattern) path (element_path e) claim (λ sub k. k)
      (subscribe-Taken s path (element_path e) e.pattern h)

index_elements-Taken :
    (es : List Element) (s : Subscriptions) (path : List ℕ)
    → Taken path s
    → Taken path (index_elements s es)
unfolding index_elements
index_elements-Taken [] s path h = h
index_elements-Taken (e ∷ es) s path h =
    index_elements-Taken es (index_element s e) path (index_element-Taken s path e h)

take_declared-Taken :
    (b : Bool) (s : Subscriptions) (path q : List ℕ) (pattern : List (Option ℕ))
    → Taken path s
    → Taken path (take_declared b s q pattern).1
unfolding take_declared
take_declared-Taken false s path q pattern h = h
take_declared-Taken true s path q pattern h =
    modify-Taken (subscribe s q pattern) path q take_receiver (λ sub k. refl)
      (subscribe-Taken s path q pattern h)

take_resolved-Taken :
    (r : Option (Pattern × List (Option ℕ))) (s : Subscriptions) (path q : List ℕ)
    → Taken path s
    → Taken path (take_resolved r s q).1
unfolding take_resolved
take_resolved-Taken none s path q h = h
take_resolved-Taken (some (p, pattern)) s path q h =
    let es = elements [] [] q pattern in
    ground (
      arith,
      take_declared-Taken p.declared (index_elements s es) path q pattern
          (index_elements-Taken es s path h),
    )

-- Taking receivers, for handles of the paths `qs` one after the other.
pub take_each : Subscriptions → List (List ℕ) → Subscriptions
take_each s [] = s
take_each s (q ∷ qs) = take_each (take_rx s q).1 qs

take_each-Taken :
    (qs : List (List ℕ)) (s : Subscriptions) (path : List ℕ)
    → Taken path s
    → Taken path (take_each s qs)
unfolding take_each take_rx
take_each-Taken [] s path h = h
take_each-Taken (q ∷ qs) s path h =
    take_each-Taken qs (take_rx s q).1 path (take_resolved-Taken (resolve s q) s path q h)

rx_of-none : (o : Option Subscription) → has_no_rx o ≡ true → rx_of o ≡ none
rx_of-none none h = refl
rx_of-none (some sub) h = elim (Option-cases sub.rx) [ inl e ↦ e | inr (c, e) ↦ cc (ap is_none e) ]

take_declared-ne_some :
    (b : Bool) (s : Subscriptions) (path : List ℕ) (pattern : List (Option ℕ)) (c : ℕ)
    → Taken path s
    → (take_declared b s path pattern).0 ≢ some (some c)
unfolding take_declared
take_declared-ne_some false s path pattern c h = λ e. cc
take_declared-ne_some true s path pattern c h =
    let s' = subscribe s path pattern in
    rw (rx_of-none (get path s'.subs) (subscribe-Taken s path path pattern h)) (λ e. cc)

take_resolved-ne_some :
    (r : Option (Pattern × List (Option ℕ))) (s : Subscriptions) (path : List ℕ) (c : ℕ)
    → Taken path s
    → (take_resolved r s path).0 ≢ some (some c)
unfolding take_resolved
take_resolved-ne_some none s path c h = λ e. cc
take_resolved-ne_some (some (p, pattern)) s path c h = λ x.
    let es = elements [] [] path pattern in
    ground (
      arith,
      take_declared-ne_some p.declared (index_elements s es) path pattern c
          (index_elements-Taken es s path h),
    )

take_declared_gives :
    (b : Bool) (s : Subscriptions) (path : List ℕ) (pattern : List (Option ℕ)) (c : ℕ)
    → (take_declared b s path pattern).0 ≡ some (some c)
    → Taken path (take_declared b s path pattern).1
unfolding take_declared
take_declared_gives false s path pattern c e = cc
take_declared_gives true s path pattern c e =
    modify-take_receiver (subscribe s path pattern) path c (ground arith)

take_resolved_gives :
    (r : Option (Pattern × List (Option ℕ))) (s : Subscriptions) (path : List ℕ) (c : ℕ)
    → (take_resolved r s path).0 ≡ some (some c)
    → Taken path (take_resolved r s path).1
unfolding take_resolved
take_resolved_gives none s path c e = cc
take_resolved_gives (some (p, pattern)) s path c e =
    let es = elements [] [] path pattern in
    ground (arith, take_declared_gives p.declared (index_elements s es) path pattern c)

-- Once `take_rx` gave the receiver of a path to a handle, it gives none for that path again,
-- however many other receivers are taken in between.
pub take_rx_once :
    (s : Subscriptions) (path : List ℕ) (c c' : ℕ) (qs : List (List ℕ))
    → (take_rx s path).0 ≡ some (some c)
    → (take_rx (take_each (take_rx s path).1 qs) path).0 ≢ some (some c')
unfolding take_rx
take_rx_once s path c c' qs e =
    let taken = take_resolved_gives (resolve s path) s path c e in
    let s' = take_each (take_rx s path).1 qs in
    take_resolved-ne_some (resolve s' path) s' path c'
      (take_each-Taken qs (take_rx s path).1 path taken)
