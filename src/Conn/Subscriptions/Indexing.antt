-- ===== src/Conn/Subscriptions/Indexing.antt =====
-- What handles do to `Subscriptions` of conn/mod.rs: `take_rx`, `skip`, `retain`, `release`,
-- `remove`, `close_rx` and `close_tx`. `held` says of a channel whether it holds data, i.e. the
-- negation of `Receiver::is_empty`.
use wrpc.Prelude.{
  ℕ, suc, ◌-◌, ◌^◌, Bool, true, false, not, ◌&&◌, ◌||◌, List, [], ◌∷◌, ◌++◌, Option, none, some,
  ltb, ◌==◌, if◌then◌else◌, length, max, is_none,
}
use wrpc.BTree.{ℕ_ord, BTreeMap, lt, get, insert, contains_key, range_from, take_while}
use wrpc.Conn.Nested.{remove_nested}
use wrpc.Conn.Subscriptions.{
  TxSlot, open_to, closed, Pattern, Subscription, Subscriptions, Element, element_path, elements,
  next_of, subscribe, modify, resolve,
}

-- `!self.subs.contains_key(&path[..=k]) && path[k] < self.next(&path[..k])`
abbrev pub is_released : Subscriptions → Element → Bool
is_released s e =
    not (contains_key (element_path e) s.subs) && ltb e.position (next_of s e.container)

-- The first loop of `take_rx`: whether it returns `None`.
unfoldable pub any_released : Subscriptions → List Element → Bool
any_released s [] = false
any_released s (e ∷ es) = is_released s e || any_released s es

-- A new handle is within the element.
abbrev pub claim : Subscription → Subscription
claim sub = record sub { handles = suc sub.handles; permit = false }

-- `usize::MAX` and `saturating_add(1)`.
abbrev pub usize_max : ℕ
usize_max = 2 ^ 64 - 1

abbrev pub saturating_suc : ℕ → ℕ
saturating_suc n = if n == usize_max then n else suc n

-- One round of the second loop of `take_rx`. (The number of handles does not overflow.)
unfoldable pub index_element : Subscriptions → Element → Subscriptions
unfolding subscribe modify next_of
index_element s e =
    let s' = modify (element_path e) claim (subscribe s (element_path e) e.pattern) in
    record s' {
      next = insert e.container (max (next_of s' e.container) (saturating_suc e.position)) s'.next;
      indexed = suc s'.indexed;
    }

unfoldable pub index_elements : Subscriptions → List Element → Subscriptions
index_elements s [] = s
index_elements s (e ∷ es) = index_elements (index_element s e) es

abbrev pub has_no_rx : Option Subscription → Bool
has_no_rx none = false
has_no_rx (some sub) = is_none sub.rx

abbrev pub rx_of : Option Subscription → Option ℕ
rx_of none = none
rx_of (some sub) = sub.rx

abbrev pub take_receiver : Subscription → Subscription
take_receiver sub = record sub { rx = none }

-- The end of `take_rx`.
unfoldable pub take_declared :
    Bool → Subscriptions → List ℕ → List (Option ℕ) → Option (Option ℕ) × Subscriptions
take_declared false s path pattern = (some none, s)
take_declared true s path pattern =
    let s' = subscribe s path pattern in
    (some (rx_of (get path s'.subs)), modify path take_receiver s')

-- `take_rx` behind `resolve`.
unfoldable pub take_resolved :
    Option (Pattern × List (Option ℕ)) → Subscriptions → List ℕ → Option (Option ℕ) × Subscriptions
take_resolved none s path = (none, s)
take_resolved (some (p, pattern)) s path =
    let es = elements [] [] path pattern in
    if any_released s es
    then (none, s)
    else (if p.declared && is_none p.wildcard && has_no_rx (get path s.subs)
        then (none, s)
        else take_declared p.declared (index_elements s es) path pattern)

unfoldable pub take_rx : Subscriptions → List ℕ → Option (Option ℕ) × Subscriptions
take_rx s path = take_resolved (resolve s path) s path

module _ (held : ℕ → Bool) where
  abbrev pub holds_data : Option ℕ → Bool
  holds_data none = false
  holds_data (some c) = held c

  unfoldable pub any_held : List Subscription → Bool
  any_held [] = false
  any_held (sub ∷ rest) = holds_data sub.rx || any_held rest

  unfoldable pub remove : Subscriptions → List ℕ → Bool × Subscriptions
  remove s path =
      let (removed, subs') = remove_nested s.subs path in
      (
        any_held removed,
        record s { next = (remove_nested s.next path).1; indexed = suc s.indexed; subs = subs' },
      )

  -- The elements of a container from the position `lo` to before `hi` without a handle.
  unfoldable pub unclaimed_keys : ℕ → BTreeMap ℕ Subscription → List (List ℕ)
  unclaimed_keys n [] = []
  unclaimed_keys n ((p, sub) ∷ m) =
      if (length p == n) && (sub.handles == 0) then p ∷ unclaimed_keys n m else unclaimed_keys n m

  unfoldable pub remove_each : List (List ℕ) → Bool → Subscriptions → Bool × Subscriptions
  remove_each [] pending s = (pending, s)
  remove_each (p ∷ ps) pending s = let (b, s') = remove s p in remove_each ps (pending || b) s'

  -- One round of the loop of `skip`.
  unfoldable pub skip_element : Element → Bool → Subscriptions → Bool × Subscriptions
  skip_element e pending s =
      let first = next_of s e.container in
      let start = e.container ++ first ∷ [] in
      let range = take_while (λ p. lt p (element_path e)) (range_from start s.subs) in
      if ltb first e.position
      then remove_each (unclaimed_keys (suc (length e.container)) range) pending s
      else (pending, s)

  unfoldable pub skip_elements : List Element → Bool → Subscriptions → Bool × Subscriptions
  skip_elements [] pending s = (pending, s)
  skip_elements (e ∷ es) pending s =
      let (pending', s') = skip_element e pending s in skip_elements es pending' s'

  unfoldable pub skip_resolved :
      Option (Pattern × List (Option ℕ)) → Subscriptions → List ℕ → Bool × Subscriptions
  skip_resolved none s path = (false, s)
  skip_resolved (some (p, pattern)) s path = skip_elements (elements [] [] path pattern) false s

  unfoldable pub skip : Subscriptions → List ℕ → Bool × Subscriptions
  skip s path = skip_resolved (resolve s path) s path

  -- The loop of `release`.
  unfoldable pub release_elements : List Element → Subscriptions → Bool × Subscriptions
  release_elements [] s = (false, s)
  release_elements (e ∷ es) s = elim (get (element_path e) s.subs) [
    | none ↦ (false, s)
    | some sub ↦
        let n = sub.handles - 1 in
        let s' = record s { subs = insert (element_path e) (record sub { handles = n }) s.subs } in
        if n == 0 then remove s' (element_path e) else release_elements es s'
  ]

  unfoldable pub release_resolved :
      Option (Pattern × List (Option ℕ)) → Subscriptions → List ℕ → Bool × Subscriptions
  release_resolved none s path = (false, s)
  release_resolved (some (p, pattern)) s path = release_elements (elements [] [] path pattern) s

  unfoldable pub release : Subscriptions → List ℕ → Bool × Subscriptions
  release s path = release_resolved (resolve s path) s path

  -- `values_mut` of `close_rx`.
  unfoldable pub close_rx_of : BTreeMap ℕ Subscription → Bool × BTreeMap ℕ Subscription
  close_rx_of [] = (false, [])
  close_rx_of ((p, sub) ∷ m) =
      let (b, m') = close_rx_of m in (holds_data sub.rx || b, (p, take_receiver sub) ∷ m')

  unfoldable pub close_rx : Subscriptions → Bool × Subscriptions
  close_rx s =
      let (pending, subs') = close_rx_of s.subs in
      (pending, record s { unclaimed_closed = true; subs = subs' })

-- The loop of `retain`.
unfoldable pub retain_elements : List Element → Subscriptions → Subscriptions
retain_elements [] s = s
retain_elements (e ∷ es) s =
    retain_elements es (modify (element_path e) (λ sub. record sub { handles = suc sub.handles }) s)

unfoldable pub retain_resolved :
    Option (Pattern × List (Option ℕ)) → Subscriptions → List ℕ → Subscriptions
retain_resolved none s path = s
retain_resolved (some (p, pattern)) s path = retain_elements (elements [] [] path pattern) s

unfoldable pub retain : Subscriptions → List ℕ → Subscriptions
retain s path = retain_resolved (resolve s path) s path

abbrev pub drop_open : Option TxSlot → Option TxSlot
drop_open (some (open_to c)) = none
drop_open none = none
drop_open (some closed) = some closed

-- `values_mut` of `close_tx`.
unfoldable pub close_tx_of : BTreeMap ℕ Subscription → BTreeMap ℕ Subscription
close_tx_of [] = []
close_tx_of ((p, sub) ∷ m) = (p, record sub { tx = drop_open sub.tx }) ∷ close_tx_of m

unfoldable pub close_tx : Subscriptions → Subscriptions
close_tx s = record s { all_closed = true; subs = close_tx_of s.subs }
