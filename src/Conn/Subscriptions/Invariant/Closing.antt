-- ===== src/Conn/Subscriptions/Invariant/Closing.antt =====
-- `close_rx` and `close_tx` of conn/mod.rs and the invariant.
use wrpc.Prelude.{ℕ, ◌≡◌, refl, sym, ◌∙◌, ◌≢◌, Bool, List, [], ◌∷◌, Option, none, some, arith}
use wrpc.BTree.{ℕ_ord, BTreeMap, get}
use wrpc.BTree.Laws.{Above, IsSorted}
use wrpc.Conn.Subscriptions.{TxSlot, open_to, closed, Subscription, Subscriptions}
use wrpc.Conn.Subscriptions.Indexing.{
  close_rx_of, close_rx, close_tx_of, close_tx, drop_open, rx_of,
}
use wrpc.Conn.Subscriptions.Routing.{tx_of, get_tx}
use wrpc.Conn.Subscriptions.Invariant.{Owners, Inv}
use wrpc.Conn.Subscriptions.Invariant.Primitives.{Shrinks-Inv}

-- The entry at `p` after `values_mut` has written to every subscription by `f`.
close_tx_of-get :
    (p : List ℕ) (m : BTreeMap ℕ Subscription)
    → tx_of (get p (close_tx_of m)) ≡ drop_open (tx_of (get p m))
unfolding close_tx_of get
close_tx_of-get p [] = refl
close_tx_of-get p ((j, sub) ∷ m) = ground (arith, close_tx_of-get p m)

close_tx_of-get_rx :
    (p : List ℕ) (m : BTreeMap ℕ Subscription) → rx_of (get p (close_tx_of m)) ≡ rx_of (get p m)
unfolding close_tx_of get
close_tx_of-get_rx p [] = refl
close_tx_of-get_rx p ((j, sub) ∷ m) = ground (arith, close_tx_of-get_rx p m)

close_tx_of-Above : (k : List ℕ) (m : BTreeMap ℕ Subscription) → Above k m → Above k (close_tx_of m)
unfolding close_tx_of
close_tx_of-Above k [] a = tt
close_tx_of-Above k ((j, sub) ∷ m) a = (a.0, close_tx_of-Above k m a.1)

close_tx_of-IsSorted : (m : BTreeMap ℕ Subscription) → IsSorted m → IsSorted (close_tx_of m)
unfolding close_tx_of
close_tx_of-IsSorted [] s = tt
close_tx_of-IsSorted ((j, sub) ∷ m) s = (close_tx_of-Above j m s.0, close_tx_of-IsSorted m s.1)

drop_open-ne : (o : Option TxSlot) (c : ℕ) → drop_open o ≢ some (open_to c)
drop_open-ne none c = λ e. cc
drop_open-ne (some (open_to d)) c = λ e. cc
drop_open-ne (some closed) c = λ e. cc

closed_no_open : (s : Subscriptions) (p : List ℕ) (c : ℕ) → get_tx (close_tx s) p ≢ some (open_to c)
unfolding close_tx
closed_no_open s p c = λ e. drop_open-ne (get_tx s p) c (sym (close_tx_of-get p s.subs) ∙ e)

pub close_tx-Inv : {H : Owners} (s : Subscriptions) → Inv H s → Inv H (close_tx s)
unfolding close_tx
close_tx-Inv s v = record {
  subs_sorted = close_tx_of-IsSorted s.subs v.subs_sorted;
  next_sorted = v.next_sorted;
  tx_fresh = λ p c e. absurd (closed_no_open s p c e);
  rx_fresh = λ p c e. v.rx_fresh p c (sym (close_tx_of-get_rx p s.subs) ∙ e);
  own = λ p q c a b. absurd (closed_no_open s p c a);
  taken_fresh = v.taken_fresh;
  taken_own = λ p q c a e. absurd (closed_no_open s p c a);
  apart = λ p q c a b. absurd (closed_no_open s p c a);
  silent = λ p c k. closed_no_open s p c;
}

module _ (held : ℕ → Bool) where
  close_rx_of-get :
      (p : List ℕ) (m : BTreeMap ℕ Subscription)
      → tx_of (get p (close_rx_of held m).1) ≡ tx_of (get p m)
  unfolding close_rx_of get
  close_rx_of-get p [] = refl
  close_rx_of-get p ((j, sub) ∷ m) = ground (arith, close_rx_of-get p m)

  close_rx_of-get_rx :
      (p : List ℕ) (m : BTreeMap ℕ Subscription) → rx_of (get p (close_rx_of held m).1) ≡ none
  unfolding close_rx_of get
  close_rx_of-get_rx p [] = refl
  close_rx_of-get_rx p ((j, sub) ∷ m) = ground (arith, close_rx_of-get_rx p m)

  close_rx_of-Above :
      (k : List ℕ) (m : BTreeMap ℕ Subscription) → Above k m → Above k (close_rx_of held m).1
  unfolding close_rx_of
  close_rx_of-Above k [] a = tt
  close_rx_of-Above k ((j, sub) ∷ m) a = (a.0, close_rx_of-Above k m a.1)

  close_rx_of-IsSorted :
      (m : BTreeMap ℕ Subscription) → IsSorted m → IsSorted (close_rx_of held m).1
  unfolding close_rx_of
  close_rx_of-IsSorted [] s = tt
  close_rx_of-IsSorted ((j, sub) ∷ m) s = (close_rx_of-Above j m s.0, close_rx_of-IsSorted m s.1)

  pub close_rx-Inv : {H : Owners} (s : Subscriptions) → Inv H s → Inv H (close_rx held s).1
  unfolding close_rx
  close_rx-Inv s v = Shrinks-Inv s _ v (record {
    subs_sorted = close_rx_of-IsSorted s.subs v.subs_sorted;
    next_sorted = v.next_sorted;
    fresh = omega arith;
    all_closed = λ k. k;
    tx_back = λ p c e. sym (close_rx_of-get p s.subs) ∙ e;
    rx_back = λ p c e. cc (close_rx_of-get_rx p s.subs);
  })
