-- ===== src/Conn/Subscriptions/Invariant/Start.antt =====
-- `new` of conn/mod.rs establishes the invariant.
use wrpc.Prelude.{
  ℕ, ◌≡◌, refl, sym, ◌∙◌, ◌≢◌, true, false, List, [], ◌∷◌, Option, none, some, arith,
}
use wrpc.BTree.{ℕ_ord, BTreeMap, get, eq}
use wrpc.Conn.Subscriptions.{
  open_to, Subscriptions, Pattern, new_subscription, collect, insert_declared, declare, declare_all,
  root_only, new,
}
use wrpc.Conn.Subscriptions.Routing.{get_tx}
use wrpc.Conn.Subscriptions.Invariant.{Owners, nobody, Inv, get_rx}
use wrpc.Conn.Subscriptions.Invariant.Primitives.{added-Inv}

-- What `declare` needs of the state besides the invariant.
insert_declared-Inv :
    {H : Owners} (c : Option (List ℕ)) (s : Subscriptions)
    → s.all_closed ≡ false
    → Inv H s
    → Inv H (insert_declared c s) × ((insert_declared c s).all_closed ≡ false)
insert_declared-Inv none s o v = (v, o)
insert_declared-Inv (some path) s o v = (
  added-Inv s path (new_subscription true s.fresh) (λ c e. (ground arith, o), λ c e. ground arith)
      v,
  o,
)

patterns-Inv :
    {H : Owners} (s : Subscriptions) (m : BTreeMap (Option ℕ) Pattern) (d : ℕ)
    → Inv H s
    → Inv H (record s { depth = d; patterns = m })
patterns-Inv s m d v = record {
  subs_sorted = v.subs_sorted;
  next_sorted = v.next_sorted;
  tx_fresh = v.tx_fresh;
  rx_fresh = v.rx_fresh;
  own = v.own;
  taken_fresh = v.taken_fresh;
  taken_own = v.taken_own;
  apart = v.apart;
  silent = v.silent;
}

declare-Inv :
    {H : Owners} (s : Subscriptions) (path : List (Option ℕ))
    → s.all_closed ≡ false
    → Inv H s
    → Inv H (declare s path) × ((declare s path).all_closed ≡ false)
unfolding declare
declare-Inv s [] o v = (v, o)
declare-Inv s (i ∷ rest) o v = insert_declared-Inv (collect (i ∷ rest)) _ o (patterns-Inv s _ _ v)

declare_all-Inv :
    {H : Owners} (paths : List (List (Option ℕ))) (s : Subscriptions)
    → s.all_closed ≡ false
    → Inv H s
    → Inv H (declare_all s paths)
unfolding declare_all
declare_all-Inv [] s o v = v
declare_all-Inv (path ∷ paths) s o v =
    let (w, q) = declare-Inv s path o v in declare_all-Inv paths (declare s path) q w

root-tx :
    (root : ℕ) (p : List ℕ) (c : ℕ)
    → get_tx (root_only root) p ≡ some (open_to c)
    → (p ≡ []) × (c ≡ root)
unfolding get eq
root-tx root [] c e = (refl, ground arith)
root-tx root (x ∷ p) c e = cc

root-rx : (root : ℕ) (p : List ℕ) (c : ℕ) → get_rx (root_only root) p ≢ some c
unfolding get eq
root-rx root [] c = λ e. cc
root-rx root (x ∷ p) c = λ e. cc

root_only-Inv : (root : ℕ) → Inv nobody (root_only root)
root_only-Inv root = record {
  subs_sorted = (tt, tt);
  next_sorted = tt;
  tx_fresh = λ p c e. omega (arith, (root-tx root p c e).1);
  rx_fresh = λ p c e. absurd (root-rx root p c e);
  own = λ p q c a b. absurd (root-rx root q c b);
  taken_fresh = λ q c e. absurd e;
  taken_own = λ p q c a e. absurd e;
  apart = λ p q c a b. (root-tx root p c a).0 ∙ sym (root-tx root q c b).0;
  silent = λ p c k. cc;
}

pub new-Inv : (paths : List (List (Option ℕ))) (root : ℕ) → Inv nobody (new paths root)
unfolding new
new-Inv paths root = declare_all-Inv paths (root_only root) refl (root_only-Inv root)
