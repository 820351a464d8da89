-- ===== src/Conn/Subscriptions/Declared/All.antt =====
-- What is stored of all the declared paths of conn/mod.rs together.
use wrpc.Prelude.{
  ℕ, ◌≡◌, refl, sym, subst, ap, ◌⊎◌, inl, inr, true, List, [], ◌∷◌, Option, some, arith, is_none,
  Option-cases,
}
use wrpc.BTree.{option_ord, option_rank_injective, BTreeMap, get}
use wrpc.BTree.Order.{eq_refl, eq→≡}
use wrpc.Conn.Subscriptions.{Pattern, Subscriptions, is_declared, declare, declare_all}
use wrpc.Conn.Subscriptions.Declared.{In, agree, agree_all, consistent, next_after}
use wrpc.Conn.Subscriptions.Declared.Stored.{wildcard_of, wildcard-declare, declared-declare}

agree_next :
    (p q k : List (Option ℕ)) (i j : Option ℕ)
    → agree p q ≡ true
    → next_after k p ≡ some i
    → next_after k q ≡ some j
    → is_none i ≡ is_none j
unfolding agree next_after
agree_next [] q k u v a x y = cc
agree_next (i ∷ p) [] k u v a x y = cc
agree_next (i ∷ p) (j ∷ q) [] u v a x y = ground arith
agree_next (i ∷ p) (j ∷ q) (z ∷ k) u v a x y =
    ground (arith, agree_next p q k u v, option_rank_injective z i, option_rank_injective z j)

abbrev pub patterns_all : Subscriptions → List (List (Option ℕ)) → BTreeMap (Option ℕ) Pattern
patterns_all s paths = (declare_all s paths).patterns

-- A stored wildcard mark stays, where the paths declared later agree with it.
wildcard_kept :
    (paths : List (List (Option ℕ))) (s : Subscriptions) (p k : List (Option ℕ)) (i : Option ℕ)
    → agree_all p paths ≡ true
    → next_after k p ≡ some i
    → wildcard_of (get k s.patterns) ≡ some (is_none i)
    → wildcard_of (get k (patterns_all s paths)) ≡ some (is_none i)
unfolding declare_all agree_all
wildcard_kept [] s p k i a n h = h
wildcard_kept (q ∷ paths) s p k i a n h = wildcard_kept paths (declare s q) p k i (ground arith) n (
    rw (wildcard-declare s q k) (elim (Option-cases (next_after k q)) [
      | inl e ↦ rw e h
      | inr (j, e) ↦ rw e (ap some (sym (agree_next p q k i j (ground arith) n e)))
    ]))

pub wildcard_stored :
    (paths : List (List (Option ℕ))) (s : Subscriptions) (p k : List (Option ℕ)) (i : Option ℕ)
    → consistent paths ≡ true
    → In p paths
    → next_after k p ≡ some i
    → wildcard_of (get k (patterns_all s paths)) ≡ some (is_none i)
unfolding declare_all consistent
wildcard_stored [] s p k i c h n = absurd h
wildcard_stored (q ∷ paths) s p k i c (inl e) n =
    wildcard_kept paths (declare s q) q k i (ground arith) (rw e at n)
      (rw (wildcard-declare s q k, rw e at n))
wildcard_stored (q ∷ paths) s p k i c (inr h) n =
    wildcard_stored paths (declare s q) p k i (ground arith) h n

declare-nil : (s : Subscriptions) → declare s [] ≡ s
unfolding declare
declare-nil s = refl

declared_kept :
    (paths : List (List (Option ℕ))) (s : Subscriptions) (k : List (Option ℕ))
    → is_declared (get k s.patterns) ≡ true
    → is_declared (get k (patterns_all s paths)) ≡ true
unfolding declare_all
declared_kept [] s k h = h
declared_kept ([] ∷ paths) s k h = rw (patterns_all, declare-nil s) (declared_kept paths s k h)
declared_kept ((i ∷ q) ∷ paths) s k h =
    declared_kept paths (declare s (i ∷ q)) k (ground (arith, declared-declare s i q k))

pub declared_stored :
    (paths : List (List (Option ℕ))) (s : Subscriptions) (p : List (Option ℕ))
    → In p paths
    → is_declared (get [] s.patterns) ≡ true
    → is_declared (get p (patterns_all s paths)) ≡ true
unfolding declare_all
declared_stored [] s p h r = absurd h
declared_stored ([] ∷ paths) s p (inl e) r = rw e (declared_kept ([] ∷ paths) s [] r)
declared_stored ((i ∷ q) ∷ paths) s p (inl e) r =
    declared_kept paths (declare s (i ∷ q)) p (ground (arith, declared-declare s i q p, eq_refl p))
declared_stored ([] ∷ paths) s p (inr h) r =
    rw (patterns_all, declare-nil s) (declared_stored paths s p h r)
declared_stored ((i ∷ q) ∷ paths) s p (inr h) r =
    declared_stored paths (declare s (i ∷ q)) p h (ground (arith, declared-declare s i q []))

pub declared_only :
    (paths : List (List (Option ℕ))) (s : Subscriptions) (k : List (Option ℕ))
    → is_declared (get k (patterns_all s paths)) ≡ true
    → (is_declared (get k s.patterns) ≡ true) ⊎ In k paths
unfolding declare_all
declared_only [] s k h = inl h
declared_only ([] ∷ paths) s k h =
    elim (declared_only paths s k
      (subst (λ x. is_declared (get k (patterns_all x paths)) ≡ true) (declare-nil s) h)) [
        | inl a ↦ inl a
        | inr b ↦ inr (inr b)
      ]
declared_only ((i ∷ q) ∷ paths) s k h = elim (declared_only paths (declare s (i ∷ q)) k h) [
  | inl a ↦ ground (arith, declared-declare s i q k, eq→≡ (i ∷ q) k)
  | inr b ↦ inr (inr b)
]
