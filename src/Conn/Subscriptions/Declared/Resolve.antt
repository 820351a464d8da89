-- ===== src/Conn/Subscriptions/Declared/Resolve.antt =====
-- `resolve` of conn/mod.rs finds, for a received path, the declared path that it matches.
use wrpc.Prelude.{
  ℕ, ◌≡◌, refl, sym, subst, ◌∙◌, ◌⊎◌, inl, inr, Bool, true, false, List, [], ◌∷◌, ◌++◌,
  append_assoc, append-nil, Option, none, some, arith, if◌then◌else◌, is_none, Option-cases,
}
use wrpc.BTree.{option_ord, BTreeMap, get, eq}
use wrpc.Conn.Subscriptions.{Pattern, is_declared, root_only, new, resolve_from, resolve}
use wrpc.Conn.Subscriptions.Declared.{Matches, In, consistent, next_after}
use wrpc.Conn.Subscriptions.Declared.Stored.{wildcard_of}
use wrpc.Conn.Subscriptions.Declared.All.{
  patterns_all, wildcard_stored, declared_stored, declared_only,
}

append-cons :
    (before q : List (Option ℕ)) (x : Option ℕ) → before ++ x ∷ q ≡ (before ++ x ∷ []) ++ q
append-cons before q x = sym (append_assoc before (x ∷ []) q)

-- The next element of a path after a part of it.
next_after_part :
    (before q : List (Option ℕ)) (x : Option ℕ) → next_after before (before ++ x ∷ q) ≡ some x
unfolding next_after
next_after_part [] q x = refl
next_after_part (y ∷ before) q x = ground (arith, next_after_part before q x)

resolve_from_wild :
    (m : BTreeMap (Option ℕ) Pattern) (o : Option Pattern) (before : List (Option ℕ)) (w : Bool)
    (i : ℕ) (path : List ℕ)
    → wildcard_of o ≡ some w
    → resolve_from m o before (i ∷ path)
      ≡ resolve_from m
          (get (before ++ (if w then none else some i) ∷ []) m)
          (before ++ (if w then none else some i) ∷ [])
          path
unfolding resolve_from
resolve_from_wild m none before w i path h = cc
resolve_from_wild m (some n) before w i path h = rw h

resolve_from_end :
    (m : BTreeMap (Option ℕ) Pattern) (o : Option Pattern) (before : List (Option ℕ))
    → is_declared o ≡ true
    → (n : Pattern) × (resolve_from m o before [] ≡ some (n, before)) × (n.declared ≡ true)
unfolding resolve_from
resolve_from_end m none before h = cc
resolve_from_end m (some n) before h = (n, refl, h)

module _ (m : BTreeMap (Option ℕ) Pattern) (p : List (Option ℕ))
    (wild : (k : List (Option ℕ)) (i : Option ℕ)
      → next_after k p ≡ some i
      → wildcard_of (get k m) ≡ some (is_none i))
    (decl : is_declared (get p m) ≡ true) where
  -- At a part `before` of a declared path `p`, the rest `q` of which matches `path`.
  resolve_from-Matches :
      (before q : List (Option ℕ)) (path : List ℕ)
      → p ≡ before ++ q
      → Matches q path
      → (n : Pattern) × (resolve_from m (get before m) before path ≡ some (n, p))
        × (n.declared ≡ true)
  resolve_from-Matches before [] [] e h =
      subst
        (λ b. (n : Pattern) × (resolve_from m (get b m) b [] ≡ some (n, p)) × (n.declared ≡ true))
        (e ∙ append-nil before) (resolve_from_end m (get p m) p decl)
  resolve_from-Matches before [] (i ∷ path) e h = absurd h
  resolve_from-Matches before (none ∷ q) [] e h = absurd h
  resolve_from-Matches before (some j ∷ q) [] e h = absurd h
  resolve_from-Matches before (none ∷ q) (i ∷ path) e h =
      rw
        (resolve_from_wild m (get before m) before true i path
          (wild before none (rw e (next_after_part before q none))))
        (resolve_from-Matches (before ++ none ∷ []) q path (e ∙ append-cons before q none) h)
  resolve_from-Matches before (some j ∷ q) (i ∷ path) e h =
      rw
        (resolve_from_wild m (get before m) before false i path
          (wild before (some j) (rw e (next_after_part before q (some j)))))
        (rw (← h.0) (
          resolve_from-Matches (before ++ some j ∷ []) q path (e ∙ append-cons before q (some j))
            h.1))

resolve_from_stop :
    (m : BTreeMap (Option ℕ) Pattern) (o : Pattern) (before : List (Option ℕ)) (i : ℕ)
    (path : List ℕ)
    → o.wildcard ≡ none
    → resolve_from m (some o) before (i ∷ path) ≡ none
unfolding resolve_from
resolve_from_stop m o before i path h = rw h

abbrev step_to : Bool → ℕ → Option ℕ
step_to w i = if w then none else some i

Matches-step :
    (w : Bool) (i : ℕ) (q : List (Option ℕ)) (path : List ℕ)
    → Matches q path
    → Matches (step_to w i ∷ q) (i ∷ path)
Matches-step true i q path h = h
Matches-step false i q path h = (refl, h)

-- What `resolve_from` finds is stored, begins with `before` and matches the path behind that.
abbrev Found :
    BTreeMap (Option ℕ) Pattern → List (Option ℕ) → List ℕ → Pattern → List (Option ℕ) → Type 0
Found m before path n p =
    (q : List (Option ℕ)) × (p ≡ before ++ q) × Matches q path × (get p m ≡ some n)

resolve_from_sound :
    (m : BTreeMap (Option ℕ) Pattern) (o : Option Pattern) (before : List (Option ℕ))
    (path : List ℕ) (n : Pattern) (p : List (Option ℕ))
    → o ≡ get before m
    → resolve_from m o before path ≡ some (n, p)
    → Found m before path n p
resolve_from_sound m none before path n p g e = unfold resolve_from in cc
resolve_from_sound m (some o) before [] n p g e =
    unfold resolve_from in ([], ground (arith, append-nil before), tt, ground arith)
resolve_from_sound m (some o) before (i ∷ path) n p g e = elim (Option-cases o.wildcard) [
  | inl stop ↦ cc (resolve_from_stop m o before i path stop)
  | inr (w, go_on) ↦
      let before' = before ++ step_to w i ∷ [] in
      let (q, eq_p, match, stored) =
        resolve_from_sound m (get before' m) before' path n p refl
          (sym (resolve_from_wild m (some o) before w i path go_on) ∙ e) in
      (
        step_to w i ∷ q,
        eq_p ∙ sym (append-cons before q (step_to w i)),
        Matches-step w i q path match,
        stored,
      )
]

root_declared : (root : ℕ) → is_declared (get [] (root_only root).patterns) ≡ true
unfolding get eq
root_declared root = refl

root_declared_only :
    (root : ℕ) (k : List (Option ℕ)) → is_declared (get k (root_only root).patterns) ≡ true → k ≡ []
unfolding get eq
root_declared_only root [] h = refl
root_declared_only root (x ∷ k) h = cc

-- For paths that do not have both a wildcard and an index at one position, a received path that
-- matches one of the declared paths is resolved to exactly that path, as a declared one.
pub resolve-Matches :
    (paths : List (List (Option ℕ))) (root : ℕ) (p : List (Option ℕ)) (path : List ℕ)
    → consistent paths ≡ true
    → In p paths
    → Matches p path
    → (n : Pattern) × (resolve (new paths root) path ≡ some (n, p)) × (n.declared ≡ true)
unfolding resolve new
resolve-Matches paths root p path c h m =
    let s = root_only root in
    resolve_from-Matches (patterns_all s paths) p (λ k i. wildcard_stored paths s p k i c h)
      (declared_stored paths s p h (root_declared root)) [] p path refl m

-- A received path that is resolved to a declared path matches it, and that path is the root or
-- one of those given to `new`, whatever these are.
pub resolve_sound :
    (paths : List (List (Option ℕ))) (root : ℕ) (path : List ℕ) (n : Pattern) (p : List (Option ℕ))
    → resolve (new paths root) path ≡ some (n, p)
    → n.declared ≡ true
    → Matches p path × ((p ≡ []) ⊎ In p paths)
unfolding resolve new
resolve_sound paths root path n p e d =
    let s = root_only root in
    let (q, eq_p, match, stored) = resolve_from_sound (patterns_all s paths) _ [] path n p refl e in
    (
      rw eq_p match,
      elim (declared_only paths s p (rw stored d)) [
        | inl r ↦ inl (root_declared_only root p r)
        | inr h ↦ inr h
      ],
    )
