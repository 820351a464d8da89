-- ===== src/Conn/Subscriptions/Invariant/Operations.antt =====
-- Every operation of `Subscriptions` of conn/mod.rs keeps the invariant.
use wrpc.Prelude.{
  ℕ, suc, ◌-◌, inl, inr, Bool, false, ◌==◌, List, [], ◌∷◌, Bool-cases, Option-cases, ltb, max,
}
use wrpc.BTree.{ℕ_ord, get, insert}
use wrpc.BTree.Laws.{insert-IsSorted}
use wrpc.Conn.Nested.{remove_nested, remove_nested-IsSorted}
use wrpc.Conn.Subscriptions.{
  Subscription, Subscriptions, Element, element_path, elements, next_of, subscribe, modify, resolve,
}
use wrpc.Conn.Subscriptions.Indexing.{
  claim, index_element, index_elements, remove, remove_each, skip_element, skip_elements,
  skip_resolved, skip, release_elements, release_resolved, release, retain_elements,
  retain_resolved, retain, saturating_suc,
}
use wrpc.Conn.Subscriptions.Invariant.{Owners, Inv}
use wrpc.Conn.Subscriptions.Invariant.Primitives.{
  written-Inv, subscribe-Inv, Lessens, modify-Inv, reset-Inv, without-Inv,
}

claim-Lessens : Lessens claim
claim-Lessens sub = (λ c e. e, λ c e. e)

index_element-Inv :
    {H : Owners} (s : Subscriptions) (e : Element) → Inv H s → Inv H (index_element s e)
unfolding index_element
index_element-Inv s e v =
    let s1 = subscribe s (element_path e) e.pattern in
    let s2 = modify (element_path e) claim s1 in
    let v2 =
      modify-Inv s1 (element_path e) claim claim-Lessens
        (subscribe-Inv s (element_path e) e.pattern v) in
    reset-Inv s2
      (insert e.container (max (next_of s2 e.container) (saturating_suc e.position)) s2.next)
      s2.unclaimed_closed (suc s2.indexed) v2 (insert-IsSorted e.container _ s2.next v2.next_sorted)

pub index_elements-Inv :
    {H : Owners} (es : List Element) (s : Subscriptions) → Inv H s → Inv H (index_elements s es)
unfolding index_elements
index_elements-Inv [] s v = v
index_elements-Inv (e ∷ es) s v =
    index_elements-Inv es (index_element s e) (index_element-Inv s e v)

retain_elements-Inv :
    {H : Owners} (es : List Element) (s : Subscriptions) → Inv H s → Inv H (retain_elements es s)
unfolding retain_elements
retain_elements-Inv [] s v = v
retain_elements-Inv (e ∷ es) s v =
    retain_elements-Inv es _ (modify-Inv s (element_path e) _ (λ sub. (λ c e. e, λ c e. e)) v)

pub retain-Inv : {H : Owners} (s : Subscriptions) (path : List ℕ) → Inv H s → Inv H (retain s path)
unfolding retain retain_resolved
retain-Inv s path v = elim (Option-cases (resolve s path)) [
  | inl e ↦ rw (e, retain_resolved) v
  | inr ((p, pattern), e) ↦
      rw (e, retain_resolved) (retain_elements-Inv (elements [] [] path pattern) s v)
]

module _ (held : ℕ → Bool) where
  remove-Inv :
      {H : Owners} (s : Subscriptions) (path : List ℕ) → Inv H s → Inv H (remove held s path).1
  unfolding remove
  remove-Inv s path v =
      reset-Inv _ (remove_nested s.next path).1 s.unclaimed_closed (suc s.indexed)
        (without-Inv s path v) (remove_nested-IsSorted s.next path v.next_sorted)

  remove_each-Inv :
      {H : Owners} (ps : List (List ℕ)) (b : Bool) (s : Subscriptions)
      → Inv H s
      → Inv H (remove_each held ps b s).1
  unfolding remove_each
  remove_each-Inv [] b s v = v
  remove_each-Inv (p ∷ ps) b s v = remove_each-Inv ps _ (remove held s p).1 (remove-Inv s p v)

  skip_element-Inv :
      {H : Owners} (e : Element) (b : Bool) (s : Subscriptions)
      → Inv H s
      → Inv H (skip_element held e b s).1
  unfolding skip_element
  skip_element-Inv e b s v = elim (Bool-cases (ltb (next_of s e.container) e.position)) [
    | inl ahead ↦ rw ahead (remove_each-Inv _ b s v)
    | inr behind ↦ rw behind v
  ]

  skip_elements-Inv :
      {H : Owners} (es : List Element) (b : Bool) (s : Subscriptions)
      → Inv H s
      → Inv H (skip_elements held es b s).1
  unfolding skip_elements
  skip_elements-Inv [] b s v = v
  skip_elements-Inv (e ∷ es) b s v = skip_elements-Inv es _ _ (skip_element-Inv e b s v)

  pub skip-Inv :
      {H : Owners} (s : Subscriptions) (path : List ℕ) → Inv H s → Inv H (skip held s path).1
  unfolding skip skip_resolved
  skip-Inv s path v = elim (Option-cases (resolve s path)) [
    | inl e ↦ rw (e, skip_resolved) v
    | inr ((p, pattern), e) ↦
        rw (e, skip_resolved) (skip_elements-Inv (elements [] [] path pattern) false s v)
  ]

  abbrev lowered : Subscription → Subscription
  lowered sub = record sub { handles = sub.handles - 1 }

  release_elements-Inv :
      {H : Owners} (es : List Element) (s : Subscriptions)
      → Inv H s
      → Inv H (release_elements held es s).1
  unfolding release_elements
  release_elements-Inv [] s v = v
  release_elements-Inv {H = H} (e ∷ es) s v = elim (Option-cases (get (element_path e) s.subs)) [
    | inl miss ↦ rw (miss, release_elements) v
    | inr (sub, hit) ↦
        (let s' = record s { subs = insert (element_path e) (lowered sub) s.subs } in
          let v' : Inv H s' =
            written-Inv s (element_path e) (lowered sub) v (rw hit (λ c q. q, λ c q. q)) in
          rw (hit, release_elements)
            (elim (Bool-cases (sub.handles - 1 == 0)) [
              | inl last ↦ rw last (remove-Inv s' (element_path e) v')
              | inr more ↦ rw more (release_elements-Inv es s' v')
            ]))
  ]

  pub release-Inv :
      {H : Owners} (s : Subscriptions) (path : List ℕ) → Inv H s → Inv H (release held s path).1
  unfolding release release_resolved
  release-Inv s path v = elim (Option-cases (resolve s path)) [
    | inl e ↦ rw (e, release_resolved) v
    | inr ((p, pattern), e) ↦
        rw (e, release_resolved) (release_elements-Inv (elements [] [] path pattern) s v)
  ]
