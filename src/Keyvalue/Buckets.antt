-- ===== src/Keyvalue/Buckets.antt =====
-- What each call does to the values of all keys of all buckets.
use wrpc.Prelude.{
  ℕ, zero, suc, ◌<◌, ◌≡◌, refl, sym, ◌∙◌, ap, List, [], ◌∷◌, ◌++◌, Option, none, some, Bytes, ◌==◌,
  if◌then◌else◌, length, get_or, arith, length-append, inl, inr, Option-cases, Bool-cases,
}
use wrpc.BTree.{ℕ_ord, eq, get, insert}
use wrpc.BTree.Order.{eq_refl, eq→≡}
use wrpc.BTree.Laws.{IsSorted, get-insert}
use wrpc.Keyvalue.{Bucket, Handler, contents, set_at, write, or_default}
use wrpc.Keyvalue.Spec.{opened}

-- The value of a key of a bucket, by what the bucket's identifier refers to.
abbrev pub view_at : Handler → Bytes → Option ℕ → Option (Option Bytes)
view_at s k none = none
view_at s k (some r) = some (get k (contents s r))

unfoldable pub view : Handler → Bytes → Bytes → Option (Option Bytes)
view s i k = view_at s k (get i s.buckets)

-- Each reference is to a bucket, of one identifier only.
pub record Inv (s : Handler) : Type 0 where
  pub bounded : (i : Bytes) (r : ℕ) → get i s.buckets ≡ some r → r < length s.heap
  pub distinct : (i j : Bytes) (r : ℕ) → get i s.buckets ≡ some r → get j s.buckets ≡ some r → i ≡ j
  pub sorted : (r : ℕ) → IsSorted (contents s r)

pub unopened_lem : (s : Handler) (i k : Bytes) → get i s.buckets ≡ none → view s i k ≡ none
unfolding view
unopened_lem s i k e = ap (view_at s k) e

pub opened_lem :
    (s : Handler) (i k : Bytes) (r : ℕ)
    → get i s.buckets ≡ some r
    → view s i k ≡ some (get k (contents s r))
unfolding view
opened_lem s i k r e = ap (view_at s k) e

-- Two states with the same reference, and the same bucket behind it.
view_at-eq :
    (s t : Handler) (k : Bytes) (o : Option ℕ)
    → ((r : ℕ) → o ≡ some r → contents t r ≡ contents s r)
    → view_at t k o ≡ view_at s k o
view_at-eq s t k none h = refl
view_at-eq s t k (some r) h = ap (λ b. some (get k b)) (h r refl)

view-eq :
    (s t : Handler) (i k : Bytes)
    → get i t.buckets ≡ get i s.buckets
    → ((r : ℕ) → get i s.buckets ≡ some r → contents t r ≡ contents s r)
    → view t i k ≡ view s i k
unfolding view
view-eq s t i k e h = ap (view_at t k) e ∙ view_at-eq s t k (get i s.buckets) h

pub get_nil : {V : Type 0} (k : Bytes) → get {V = V} k [] ≡ none
unfolding get
get_nil k = refl

length-set_at : (r : ℕ) (b : Bucket) (heap : List Bucket) → length (set_at r b heap) ≡ length heap
unfolding set_at
length-set_at r b [] = refl
length-set_at zero b (c ∷ heap) = refl
length-set_at (suc r) b (c ∷ heap) = ap suc (length-set_at r b heap)

get_or-set_at :
    (r q : ℕ) (b : Bucket) (heap : List Bucket)
    → r < length heap
    → get_or (set_at r b heap) q [] ≡ (if r == q then b else get_or heap q [])
unfolding set_at
get_or-set_at r q b [] h = absurd (omega arith)
get_or-set_at zero zero b (c ∷ heap) h = refl
get_or-set_at zero (suc q) b (c ∷ heap) h = ground arith
get_or-set_at (suc r) zero b (c ∷ heap) h = ground arith
get_or-set_at (suc r) (suc q) b (c ∷ heap) h =
    ground (arith, get_or-set_at r q b heap (omega arith))

-- A new bucket is empty, as is what no reference is to.
get_or-append : (q : ℕ) (heap : List Bucket) → get_or (heap ++ [] ∷ []) q [] ≡ get_or heap q []
get_or-append zero [] = refl
get_or-append (suc q) [] = refl
get_or-append zero (c ∷ heap) = refl
get_or-append (suc q) (c ∷ heap) = get_or-append q heap

get_or_beyond : (heap : List Bucket) → get_or heap (length heap) [] ≡ []
get_or_beyond [] = refl
get_or_beyond (c ∷ heap) = get_or_beyond heap

abbrev pub created : Bytes → Handler → Handler
created i s = record { buckets = insert i (length s.heap) s.buckets; heap = s.heap ++ [] ∷ [] }

pub get-created :
    (s : Handler) (i j : Bytes)
    → get j (created i s).buckets ≡ (if eq i j then some (length s.heap) else get j s.buckets)
get-created s i j = get-insert i j (length s.heap) s.buckets

view-created :
    (s : Handler) (i j k : Bytes)
    → get i s.buckets ≡ none
    → view (created i s) j k ≡ (if eq i j then opened (view s j k) else view s j k)
view-created s i j k e = elim (Bool-cases (eq i j)) [
  | inl same ↦
      let here : get j (created i s).buckets ≡ some (length s.heap) =
        get-created s i j ∙ rw (same) refl in
      let before : view s j k ≡ none =
        unopened_lem s j k (ap (λ q. get q s.buckets) (sym (eq→≡ i j same)) ∙ e) in
      let empty : contents (created i s) (length s.heap) ≡ [] =
        get_or-append (length s.heap) s.heap ∙ get_or_beyond s.heap in
      rw (same, before)
        (opened_lem (created i s) j k (length s.heap) here
          ∙ ap (λ b. some (get k b)) empty
          ∙ ap some (get_nil k))
  | inr differs ↦
      let here : get j (created i s).buckets ≡ get j s.buckets =
        get-created s i j ∙ rw (differs) refl in
      rw (differs) (view-eq s (created i s) j k here (λ r h. get_or-append r s.heap))
]

-- Opening a bucket makes it, if it is not there, without values, and leaves all others alone.
pub view-or_default :
    (s : Handler) (i j k : Bytes)
    → view (or_default i s) j k ≡ (if eq i j then opened (view s j k) else view s j k)
unfolding or_default
view-or_default s i j k = elim (Option-cases (get i s.buckets)) [
  | inl e ↦ rw (e) (view-created s i j k e)
  | inr (r, e) ↦ elim (Bool-cases (eq i j)) [
    | inl same ↦
        let before : view s j k ≡ some (get k (contents s r)) =
          opened_lem s j k r (ap (λ q. get q s.buckets) (sym (eq→≡ i j same)) ∙ e) in
        rw (e, same, before) refl
    | inr differs ↦ rw (e, differs) refl
  ]
]

-- Writing through a reference changes one bucket.
pub view-write :
    (s : Handler) (i j k : Bytes) (r : ℕ) (b : Bucket)
    → Inv s
    → get i s.buckets ≡ some r
    → view (write s r b) j k ≡ (if eq i j then some (get k b) else view s j k)
view-write s i j k r b inv e = elim (Bool-cases (eq i j)) [
  | inl same ↦
      let there : get j s.buckets ≡ some r = ap (λ q. get q s.buckets) (sym (eq→≡ i j same)) ∙ e in
      let new : contents (write s r b) r ≡ b =
        get_or-set_at r r b s.heap (inv.bounded i r e) ∙ ground arith in
      rw (same) (opened_lem (write s r b) j k r there ∙ ap (λ c. some (get k c)) new)
  | inr differs ↦ rw (differs) (
      view-eq s (write s r b) j k refl (λ q h.
        get_or-set_at r q b s.heap (inv.bounded i r e) ∙ (elim (Bool-cases (r == q)) [
          | inl at ↦
              let i≡j : i ≡ j = inv.distinct i j r e (ground arith) in
              absurd (ground (arith, eq_refl i))
          | inr at ↦ rw (at) refl
        ])))
]

pub new-Inv : Inv (record { buckets = []; heap = [] })
unfolding get
new-Inv = record { bounded = λ i r h. cc; distinct = λ i j r h k. cc; sorted = λ r. tt }

pub write-Inv :
    (s : Handler) (r : ℕ) (b : Bucket) → Inv s → r < length s.heap → IsSorted b → Inv (write s r b)
write-Inv s r b inv l h = record {
  bounded = λ i q e. ground (arith, length-set_at r b s.heap, inv.bounded i q e);
  distinct = inv.distinct;
  sorted = λ q. elim (Bool-cases (r == q)) [
    | inl at ↦ rw (get_or-set_at r q b s.heap l, at) h
    | inr at ↦ rw (get_or-set_at r q b s.heap l, at) (inv.sorted q)
  ];
}

created-Inv : (s : Handler) (i : Bytes) → Inv s → Inv (created i s)
created-Inv s i inv = record {
  bounded =
      λ j r e. ground (arith, get-created s i j, inv.bounded j r, length-append s.heap ([] ∷ []));
  distinct = λ j k r e f. ground (
    arith,
    get-created s i j,
    get-created s i k,
    inv.distinct j k r,
    inv.bounded j r,
    inv.bounded k r,
    eq→≡ i j,
    eq→≡ i k,
  );
  sorted = λ r. rw (get_or-append r s.heap) (inv.sorted r);
}

pub or_default-Inv : (s : Handler) (i : Bytes) → Inv s → Inv (or_default i s)
unfolding or_default
or_default-Inv s i inv = elim (Option-cases (get i s.buckets)) [
  | inl e ↦ rw (e) (created-Inv s i inv)
  | inr (r, e) ↦ rw (e) inv
]
