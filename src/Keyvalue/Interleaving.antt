-- ===== src/Keyvalue/Interleaving.antt =====
-- Calls of several clients on the store of crates/wasi-keyvalue-mem/src/lib.rs at the same time. A
-- call looks a bucket up under one lock and uses it under another, so the steps of other calls may
-- come in between.
use wrpc.Prelude.{
  ℕ, ◌<◌, ◌≡◌, refl, sym, ◌∙◌, ap, some, Bytes, if◌then◌else◌, length, arith, inl, inr,
  Option-cases, Bool-cases,
}
use wrpc.BTree.{ℕ_ord, eq, get, insert, remove}
use wrpc.BTree.Order.{eq→≡}
use wrpc.BTree.Laws.{get-insert, insert-IsSorted, remove-IsSorted}
use wrpc.Keyvalue.{Handler, value, contents, write, or_default, get_value, set_in, delete_in, set}
use wrpc.Keyvalue.Spec.{in_bucket}
use wrpc.Keyvalue.Buckets.{
  Inv, view, opened_lem, view-write, write-Inv, or_default-Inv, get-created,
}

-- The steps that change the state: `open` with the lock for writing, and `set` and `delete` with a
-- reference to a bucket that was looked up in an earlier step.
pub data Step : Handler → Handler → Type 0 where
  opens : {s : Handler} (i : Bytes) → Step s (or_default i s)
  sets : {s : Handler} (r : ℕ) (k v : Bytes) → r < length s.heap → Step s (set_in s r k v).1
  deletes : {s : Handler} (r : ℕ) (k : Bytes) → r < length s.heap → Step s (delete_in s r k).1

pub data Steps : Handler → Handler → Type 0 where
  stay : {s : Handler} → Steps s s
  step : {s t u : Handler} → Step s t → Steps t u → Steps s u

Step-Inv : {s t : Handler} → Step s t → Inv s → Inv t
unfolding set_in delete_in
Step-Inv (opens {s} i) inv = or_default-Inv s i inv
Step-Inv (sets {s} r k v l) inv =
    write-Inv s r (insert k v (contents s r)) inv l
      (insert-IsSorted k v (contents s r) (inv.sorted r))
Step-Inv (deletes {s} r k l) inv =
    write-Inv s r (remove k (contents s r)) inv l (remove-IsSorted k (contents s r) (inv.sorted r))

or_default-get :
    (s : Handler) (i j : Bytes) (r : ℕ)
    → get j s.buckets ≡ some r
    → get j (or_default i s).buckets ≡ some r
unfolding or_default
or_default-get s i j r e = elim (Option-cases (get i s.buckets)) [
  | inl f ↦ rw (f) (ground (arith, get-created s i j, eq→≡ i j))
  | inr (q, f) ↦ rw (f) e
]

-- A step leaves each reference as it is.
Step-get :
    {s t : Handler} (i : Bytes) (r : ℕ)
    → Step s t
    → get i s.buckets ≡ some r
    → get i t.buckets ≡ some r
unfolding set_in delete_in
Step-get i r (opens {s} j) e = or_default-get s j i r e
Step-get i r (sets q k v l) e = e
Step-get i r (deletes q k l) e = e

Steps-get :
    {s t : Handler} (i : Bytes) (r : ℕ)
    → Steps s t
    → Inv s
    → get i s.buckets ≡ some r
    → Inv t × (get i t.buckets ≡ some r)
Steps-get i r stay inv e = (inv, e)
Steps-get i r (step h hs) inv e = Steps-get i r hs (Step-Inv h inv) (Step-get i r h e)

get_value-view : (s : Handler) (i k : Bytes) → (get_value s i k).0 ≡ in_bucket (view s i k) value
unfolding get_value view
get_value-view s i k = elim (Option-cases (get i s.buckets)) [
  | inl e ↦ rw (e) refl
  | inr (r, e) ↦ rw (e) refl
]

-- Where a call of `set` looked its bucket up, and other clients take any steps before it writes:
-- what it does then is what a whole call of `set` does at that time. After it the value is what a
-- `get` of the bucket and the key answers, whoever looks it up, and for any other key or bucket
-- `get` answers as before.
pub set_seen :
    {s t : Handler} (i k v : Bytes) (r : ℕ)
    → Inv s
    → get i s.buckets ≡ some r
    → Steps s t
    → (j l : Bytes)
    → (set_in t r k v ≡ set t i k v)
      × ((get_value (set t i k v).1 j l).0 ≡ (
          if eq i j
          then (if eq k l then value (some v) else (get_value t j l).0)
          else (get_value t j l).0))
unfolding set set_in
set_seen {s} {t} i k v r inv e steps j l =
    let (inv', e') = Steps-get i r steps inv e in
    let b = insert k v (contents t r) in
    let whole : set_in t r k v ≡ set t i k v = rw (e') refl in
    let seen = view-write t i j l r b inv' e' in
    (
      whole,
      ap (λ x. (get_value x.1 j l).0) (sym whole)
          ∙ rw (get_value-view (write t r b) j l, get_value-view t j l, seen)
              (elim (Bool-cases (eq i j)) [
                | inl same ↦
                    let there : view t j l ≡ some (get l (contents t r)) =
                      opened_lem t j l r (ap (λ q. get q t.buckets) (sym (eq→≡ i j same)) ∙ e') in
                    rw (same, there, get-insert k l v (contents t r))
                      (elim (Bool-cases (eq k l)) [
                        | inl key ↦ rw (key) refl
                        | inr key ↦ rw (key) refl
                      ])
                | inr differs ↦ rw (differs) refl
              ]),
    )
