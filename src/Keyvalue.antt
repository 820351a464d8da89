-- ===== src/Keyvalue.antt =====
-- The key-value store in memory of crates/wasi-keyvalue-mem/src/lib.rs. A bucket is shared: the
-- handler keeps references to buckets, which stand in a heap. `HashMap` is the list of its entries;
-- the order in which they are is not relied on.
pub mod Spec
pub mod Buckets
pub mod Refines
pub mod Interleaving
use wrpc.Prelude.{
  ℕ, zero, suc, Bool, List, [], ◌∷◌, ◌++◌, map, Option, none, some, Bytes, if◌then◌else◌, length,
  drop, get_or,
}
use wrpc.BTree.{BTreeMap, ℕ_ord, get, insert, remove, contains_key}

abbrev pub Bucket : Type 0
Bucket = BTreeMap ℕ Bytes

-- `Handler`: the references by identifier, and what they refer to.
pub record Handler : Type 0 where
  pub buckets : BTreeMap ℕ ℕ
  pub heap : List Bucket

-- `Handler::default`.
abbrev pub default : Handler
default = record { buckets = []; heap = [] }

-- `store::Error`.
pub data StoreError : Type 0 where
  no_such_store : StoreError
  access_denied : StoreError
  other : StoreError

-- What a call returns, by its two results: `handle` to `listed` are `Ok(Ok(..))`, `refused` is
-- `Ok(Err(..))`, which the client gets as the answer, and `failed` is the outer `Err(..)`, with
-- which the invocation fails without an answer.
pub data Answer : Type 0 where
  handle : Bytes → Answer
  value : Option Bytes → Answer
  done : Answer
  found : Bool → Answer
  listed : List Bytes → Answer
  refused : StoreError → Answer
  failed : StoreError → Answer

-- What a reference refers to, and writing through it.
abbrev pub contents : Handler → ℕ → Bucket
contents s r = get_or s.heap r []

unfoldable pub set_at : ℕ → Bucket → List Bucket → List Bucket
set_at r b [] = []
set_at zero b (c ∷ heap) = b ∷ heap
set_at (suc r) b (c ∷ heap) = c ∷ set_at r b heap

abbrev pub write : Handler → ℕ → Bucket → Handler
write s r b = record s { heap = set_at r b s.heap }

-- `or_default` on an entry that is there or not.
abbrev pub or_default_at : Bytes → Handler → Option ℕ → Handler
or_default_at identifier s none = record {
  buckets = insert identifier (length s.heap) s.buckets;
  heap = s.heap ++ [] ∷ [];
}
or_default_at identifier s (some r) = s

-- `store.entry(identifier).or_default()`.
unfoldable pub or_default : Bytes → Handler → Handler
or_default identifier s = or_default_at identifier s (get identifier s.buckets)

unfoldable pub open_bucket : Handler → Bytes → Answer × Handler
open_bucket s identifier =
    if contains_key identifier s.buckets
    then (handle identifier, s)
    else (handle identifier, or_default identifier s)

-- `self.bucket(bucket).await?` and what is done with the bucket, by what the look up gives: the
-- `?` hands on the error of `bucket` as the outer one.
abbrev pub on_bucket : Handler → Option ℕ → (ℕ → Answer × Handler) → Answer × Handler
on_bucket s none next = (failed no_such_store, s)
on_bucket s (some r) next = next r

abbrev pub with_bucket : Handler → Bytes → (ℕ → Answer × Handler) → Answer × Handler
with_bucket s bucket next = on_bucket s (get bucket s.buckets) next

unfoldable pub get_value : Handler → Bytes → Bytes → Answer × Handler
get_value s bucket key = with_bucket s bucket (λ r. (value (get key (contents s r)), s))

-- `set` and `delete` once they hold the lock of the bucket that they looked up.
unfoldable pub set_in : Handler → ℕ → Bytes → Bytes → Answer × Handler
set_in s r key v = (done, write s r (insert key v (contents s r)))

unfoldable pub delete_in : Handler → ℕ → Bytes → Answer × Handler
delete_in s r key = (done, write s r (remove key (contents s r)))

unfoldable pub set : Handler → Bytes → Bytes → Bytes → Answer × Handler
set s bucket key v = with_bucket s bucket (λ r. set_in s r key v)

unfoldable pub delete : Handler → Bytes → Bytes → Answer × Handler
delete s bucket key = with_bucket s bucket (λ r. delete_in s r key)

unfoldable pub exists : Handler → Bytes → Bytes → Answer × Handler
exists s bucket key = with_bucket s bucket (λ r. (found (contains_key key (contents s r)), s))

-- `parse` is that of `usize`.
unfoldable pub list_keys : (Bytes → Option ℕ) → Handler → Bytes → Option Bytes → Answer × Handler
list_keys parse s bucket none =
    with_bucket s bucket (λ r. (listed (map (λ e. e.0) (contents s r)), s))
list_keys parse s bucket (some cursor) = with_bucket s bucket (λ r. elim (parse cursor) [
  | none ↦ (failed other, s)
  | some n ↦ (listed (drop n (map (λ e. e.0) (contents s r))), s)
])
