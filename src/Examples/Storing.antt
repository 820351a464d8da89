-- ===== src/Examples/Storing.antt =====
-- Runs of the key-value store of crates/wasi-keyvalue-mem/src/lib.rs.
use wrpc.Prelude.{◌≡◌, refl, false, List, [], ◌∷◌, none, some, Bytes, if◌then◌else◌}
use wrpc.BTree.{ℕ_ord, eq, lt, get, insert, remove}
use wrpc.Keyvalue.{
  Handler, handle, value, done, found, failed, no_such_store, default, or_default, open_bucket,
  get_value, set, set_in, set_at, delete, delete_in, exists,
}
use wrpc.Keyvalue.Spec.{Call, opening, getting, setting, deleting, asking, call, answers}
use wrpc.Keyvalue.Buckets.{new-Inv, or_default-Inv}
use wrpc.Keyvalue.Interleaving.{stay, step, opens, set_seen}

abbrev a : Bytes
a = 97 ∷ []

abbrev b : Bytes
b = 98 ∷ []

abbrev calls : List Call
calls =
    getting a b
    ∷ opening a
    ∷ setting a b (1 ∷ [])
    ∷ opening b
    ∷ opening a
    ∷ getting a b
    ∷ getting b b
    ∷ deleting a b
    ∷ asking a b
    ∷ []

answered :
    answers default calls
    ≡ failed no_such_store
      ∷ handle a
      ∷ done
      ∷ handle b
      ∷ handle a
      ∷ value (some (1 ∷ []))
      ∷ value none
      ∷ done
      ∷ found false
      ∷ []
unfolding answers call open_bucket or_default get_value set set_in delete delete_in exists set_at
    get insert remove eq lt
answered = refl

-- One client looked `a` up, and another one opens `b` before it writes.
abbrev before : Handler
before = or_default a default

abbrev after : Handler
after = or_default b before

before-get : get a before.buckets ≡ some 0
unfolding or_default get insert eq lt
before-get = refl

set_seen_example :
    (set_in after 0 b (1 ∷ []) ≡ set after a b (1 ∷ []))
    × ((get_value (set after a b (1 ∷ [])).1 a b).0 ≡ (
        if eq a a
        then (if eq b b then value (some (1 ∷ [])) else (get_value after a b).0)
        else (get_value after a b).0))
set_seen_example =
    set_seen a b (1 ∷ []) 0 (or_default-Inv default a new-Inv) before-get (step (opens b) stay) a b
