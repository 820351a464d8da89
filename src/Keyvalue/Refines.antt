-- ===== src/Keyvalue/Refines.antt =====
-- The store of crates/wasi-keyvalue-mem/src/lib.rs does what a key-value store promises.
use wrpc.Prelude.{◌≡◌, Bytes}
use wrpc.BTree.{ℕ_ord}
use wrpc.Keyvalue.{Handler, Answer}
use wrpc.Keyvalue.Spec.{Spec}
use wrpc.Keyvalue.Buckets.{view, Inv}

-- The state has the values that the abstract store has.
abbrev Shows : Handler → Spec → Type 0
Shows s σ = (i k : Bytes) → view s i k ≡ σ i k

-- What has to be shown of a call: the same answer, and again the same values.
abbrev Refines : Answer × Handler → Answer × Spec → Type 0
Refines (a, s) (b, σ) = (a ≡ b) × Shows s σ × Inv s
