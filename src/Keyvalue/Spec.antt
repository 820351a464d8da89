-- ===== src/Keyvalue/Spec.antt =====
-- What a key-value store promises: a value for each key of each bucket that was opened.
use wrpc.Prelude.{List, [], ◌∷◌, Option, none, some, Bytes, if◌then◌else◌, is_some, ◌&&◌}
use wrpc.BTree.{ℕ_ord, eq}
use wrpc.Keyvalue.{
  Handler, Answer, handle, value, done, found, failed, no_such_store, open_bucket, get_value, set,
  delete, exists,
}

-- The calls that a client can make.
pub data Call : Type 0 where
  opening : Bytes → Call
  getting : Bytes → Bytes → Call
  setting : Bytes → Bytes → Bytes → Call
  deleting : Bytes → Bytes → Call
  asking : Bytes → Bytes → Call

unfoldable pub call : Handler → Call → Answer × Handler
call s (opening i) = open_bucket s i
call s (getting i k) = get_value s i k
call s (setting i k v) = set s i k v
call s (deleting i k) = delete s i k
call s (asking i k) = exists s i k

-- `none` for a bucket that was not opened, `some none` for a key without a value.
abbrev pub Spec : Type 0
Spec = Bytes → Bytes → Option (Option Bytes)

abbrev pub opened : Option (Option Bytes) → Option (Option Bytes)
opened none = some none
opened (some v) = some v

-- The answer, of a bucket that was opened. For others the invocation fails.
abbrev pub in_bucket : Option (Option Bytes) → (Option Bytes → Answer) → Answer
in_bucket none f = failed no_such_store
in_bucket (some v) f = f v

-- The value of one key, if the bucket was opened.
abbrev pub assign : Spec → Bytes → Bytes → Option Bytes → Spec
assign σ i k v =
    λ j l. if eq i j && eq k l then (if is_some (σ j l) then some v else none) else σ j l

unfoldable pub spec_call : Spec → Call → Answer × Spec
spec_call σ (opening i) = (handle i, λ j l. if eq i j then opened (σ j l) else σ j l)
spec_call σ (getting i k) = (in_bucket (σ i k) value, σ)
spec_call σ (setting i k v) = (in_bucket (σ i k) (λ w. done), assign σ i k (some v))
spec_call σ (deleting i k) = (in_bucket (σ i k) (λ w. done), assign σ i k none)
spec_call σ (asking i k) = (in_bucket (σ i k) (λ w. found (is_some w)), σ)

-- The answers to a list of calls.
unfoldable pub answers : Handler → List Call → List Answer
answers s [] = []
answers s (c ∷ cs) = (call s c).0 ∷ answers (call s c).1 cs

unfoldable pub spec_answers : Spec → List Call → List Answer
spec_answers σ [] = []
spec_answers σ (c ∷ cs) = (spec_call σ c).0 ∷ spec_answers (spec_call σ c).1 cs
