-- ===== src/Values/Runtime/Paths.antt =====
-- The futures and streams of a value, by the paths of their sub-streams.
use wrpc.Prelude.{ℕ, suc, List, [], ◌∷◌, ◌++◌}
use wrpc.Values.{
  Value, MaybeValue, Values, Fields, num, str, list, fields, tuple, variant, enum, option,
  result_ok, result_err, flags, future, stream, no_value, some_value, no_values, value, no_fields,
  entry, remote,
}
use wrpc.Prelude.{◌≡◌, refl, ap}
use wrpc.Values.Runtime.{Writes, index_writes}

-- Every future and stream of a value, and the path it is at: a position is added for the elements
-- of a list, a tuple and a record. `path` is where the value is.
unfoldable mutual
  pub sources : List ℕ → Value → Writes
  sources path (num k n) = []
  sources path (str s) = []
  sources path (list vs) = sources_list path 0 vs
  sources path (fields fs) = sources_record path 0 fs
  sources path (tuple vs) = sources_list path 0 vs
  sources path (variant name v) = sources_payload path v
  sources path (enum name) = []
  sources path (option v) = sources_payload path v
  sources path (result_ok v) = sources_payload path v
  sources path (result_err v) = sources_payload path v
  sources path (flags fs) = []
  sources path (future source) = (path, source) ∷ []
  sources path (stream source) = (path, source) ∷ []

  pub sources_payload : List ℕ → MaybeValue → Writes
  sources_payload path no_value = []
  sources_payload path (some_value v) = sources path v

  pub sources_list : List ℕ → ℕ → Values → Writes
  sources_list path i no_values = []
  sources_list path i (value v vs) = sources (path ++ i ∷ []) v ++ sources_list path (suc i) vs

  pub sources_record : List ℕ → ℕ → Fields → Writes
  sources_record path i no_fields = []
  sources_record path i (entry name v fs) =
      sources (path ++ i ∷ []) v ++ sources_record path (suc i) fs

-- The value with each of its futures and streams replaced by the sub-stream of its path.
unfoldable mutual
  pub located : List ℕ → Value → Value
  located path (num k n) = num k n
  located path (str s) = str s
  located path (list vs) = list (located_list path 0 vs)
  located path (fields fs) = fields (located_record path 0 fs)
  located path (tuple vs) = tuple (located_list path 0 vs)
  located path (variant name v) = variant name (located_payload path v)
  located path (enum name) = enum name
  located path (option v) = option (located_payload path v)
  located path (result_ok v) = result_ok (located_payload path v)
  located path (result_err v) = result_err (located_payload path v)
  located path (flags fs) = flags fs
  located path (future source) = future (remote path)
  located path (stream source) = stream (remote path)

  pub located_payload : List ℕ → MaybeValue → MaybeValue
  located_payload path no_value = no_value
  located_payload path (some_value v) = some_value (located path v)

  pub located_list : List ℕ → ℕ → Values → Values
  located_list path i no_values = no_values
  located_list path i (value v vs) =
      value (located (path ++ i ∷ []) v) (located_list path (suc i) vs)

  pub located_record : List ℕ → ℕ → Fields → Fields
  located_record path i no_fields = no_fields
  located_record path i (entry name v fs) =
      entry name (located (path ++ i ∷ []) v) (located_record path (suc i) fs)

pub index_writes-append :
    (i : ℕ) (a b : Writes) → index_writes i (a ++ b) ≡ index_writes i a ++ index_writes i b
unfolding index_writes
index_writes-append i [] b = refl
index_writes-append i ((path, source) ∷ a) b =
    ap (λ l. (i ∷ path, source) ∷ l) (index_writes-append i a b)

-- The paths below a position start with it.
mutual
  unfolding sources index_writes

  pub sources-cons :
      (i : ℕ) (path : List ℕ) (v : Value) → sources (i ∷ path) v ≡ index_writes i (sources path v)
  sources-cons i path (num k n) = refl
  sources-cons i path (str s) = refl
  sources-cons i path (list vs) = sources_list-cons i path 0 vs
  sources-cons i path (fields fs) = sources_record-cons i path 0 fs
  sources-cons i path (tuple vs) = sources_list-cons i path 0 vs
  sources-cons i path (variant name v) = sources_payload-cons i path v
  sources-cons i path (enum name) = refl
  sources-cons i path (option v) = sources_payload-cons i path v
  sources-cons i path (result_ok v) = sources_payload-cons i path v
  sources-cons i path (result_err v) = sources_payload-cons i path v
  sources-cons i path (flags fs) = refl
  sources-cons i path (future source) = refl
  sources-cons i path (stream source) = refl

  sources_payload-cons :
      (i : ℕ) (path : List ℕ) (v : MaybeValue)
      → sources_payload (i ∷ path) v ≡ index_writes i (sources_payload path v)
  sources_payload-cons i path no_value = refl
  sources_payload-cons i path (some_value v) = sources-cons i path v

  sources_list-cons :
      (i : ℕ) (path : List ℕ) (j : ℕ) (vs : Values)
      → sources_list (i ∷ path) j vs ≡ index_writes i (sources_list path j vs)
  sources_list-cons i path j no_values = refl
  sources_list-cons i path j (value v vs) =
      rw
        (
          sources-cons i (path ++ j ∷ []) v,
          sources_list-cons i path (suc j) vs,
          index_writes-append i (sources (path ++ j ∷ []) v) (sources_list path (suc j) vs),
        )
        refl

  sources_record-cons :
      (i : ℕ) (path : List ℕ) (j : ℕ) (fs : Fields)
      → sources_record (i ∷ path) j fs ≡ index_writes i (sources_record path j fs)
  sources_record-cons i path j no_fields = refl
  sources_record-cons i path j (entry name v fs) =
      rw
        (
          sources-cons i (path ++ j ∷ []) v,
          sources_record-cons i path (suc j) fs,
          index_writes-append i (sources (path ++ j ∷ []) v) (sources_record path (suc j) fs),
        )
        refl
