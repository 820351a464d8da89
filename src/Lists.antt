-- ===== src/Lists.antt =====
-- `list<T>` over any coder of its elements: `ListDecoder` and `encode_list_own` of
-- crates/transport/src/value.rs. An element's decoder is a state and what a call makes of it.
pub mod Resume
pub mod RoundTrip
pub mod Arrays
pub mod ArrayLaws
use wrpc.Prelude.{
  ℕ, zero, suc, ◌-◌, List, [], ◌∷◌, ◌++◌, Option, none, some, Bytes, Result, ok, err, ◌>>=◌, length,
  try_u32, Bool, false, ◌||◌, is_some, if◌then◌else◌,
}
use wrpc.Leb128.{Leb128, Read, got, more, bad}

-- The answer of a call of `decode`, with the state after it and what is left of the buffer.
abbrev pub Decoded : Type 0 → Type 0 → Type 0
Decoded S A = Result (Option A) × (S × Bytes)

-- A decoder with state `S` of items `A`, which defers functions `D`.
pub record ItemDecoder (S A D : Type 0) : Type 0 where
  pub decode : S → Bytes → Decoded S A
  pub take_deferred : S → Option D × S

-- `ListDecoder`.
pub record ListDecoder (S A D : Type 0) : Type 0 where
  pub dec : S
  pub ret : List A
  pub cap : ℕ
  pub deferred : List (Option D)

-- `iter().any(Option::is_some)`.
abbrev pub any_some {ℓ} : {D : Type ℓ} → List (Option D) → Bool
any_some [] = false
any_some (d ∷ ds) = is_some d || any_some ds

-- `resize_with(n, || None)`.
unfoldable pub resize {ℓ} : {D : Type ℓ} → ℕ → List (Option D) → List (Option D)
resize zero ds = []
resize (suc n) [] = none ∷ resize n []
resize (suc n) (d ∷ ds) = d ∷ resize n ds

-- `self.deferred` after the element at position `n`.
abbrev pub push_deferred {ℓ} : {D : Type ℓ} → ℕ → List (Option D) → Option D → List (Option D)
push_deferred n ds none = ds
push_deferred n ds (some d) = resize n ds ++ some d ∷ []

module _ {S A D : Type 0} (item : ItemDecoder S A D) (leb : Leb128) where
  abbrev pub ListAnswer : Type 0
  ListAnswer = Decoded (ListDecoder S A D) (List A)

  -- One round of the loop, by the element's answer; `next` is the rest of the loop, and `missing` the
  -- number of elements before the round.
  abbrev pub after_item :
      ℕ
      → List A
      → List (Option D)
      → (S → List A → List (Option D) → Bytes → ListAnswer)
      → Decoded S A
      → ListAnswer
  after_item missing ret deferred next (ok (some v), (s, rest)) =
      next (item.take_deferred s).1 (ret ++ v ∷ [])
        (push_deferred (length ret) deferred (item.take_deferred s).0) rest
  after_item missing ret deferred next (ok none, (s, rest)) =
      (ok none, (record { dec = s; ret = ret; cap = missing; deferred = deferred }, rest))
  after_item missing ret deferred next (err e, (s, rest)) =
      (err e, (record { dec = s; ret = []; cap = 0; deferred = [] }, rest))

  unfoldable pub loop : ℕ → S → List A → List (Option D) → Bytes → ListAnswer
  loop zero s ret deferred src =
      (ok (some ret), (record { dec = s; ret = []; cap = 0; deferred = deferred }, src))
  loop (suc missing) s ret deferred src =
      after_item (suc missing) ret deferred
        (λ s' ret' deferred' src'. loop missing s' ret' deferred' src') (item.decode s src)

  -- By the length of the list, which is read first.
  abbrev pub by_length : ListDecoder S A D → Bytes → Read → ListAnswer
  by_length d src (got zero rest) = (ok (some []), (d, rest))
  by_length d src (got (suc n) rest) = loop (suc n) d.dec [] d.deferred rest
  by_length d src more = (ok none, (d, src))
  by_length d src (bad e rest) = (err e, (d, rest))

  -- By the number of elements that are missing.
  abbrev pub decode_at : ℕ → ListDecoder S A D → Bytes → ListAnswer
  decode_at zero d src = by_length d src (leb.decode src)
  decode_at (suc missing) d src = loop (suc missing) d.dec d.ret d.deferred src

  unfoldable pub decode_list : ListDecoder S A D → Bytes → ListAnswer
  decode_list d src = decode_at d.cap d src

  -- `take_deferred` of `ListDecoder`: what the elements deferred, by position.
  unfoldable pub take_deferred_list :
      ListDecoder S A D → Option (List (Option D)) × ListDecoder S A D
  take_deferred_list d =
      (if any_some d.deferred then some d.deferred else none, record d { deferred = [] })

  -- The decoder of a list, as one of the elements of another list.
  abbrev pub list_decoder : ItemDecoder (ListDecoder S A D) (List A) (List (Option D))
  list_decoder = record { decode = decode_list; take_deferred = take_deferred_list }

-- `encode_iter_own`, with what each element defers.
module _ {A D : Type 0} (encode : A → Result (Bytes × Option D)) (leb : Leb128) where
  unfoldable pub encode_iter_own : List A → Result (Bytes × List (Option D))
  encode_iter_own [] = ok ([], [])
  encode_iter_own (x ∷ xs) = do
    (b, d) ← encode x
    (bs, ds) ← encode_iter_own xs
    ok (b ++ bs, d ∷ ds)

  unfoldable pub encode_list_own : List A → Result (Bytes × List (Option D))
  encode_list_own xs = do
    n ← try_u32 (length xs)
    (bs, ds) ← encode_iter_own xs
    ok (leb.encode n ++ bs, ds)
