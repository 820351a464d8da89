-- ===== src/Lists/Arrays.antt =====
-- Arrays: `ArrayDecoder` and `ArrayEncoder` of crates/transport/src/value.rs, over any coder of the
-- elements. Where the source has `unreachable!`, too many elements were read: there is no such
-- case from a state with at most `N` of them.
use wrpc.Prelude.{
  ℕ, zero, suc, ◌-◌, List, [], ◌∷◌, ◌++◌, Option, none, some, Bytes, ok, err, length, if◌then◌else◌,
}
use wrpc.Lists.{Decoded, ItemDecoder, push_deferred, any_some}

-- `ArrayDecoder`.
pub record ArrayDecoder (S A D : Type 0) : Type 0 where
  pub dec : S
  pub ret : List A
  pub deferred : List (Option D)

module _ {S A D : Type 0} (item : ItemDecoder S A D) where
  abbrev pub ArrayAnswer : Type 0
  ArrayAnswer = Decoded (ArrayDecoder S A D) (List A)

  -- One round of the loop, by the element's answer; `next` is the rest of the loop.
  abbrev pub after_element :
      List A
      → List (Option D)
      → (S → List A → List (Option D) → Bytes → ArrayAnswer)
      → Decoded S A
      → ArrayAnswer
  after_element ret deferred next (ok (some v), (s, rest)) =
      next (item.take_deferred s).1 (ret ++ v ∷ [])
        (push_deferred (length ret) deferred (item.take_deferred s).0) rest
  after_element ret deferred next (ok none, (s, rest)) =
      (ok none, (record { dec = s; ret = ret; deferred = deferred }, rest))
  after_element ret deferred next (err e, (s, rest)) =
      (err e, (record { dec = s; ret = []; deferred = [] }, rest))

  -- `while self.ret.len() < N`, by the number of elements that are missing.
  unfoldable pub fill_array : ℕ → S → List A → List (Option D) → Bytes → ArrayAnswer
  fill_array zero s ret deferred src =
      (ok (some ret), (record { dec = s; ret = []; deferred = deferred }, src))
  fill_array (suc missing) s ret deferred src =
      after_element ret deferred
        (λ s' ret' deferred' src'. fill_array missing s' ret' deferred' src') (item.decode s src)

  unfoldable pub decode_array : ℕ → ArrayDecoder S A D → Bytes → ArrayAnswer
  decode_array n d src = fill_array (n - length d.ret) d.dec d.ret d.deferred src

  -- `take_deferred` of `ArrayDecoder`.
  unfoldable pub take_deferred_array :
      ArrayDecoder S A D → Option (List (Option D)) × ArrayDecoder S A D
  take_deferred_array d =
      (if any_some d.deferred then some d.deferred else none, record d { deferred = [] })

  -- The decoder of an array, as one of the elements of a list.
  abbrev pub array_decoder : ℕ → ItemDecoder (ArrayDecoder S A D) (List A) (List (Option D))
  array_decoder n = record { decode = decode_array n; take_deferred = take_deferred_array }
