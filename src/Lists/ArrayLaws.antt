-- ===== src/Lists/ArrayLaws.antt =====
-- `ArrayDecoder` of crates/transport/src/value.rs: bytes in pieces, and what the encoder wrote.
use wrpc.Prelude.{
  ℕ, zero, suc, ◌-◌, ◌≡◌, refl, ap, sym, ◌∙◌, List, [], ◌∷◌, ◌++◌, Option, none, some, Bytes,
  Result, ok, err, length, arith, length-append,
}
use wrpc.Leb128.{Leb128}
use wrpc.Lists.{
  Decoded, ItemDecoder, ListDecoder, push_deferred, after_item, loop, decode_list, encode_iter_own,
}
use wrpc.Lists.Arrays.{ArrayDecoder, after_element, fill_array, decode_array}
use wrpc.Lists.Resume.{continue, IsResumable, decode_list-IsResumable}
use wrpc.Lists.RoundTrip.{ReadsItems, loop-encode_iter_own}

module _ {S A D : Type 0} (item : ItemDecoder S A D) (resumable : IsResumable item.decode)
    (n : ℕ) where
  after_element-continue :
      (missing : ℕ) (ret : List A) (deferred : List (Option D)) (later : Bytes)
      → n - length ret ≡ suc missing
      → ((s : S) (v : A) (ds : List (Option D)) (src : Bytes)
          → fill_array item missing s (ret ++ v ∷ []) ds (src ++ later)
            ≡ continue
                (decode_array item n)
                (fill_array item missing s (ret ++ v ∷ []) ds src)
                later)
      → (out : Decoded S A)
      → after_element item ret deferred (fill_array item missing) (continue item.decode out later)
        ≡ continue
            (decode_array item n)
            (after_element item ret deferred (fill_array item missing) out)
            later
  unfolding decode_array fill_array
  after_element-continue missing ret deferred later e h (ok (some v), (s, rest)) =
      h (item.take_deferred s).1 v (push_deferred (length ret) deferred (item.take_deferred s).0)
        rest
  after_element-continue missing ret deferred later e h (ok none, (s, rest)) =
      sym (ap (λ m. fill_array item m s ret deferred (rest ++ later)) e)
  after_element-continue missing ret deferred later e h (err k, (s, rest)) = refl

  fill_array-append :
      (missing : ℕ) (s : S) (ret : List A) (deferred : List (Option D)) (src later : Bytes)
      → n - length ret ≡ missing
      → fill_array item missing s ret deferred (src ++ later)
        ≡ continue (decode_array item n) (fill_array item missing s ret deferred src) later
  unfolding fill_array
  fill_array-append zero s ret deferred src later e = refl
  fill_array-append (suc missing) s ret deferred src later e =
      ap (after_element item ret deferred (fill_array item missing)) (resumable s src later)
      ∙ after_element-continue missing ret deferred later e
          (λ t v ds b.
            fill_array-append missing t (ret ++ v ∷ []) ds b later
              (omega (arith, length-append ret (v ∷ []))))
          (item.decode s src)

  pub decode_array-IsResumable : IsResumable (decode_array item n)
  unfolding decode_array
  decode_array-IsResumable d src later =
      fill_array-append (n - length d.ret) d.dec d.ret d.deferred src later refl

-- If the decoder of the elements may be given its bytes in pieces, so may those of a list and of an
-- array of any length, in whatever state they are: a call on all bytes is a call on the first
-- ones and, where that asks for more, another one in the state it left, with what it left in
-- front of the rest.
pub decoders_resumable :
    {S A D : Type 0} (item : ItemDecoder S A D) (leb : Leb128)
    → IsResumable item.decode
    → IsResumable (decode_list item leb) × ((n : ℕ) → IsResumable (decode_array item n))
decoders_resumable item leb resumable =
    (decode_list-IsResumable item leb resumable, λ n. decode_array-IsResumable item resumable n)

-- The state of the list's decoder without the number of elements that are missing.
abbrev as_array :
    {S A D : Type 0} → Decoded (ListDecoder S A D) (List A) → Decoded (ArrayDecoder S A D) (List A)
as_array (r, (d, rest)) = (r, (record { dec = d.dec; ret = d.ret; deferred = d.deferred }, rest))

module _ {S A D : Type 0} (item : ItemDecoder S A D) (leb : Leb128) where
  -- Once its length is read, a list is read like an array of that length.
  fill_array-loop :
      (missing : ℕ) (s : S) (ret : List A) (deferred : List (Option D)) (src : Bytes)
      → fill_array item missing s ret deferred src
        ≡ as_array (loop item leb missing s ret deferred src)
  unfolding fill_array loop
  fill_array-loop zero s ret deferred src = refl
  fill_array-loop (suc missing) s ret deferred src =
      by_answer (λ t r ds b. fill_array-loop missing t r ds b) (item.decode s src)
    where
      by_answer :
          ((t : S) (r : List A) (ds : List (Option D)) (b : Bytes)
            → fill_array item missing t r ds b ≡ as_array (loop item leb missing t r ds b))
          → (out : Decoded S A)
          → after_element item ret deferred (fill_array item missing) out
            ≡ as_array (after_item item leb (suc missing) ret deferred (loop item leb missing) out)
      by_answer same (ok (some v), (t, rest)) =
          same (item.take_deferred t).1 (ret ++ v ∷ [])
            (push_deferred (length ret) deferred (item.take_deferred t).0) rest
      by_answer same (ok none, (t, rest)) = refl
      by_answer same (err e, (t, rest)) = refl

  -- If elements that were written are read back, so is an array of them: a decoder with nothing
  -- read takes the bytes of the array from the front of any others, and nothing is read of the
  -- next array then.
  pub decode_array-encode_iter_own :
      {E : Type 0} (encode : A → Result (Bytes × Option E)) (Ready : S → Type 0)
      → ReadsItems item encode leb Ready
      → (xs : List A) (bs : Bytes) (ds : List (Option E)) (s : S) (deferred : List (Option D))
        (rest : Bytes)
      → encode_iter_own encode leb xs ≡ ok (bs, ds)
      → Ready s
      → (d : ArrayDecoder S A D) × (decode_array item
            (length xs)
            (record { dec = s; ret = []; deferred = deferred })
            (bs ++ rest)
          ≡ (ok (some xs), (d, rest)))
        × Ready d.dec
  unfolding decode_array
  decode_array-encode_iter_own encode Ready reads xs bs ds s deferred rest e h =
      let (d, f, fresh) =
        loop-encode_iter_own item encode leb Ready reads xs bs ds s [] deferred rest e h in
      (
        record { dec = d.dec; ret = d.ret; deferred = d.deferred },
        ap (λ m. fill_array item m s [] deferred (bs ++ rest)) (minus_zero (length xs))
            ∙ fill_array-loop (length xs) s [] deferred (bs ++ rest)
            ∙ ap as_array f,
        fresh.1,
      )
    where
      minus_zero : (m : ℕ) → m - 0 ≡ m
      minus_zero m = omega arith
