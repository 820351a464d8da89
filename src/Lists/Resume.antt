-- ===== src/Lists/Resume.antt =====
-- `ListDecoder` of crates/transport/src/value.rs on bytes that come in pieces.
use wrpc.Prelude.{
  ℕ, zero, suc, ◌≡◌, refl, ap, ◌∙◌, List, [], ◌∷◌, ◌++◌, Option, none, some, Bytes, ok, err, length,
  inl, inr,
}
use wrpc.Leb128.{Leb128, got, Read-cases}
use wrpc.Lists.{
  Decoded, ItemDecoder, ListDecoder, push_deferred, after_item, loop, by_length, decode_at,
  decode_list,
}

-- What an answer is worth when more bytes come: where the item was complete or invalid it stays,
-- and otherwise the decoder is called again with what it left and the new bytes.
abbrev pub continue : {S A : Type 0} → (S → Bytes → Decoded S A) → Decoded S A → Bytes → Decoded S A
continue decode (ok none, (s, rest)) later = decode s (rest ++ later)
continue decode (ok (some a), (s, rest)) later = (ok (some a), (s, rest ++ later))
continue decode (err e, (s, rest)) later = (err e, (s, rest ++ later))

-- It does not matter whether the bytes come at once or in two pieces.
abbrev pub IsResumable : {S A : Type 0} → (S → Bytes → Decoded S A) → Type 0
IsResumable {S} decode =
    (s : S) (src later : Bytes) → decode s (src ++ later) ≡ continue decode (decode s src) later

module _ {S A D : Type 0} (item : ItemDecoder S A D) (leb : Leb128)
    (resumable : IsResumable item.decode) where
  after_item-continue :
      (missing : ℕ) (ret : List A) (deferred : List (Option D))
      (next : S → List A → List (Option D) → Bytes → Decoded (ListDecoder S A D) (List A))
      (later : Bytes)
      → ((s : S) (r : List A) (ds : List (Option D)) (src : Bytes)
          → next s r ds (src ++ later) ≡ continue (decode_list item leb) (next s r ds src) later)
      → (next ≡ loop item leb missing)
      → (out : Decoded S A)
      → after_item item leb (suc missing) ret deferred next (continue item.decode out later)
        ≡ continue
            (decode_list item leb)
            (after_item item leb (suc missing) ret deferred next out)
            later
  unfolding decode_list loop
  after_item-continue missing ret deferred next later h e (ok (some v), (s, rest)) =
      h (item.take_deferred s).1 (ret ++ v ∷ [])
        (push_deferred (length ret) deferred (item.take_deferred s).0) rest
  after_item-continue missing ret deferred next later h e (ok none, (s, rest)) =
      ap (λ f. after_item item leb (suc missing) ret deferred f (item.decode s (rest ++ later))) e
  after_item-continue missing ret deferred next later h e (err k, (s, rest)) = refl

  loop-append :
      (missing : ℕ) (s : S) (ret : List A) (deferred : List (Option D)) (src later : Bytes)
      → loop item leb missing s ret deferred (src ++ later)
        ≡ continue (decode_list item leb) (loop item leb missing s ret deferred src) later
  unfolding loop
  loop-append zero s ret deferred src later = refl
  loop-append (suc missing) s ret deferred src later =
      ap (after_item item leb (suc missing) ret deferred (loop item leb missing))
        (resumable s src later)
      ∙ after_item-continue missing ret deferred (loop item leb missing) later
          (λ t r ds b. loop-append missing t r ds b later) refl (item.decode s src)

  by_length-append :
      (d : ListDecoder S A D) (src later : Bytes)
      → d.cap ≡ 0
      → by_length item leb d (src ++ later) (leb.decode (src ++ later))
        ≡ continue (decode_list item leb) (by_length item leb d src (leb.decode src)) later
  unfolding decode_list
  by_length-append d src later z = elim (Read-cases (leb.decode src)) [
    | inl e ↦ rw (e, z) refl
    | inr (inl (n, rest, e)) ↦
        rw (e, leb.decode-append_got src later n rest e) (split_length n rest)
    | inr (inr (k, rest, e)) ↦ rw (e, leb.decode-append_bad src later k rest e) refl
  ]
    where
      split_length :
          (n : ℕ) (rest : Bytes)
          → by_length item leb d (src ++ later) (got n (rest ++ later))
            ≡ continue (decode_list item leb) (by_length item leb d src (got n rest)) later
      split_length zero rest = refl
      split_length (suc n) rest = loop-append (suc n) d.dec [] d.deferred rest later

  decode_at-append :
      (missing : ℕ) (d : ListDecoder S A D) (src later : Bytes)
      → d.cap ≡ missing
      → decode_at item leb missing d (src ++ later)
        ≡ continue (decode_list item leb) (decode_at item leb missing d src) later
  decode_at-append zero d src later e = by_length-append d src later e
  decode_at-append (suc missing) d src later e =
      loop-append (suc missing) d.dec d.ret d.deferred src later

  -- If the decoder of the elements may be given its bytes in pieces, so may that of the list, in
  -- whatever state it is: a call on all bytes is a call on the first ones and, where that asks for
  -- more, another one in the state it left, with what it left in front of the rest.
  pub decode_list-IsResumable : IsResumable (decode_list item leb)
  unfolding decode_list
  decode_list-IsResumable d src later = decode_at-append d.cap d src later refl
