-- ===== src/Lists/RoundTrip.antt =====
-- `encode_list_own` of crates/transport/src/value.rs against `ListDecoder`.
use wrpc.Prelude.{
  ◌≡◌, refl, ap, sym, ◌∙◌, List, [], ◌∷◌, ◌++◌, append_assoc, append-nil, Option, some, Bytes,
  Result, ok, ◌>>=◌, bind_ok, length, try_u32, try_u32-eq_ok, arith,
}
use wrpc.Leb128.{Leb128, got}
use wrpc.Lists.{
  Decoded, ItemDecoder, ListDecoder, push_deferred, loop, by_length, decode_at, decode_list,
  encode_iter_own, encode_list_own,
}

module _ {S A D E : Type 0} (item : ItemDecoder S A D) (encode : A → Result (Bytes × Option E))
    (leb : Leb128) (Ready : S → Type 0) where
  -- In a state that is ready, an element that was written is read, and the state is ready again.
  abbrev pub ReadsItems : Type 0
  ReadsItems =
      (x : A) (b : Bytes) (d : Option E)
      → encode x ≡ ok (b, d)
      → (s : S) → Ready s
      → (rest : Bytes)
      → (t : S) × (item.decode s (b ++ rest) ≡ (ok (some x), (t, rest)))
        × Ready (item.take_deferred t).1

  module _ (reads : ReadsItems) where
    -- The decoder has no list half read.
    abbrev pub IsFresh : ListDecoder S A D → Type 0
    IsFresh d = (d.cap ≡ 0) × Ready d.dec

    abbrev pub Reads : List A → List A → Bytes → Decoded (ListDecoder S A D) (List A) → Type 0
    Reads ret xs rest out =
        (d : ListDecoder S A D) × (out ≡ (ok (some (ret ++ xs)), (d, rest))) × IsFresh d

    pub loop-encode_iter_own :
        (xs : List A) (bs : Bytes) (ds : List (Option E)) (s : S) (ret : List A)
        (deferred : List (Option D)) (rest : Bytes)
        → encode_iter_own encode leb xs ≡ ok (bs, ds)
        → Ready s
        → Reads ret xs rest (loop item leb (length xs) s ret deferred (bs ++ rest))
    unfolding loop encode_iter_own
    loop-encode_iter_own [] bs ds s ret deferred rest e h =
        let nothing : bs ≡ [] = cc in
        rw (nothing) (
          record { dec = s; ret = []; cap = 0; deferred = deferred },
          ap
              (λ l.
                (ok (some l), (record { dec = s; ret = []; cap = 0; deferred = deferred }, rest)))
              (sym (append-nil ret)),
          (refl, h),
        )
    loop-encode_iter_own (x ∷ xs) bs ds s ret deferred rest e h =
        let ((b, d), e1, e2) =
          bind_ok (encode x)
            (λ first.
              encode_iter_own encode leb xs >>= λ later. ok (first.0 ++ later.0, first.1 ∷ later.1))
            e in
        let ((c, ds'), e3, e4) =
          bind_ok (encode_iter_own encode leb xs) (λ later. ok (b ++ later.0, d ∷ later.1)) e2 in
        let whole : bs ≡ b ++ c = cc in
        let (t, at, h') = reads x b d e1 s h (c ++ rest) in
        let (done, f, fresh) =
          loop-encode_iter_own xs c ds' (item.take_deferred t).1 (ret ++ x ∷ [])
            (push_deferred (length ret) deferred (item.take_deferred t).0) rest e3 h' in
        rw (whole, append_assoc b c rest, at)
          (done, f ∙ ap (λ l. (ok (some l), (done, rest))) (append_assoc ret (x ∷ []) xs), fresh)

    by_length-encode_iter_own :
        (xs : List A) (bs : Bytes) (ds : List (Option E)) (d : ListDecoder S A D) (src rest : Bytes)
        → encode_iter_own encode leb xs ≡ ok (bs, ds)
        → IsFresh d
        → Reads [] xs rest (by_length item leb d src (got (length xs) (bs ++ rest)))
    unfolding encode_iter_own
    by_length-encode_iter_own [] bs ds d src rest e h =
        let nothing : bs ≡ [] = cc in (d, ap (λ b. (ok (some []), (d, b ++ rest))) nothing, h)
    by_length-encode_iter_own (x ∷ xs) bs ds d src rest e (z, h) =
        loop-encode_iter_own (x ∷ xs) bs ds d.dec [] d.deferred rest e h

    -- If elements that were written are read back, so is a list of them: a decoder with no list
    -- half read takes the bytes of the list from the front of the buffer, gives its elements in
    -- order, and has no list half read again.
    pub decode_list-encode_list_own :
        (xs : List A) (bs : Bytes) (ds : List (Option E)) (d : ListDecoder S A D) (rest : Bytes)
        → encode_list_own encode leb xs ≡ ok (bs, ds)
        → IsFresh d
        → (d' : ListDecoder S A D) × (decode_list item leb d (bs ++ rest)
            ≡ (ok (some xs), (d', rest)))
          × IsFresh d'
    unfolding decode_list encode_list_own
    decode_list-encode_list_own xs bs ds d rest e (z, h) =
        let (n, e1, e2) =
          bind_ok (try_u32 (length xs))
            (λ n. encode_iter_own encode leb xs >>= λ items. ok (leb.encode n ++ items.0, items.1))
            e in
        let ((c, ds'), e3, e4) =
          bind_ok (encode_iter_own encode leb xs) (λ items. ok (leb.encode n ++ items.0, items.1))
            e2 in
        let (same, small) = try_u32-eq_ok (length xs) e1 in
        let whole : bs ≡ leb.encode (length xs) ++ c = ground (arith) in
        let read : leb.decode (bs ++ rest) ≡ got (length xs) (c ++ rest) =
          ap (λ b. leb.decode (b ++ rest)) whole
          ∙ ap leb.decode (append_assoc (leb.encode (length xs)) c rest)
          ∙ leb.decode-encode (length xs) (c ++ rest) small in
        let (d', f, fresh) = by_length-encode_iter_own xs c ds' d (bs ++ rest) rest e3 (z, h) in
        (
          d',
          ap (λ missing. decode_at item leb missing d (bs ++ rest)) z
              ∙ ap (by_length item leb d (bs ++ rest)) read
              ∙ f,
          fresh,
        )
