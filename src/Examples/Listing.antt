-- ===== src/Examples/Listing.antt =====
-- Runs of the coders of lists of crates/transport/src/value.rs: lists of lists of bytes.
use wrpc.Prelude.{ℕ, ◌≡◌, refl, List, [], ◌∷◌, ◌++◌, Option, none, some, Bytes, Result, ok}
use wrpc.Leb128.Varint.{varint, write}
use wrpc.Lists.{
  Decoded, ItemDecoder, ListDecoder, decode_list, list_decoder, encode_iter_own, encode_list_own,
}
use wrpc.Lists.Arrays.{decode_array}
use wrpc.Lists.ArrayLaws.{decoders_resumable}
use wrpc.Lists.Resume.{IsResumable, decode_list-IsResumable}
use wrpc.Lists.RoundTrip.{ReadsItems, IsFresh, decode_list-encode_list_own}

abbrev pub decode_byte : Unit {0} → Bytes → Decoded (Unit {0}) ℕ
decode_byte u [] = (ok none, (u, []))
decode_byte u (b ∷ rest) = (ok (some b), (u, rest))

-- The codec of `u8`, which defers nothing.
abbrev pub byte : ItemDecoder (Unit {0}) ℕ ℕ
byte = record { decode = decode_byte; take_deferred = λ u. (none, u) }

pub byte-IsResumable : IsResumable decode_byte
byte-IsResumable u [] later = refl
byte-IsResumable u (b ∷ rest) later = refl

abbrev pub ByteLists : Type 0
ByteLists = ListDecoder (Unit {0}) ℕ ℕ

abbrev pub fresh : ByteLists
fresh = record { dec = tt; ret = []; cap = 0; deferred = [] }

abbrev nested : ListDecoder ByteLists (List ℕ) (List (Option ℕ))
nested = record { dec = fresh; ret = []; cap = 0; deferred = [] }

-- Lists, and arrays, of lists of bytes.
decoders_resumable_example :
    IsResumable (decode_list (list_decoder byte varint) varint)
    × ((n : ℕ) → IsResumable (decode_array (list_decoder byte varint) n))
decoders_resumable_example =
    decoders_resumable (list_decoder byte varint) varint
      (decode_list-IsResumable byte varint byte-IsResumable)

abbrev pub encode_byte : ℕ → Result (Bytes × Option ℕ)
encode_byte b = ok (b ∷ [], none)

pub reads_bytes : ReadsItems byte encode_byte varint (λ u. Unit {0})
reads_bytes x b d e s h rest = let same : b ≡ x ∷ [] = cc in (tt, rw (same) refl, tt)

encoded : encode_list_own encode_byte varint (5 ∷ 6 ∷ []) ≡ ok (2 ∷ 5 ∷ 6 ∷ [], none ∷ none ∷ [])
unfolding encode_list_own encode_iter_own varint write
encoded = refl

decode_list-encode_list_own_example :
    (d : ByteLists) × (decode_list byte varint fresh ((2 ∷ 5 ∷ 6 ∷ []) ++ (9 ∷ []))
      ≡ (ok (some (5 ∷ 6 ∷ [])), (d, 9 ∷ [])))
    × IsFresh byte encode_byte varint (λ u. Unit {0}) reads_bytes d
decode_list-encode_list_own_example =
    decode_list-encode_list_own byte encode_byte varint (λ u. Unit {0}) reads_bytes (5 ∷ 6 ∷ [])
      (2 ∷ 5 ∷ 6 ∷ []) (none ∷ none ∷ []) fresh (9 ∷ []) encoded (refl, tt)

encoded_array : encode_iter_own encode_byte varint (5 ∷ 6 ∷ []) ≡ ok (5 ∷ 6 ∷ [], none ∷ none ∷ [])
unfolding encode_iter_own
encoded_array = refl
