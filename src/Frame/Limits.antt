-- ===== src/Frame/Limits.antt =====
-- What a peer can make the decoder of codec.rs hold and return: never more than its two limits.
use wrpc.Prelude.{
  ℕ, zero, suc, ◌+◌, ◌≤◌, ◌≡◌, refl, ◌⊎◌, inl, inr, List, [], ◌∷◌, ◌++◌, Option, none, some, arith,
  Bytes, ok, err, length, length-append, length-take,
}
use wrpc.Leb128.{Leb128, Read, got, more, bad, Read-cases}
use wrpc.Frame.{Frame}
use wrpc.Frame.Steps.{decode_path_more, decode_path_got, decode_path_bad}
use wrpc.Frame.Decoder.{
  Decoder, Outcome, take_data, data_length, decode_data, decode_path, path_length, resume_path,
  decode,
}

-- A frame within the limits of the decoder `d`.
abbrev pub Within : Decoder → Frame → Type 0
Within d f = (length f.path ≤ d.max_depth) × (length f.content ≤ d.max_size)

-- Between two calls no data is expected before the path is read, and what was read of a path,
-- with what is still expected of it, is within the limit.
abbrev pub Holds : Decoder → Option (List ℕ) → Type 0
Holds d none = d.data_len ≡ 0
Holds d (some path) =
    (length path + d.path_cap ≤ d.max_depth) × ((d.path_cap ≡ 0) ⊎ (d.data_len ≡ 0))

pub record IsValid (d : Decoder) : Type 0 where
  pub holds : Holds d d.path
  pub fits : d.data_len ≤ d.max_size

-- The limits never change.
abbrev pub SameLimits : Decoder → Decoder → Type 0
SameLimits d d' = (d'.max_depth ≡ d.max_depth) × (d'.max_size ≡ d.max_size)

abbrev pub Fine : Decoder → Outcome → Type 0
Fine d (ok (some f), d', rest) = IsValid d' × SameLimits d d' × Within d f
Fine d (ok none, d', rest) = IsValid d' × SameLimits d d'
Fine d (err e, d', rest) = IsValid d' × SameLimits d d'

module _ (leb : Leb128) where
  take_data-Fine :
      (d : Decoder) (path : List ℕ) (src : Bytes)
      → d.path ≡ none
      → d.path_cap ≡ 0
      → length path ≤ d.max_depth
      → d.data_len ≤ d.max_size
      → Fine d (take_data leb d path src)
  unfolding take_data
  take_data-Fine d path src hn hc hp hs = ground (arith, length-take d.data_len src)

  data_length-Fine :
      (d : Decoder) (path : List ℕ) (src : Bytes) (r : Read)
      → d.path ≡ none
      → d.path_cap ≡ 0
      → d.data_len ≡ 0
      → length path ≤ d.max_depth
      → Fine d (data_length leb d path src r)
  unfolding data_length
  data_length-Fine d path src more hn hc hz hp = ground arith
  data_length-Fine d path src (bad e rest) hn hc hz hp = ground arith
  data_length-Fine d path src (got n rest) hn hc hz hp =
      ground (arith, take_data-Fine (record d { data_len = n }) path rest)

  decode_data-Fine :
      (d : Decoder) (path : List ℕ) (src : Bytes)
      → d.path ≡ none
      → d.path_cap ≡ 0
      → length path ≤ d.max_depth
      → d.data_len ≤ d.max_size
      → Fine d (decode_data leb d path src)
  unfolding decode_data
  decode_data-Fine d path src hn hc hp hs =
      ground (arith, data_length-Fine d path src (leb.decode src), take_data-Fine d path src)

  decode_path-Fine :
      (k : ℕ) (d : Decoder) (path : List ℕ) (src : Bytes)
      → d.path ≡ none
      → d.path_cap ≡ k
      → length path + k ≤ d.max_depth
      → d.data_len ≤ d.max_size
      → (k ≡ 0) ⊎ (d.data_len ≡ 0)
      → Fine d (decode_path leb k d path src)
  decode_path-Fine zero d path src hn hc hp hs hz =
      unfold decode_path in decode_data-Fine d path src hn hc (omega arith) hs
  decode_path-Fine (suc k) d path src hn hc hp hs hz = elim (Read-cases (leb.decode src)) [
    | inl e ↦ rw (decode_path_more leb k d path e) (ground arith)
    | inr (inl (i, rest, e)) ↦ rw (decode_path_got leb k d path e) (
        decode_path-Fine k (record d { path_cap = k }) (path ++ i ∷ []) rest hn refl
          (omega (arith, length-append path (i ∷ []))) hs (inr (ground arith)))
    | inr (inr (x, rest, e)) ↦ rw (decode_path_bad leb k d path e) (ground arith)
  ]

  resume_path-Fine :
      (p : Option (List ℕ)) (d : Decoder) (src : Bytes)
      → d.path ≡ none
      → d.data_len ≤ d.max_size
      → Holds d p
      → Fine d (resume_path leb p d src)
  unfolding resume_path
  resume_path-Fine none d src hn hs h = elim (Read-cases (leb.decode src)) [
    | inl e ↦ rw e (unfold path_length in ground arith)
    | inr (inl (i, rest, e)) ↦ rw e (
        unfold path_length in
        ground (arith, decode_path-Fine i (record d { path_cap = i }) [] rest))
    | inr (inr (x, rest, e)) ↦ rw e (unfold path_length in ground arith)
  ]
  resume_path-Fine (some path) d src hn hs (h, z) =
      decode_path-Fine d.path_cap d path src hn refl h hs z

  -- From any valid state and on any bytes, `decode` leaves the decoder valid and its limits
  -- unchanged, and a frame that it returns has a path of at most `max_depth` elements and data of
  -- at most `max_size` bytes.
  pub decode-IsValid : (d : Decoder) (src : Bytes) → IsValid d → Fine d (decode leb d src)
  unfolding decode
  decode-IsValid d src v =
      resume_path-Fine d.path (record d { path = none }) src refl v.fits v.holds
