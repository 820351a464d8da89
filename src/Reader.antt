-- ===== src/Reader.antt =====
-- `AsyncReadExt` of the crate `tokio` over a reader whose bytes up to its end are given, as far as
-- crates/transport uses it: an interface with what is documented of it.
use wrpc.Prelude.{
  ℕ, ◌<◌, ◌≡◌, refl, [], ◌∷◌, ◌++◌, Bytes, Result, ok, err, unexpected_eof, length, take, drop, ltb,
  if◌then◌else◌, arith, take-length_append, drop-length_append, length-append, length-take,
  take-append-drop,
}

pub record Reader : Type 0 where
  pub read_u8 : Bytes → Result (ℕ × Bytes)
  pub read_exact : ℕ → Bytes → Result (Bytes × Bytes)
  pub read_u8-cons : (b : ℕ) (rest : Bytes) → read_u8 (b ∷ rest) ≡ ok (b, rest)
  pub read_u8-nil : read_u8 [] ≡ err unexpected_eof
  pub read_exact-append : (xs rest : Bytes) → read_exact (length xs) (xs ++ rest) ≡ ok (xs, rest)
  pub read_exact_takes :
      (n : ℕ) (src xs rest : Bytes)
      → read_exact n src ≡ ok (xs, rest)
      → (length xs ≡ n) × (src ≡ xs ++ rest)
  pub read_exact_short :
      (n : ℕ) (src : Bytes) → length src < n → read_exact n src ≡ err unexpected_eof

-- A reader over a byte slice meets the interface.
unfoldable pub slice_u8 : Bytes → Result (ℕ × Bytes)
slice_u8 [] = err unexpected_eof
slice_u8 (b ∷ rest) = ok (b, rest)

unfoldable pub slice_exact : ℕ → Bytes → Result (Bytes × Bytes)
slice_exact n src = if ltb (length src) n then err unexpected_eof else ok (take n src, drop n src)

pub slice_exact-append : (xs rest : Bytes) → slice_exact (length xs) (xs ++ rest) ≡ ok (xs, rest)
unfolding slice_exact
slice_exact-append xs rest =
    ground (arith, length-append xs rest, take-length_append xs rest, drop-length_append xs rest)

pub slice_exact_takes :
    (n : ℕ) (src xs rest : Bytes)
    → slice_exact n src ≡ ok (xs, rest)
    → (length xs ≡ n) × (src ≡ xs ++ rest)
unfolding slice_exact
slice_exact_takes n src xs rest h = ground (arith, length-take n src, take-append-drop n src)

pub slice_exact_short :
    (n : ℕ) (src : Bytes) → length src < n → slice_exact n src ≡ err unexpected_eof
unfolding slice_exact
slice_exact_short n src h = ground arith

unfoldable pub slice : Reader
unfolding slice_u8 slice_exact
slice = record {
  read_u8 = slice_u8;
  read_exact = slice_exact;
  read_u8-cons = λ b rest. refl;
  read_u8-nil = refl;
  read_exact-append = slice_exact-append;
  read_exact_takes = slice_exact_takes;
  read_exact_short = slice_exact_short;
}
