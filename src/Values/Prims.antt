-- ===== src/Values/Prims.antt =====
-- What the crates `bytes`, `tokio` and `wasm_tokio` do for the coders of values: an interface, with
-- what is documented of it.
use wrpc.Prelude.{ℕ, ◌<◌, ◌≡◌, Bool, true, false, ◌∷◌, ◌++◌, Bytes, Result, ok, length, u32_mod}
use wrpc.Leb128.{Leb128}
use wrpc.Values.{NumTy}

pub record Prims (leb : Leb128) : Type 0 where
  -- `put_u8` and the like, LEB128 and UTF-8; and the reading of them. `fits` says which bits are
  -- those of a value of the type.
  pub fits : NumTy → ℕ → Bool
  pub put : NumTy → ℕ → Bytes
  pub read : NumTy → Bytes → Result (ℕ × Bytes)
  pub read-put :
      (k : NumTy) (n : ℕ) (rest : Bytes) → fits k n ≡ true → read k (put k n ++ rest) ≡ ok (n, rest)
  -- Strings: `read_core_name`.
  pub utf8 : Bytes → Bool
  pub read_core_name : Bytes → Result (Bytes × Bytes)
  pub read_core_name_lem :
      (s rest : Bytes)
      → utf8 s ≡ true
      → length s < u32_mod
      → read_core_name ((leb.encode (length s) ++ s) ++ rest) ≡ ok (s, rest)
  -- The status bytes of an option and of a result.
  pub read_option_status : Bytes → Result (Bool × Bytes)
  pub read_option_status-none : (rest : Bytes) → read_option_status (0 ∷ rest) ≡ ok (false, rest)
  pub read_option_status-some : (rest : Bytes) → read_option_status (1 ∷ rest) ≡ ok (true, rest)
  pub read_result_status : Bytes → Result (Bool × Bytes)
  pub read_result_status-ok : (rest : Bytes) → read_result_status (0 ∷ rest) ≡ ok (true, rest)
  pub read_result_status-err : (rest : Bytes) → read_result_status (1 ∷ rest) ≡ ok (false, rest)

-- What is read is a value of the type: bits that are those of one, and a name that is UTF-8 and
-- whose length is a `u32`.
pub record ReadsValid {leb : Leb128} (p : Prims leb) : Type 0 where
  pub read-fits :
      (k : NumTy) (src : Bytes) (n : ℕ) (rest : Bytes)
      → p.read k src ≡ ok (n, rest)
      → p.fits k n ≡ true
  pub read_core_name-utf8 :
      (src s rest : Bytes)
      → p.read_core_name src ≡ ok (s, rest)
      → (p.utf8 s ≡ true) × (length s < u32_mod)
