-- ===== src/Values/Reads.antt =====
-- Reads of what was written, with any bytes behind it.
use wrpc.Prelude.{◌≡◌, refl, ◌++◌, Bytes, Result, ok, ◌>>=◌, append_assoc}

-- The reader takes the bytes `b` from the front, and gives `a`.
abbrev pub Reads : {A : Type 0} → Bytes → (Bytes → Result (A × Bytes)) → A → Type 0
Reads b read a = (rest : Bytes) → read (b ++ rest) ≡ ok (a, rest)

-- What is written, and read back as `a`.
abbrev pub Carried : {A : Type 0} → Result Bytes → (Bytes → Result (A × Bytes)) → A → Type 0
Carried written read a = (b : Bytes) × (written ≡ ok b) × Reads b read a

module _ {A C : Type 0} where
  pub Reads-then :
      (b c : Bytes) (first : Bytes → Result (A × Bytes)) (next : A → Bytes → Result (C × Bytes))
      (a : A) (d : C)
      → Reads b first a
      → Reads c (next a) d
      → Reads (b ++ c) (λ rx. first rx >>= λ got. next (got.0) (got.1)) d
  Reads-then b c first next a d h k rest = rw (append_assoc b c rest, h (c ++ rest)) (k rest)

  pub Reads-map :
      (b : Bytes) (read : Bytes → Result (A × Bytes)) (f : A → C) (a : A)
      → Reads b read a
      → Reads b (λ rx. read rx >>= λ got. ok (f (got.0), got.1)) (f a)
  Reads-map b read f a h rest = rw (h rest) refl
