-- ===== src/Prelude/Io.antt =====
-- `std::io::Result`: an error is known by its `std::io::ErrorKind`; messages are left out.
use Prim.Native.Nat.{ℕ, ◌^◌, ◌<◌, ◌≤◌}
use native.Mathlib.Omega.{arith}
use mathlib.Core.Path.{◌≡◌, refl}
use mathlib.Core.List.{List}
use wrpc.Prelude.Tests.{ltb, if◌then◌else◌}

pub data ErrorKind : Type 0 where
  not_found broken_pipe would_block invalid_input invalid_data unexpected_eof unsupported other :
      ErrorKind

pub data Result {ℓ} (A : Type ℓ) : Type ℓ where
  err : ErrorKind → Result A
  ok : A → Result A

-- The operator `?`: an error ends the function.
infixl 5 ◌>>=◌
abbrev pub ◌>>=◌ {ℓ} : {A B : Type ℓ} → Result A → (A → Result B) → Result B
err kind >>= next = err kind
ok got >>= next = next got

-- What a chain that succeeds has gone through.
pub bind_ok {ℓ} :
    {A B : Type ℓ} (first : Result A) (next : A → Result B) {final : B}
    → (first >>= next) ≡ ok final
    → (got : A) × (first ≡ ok got) × (next got ≡ ok final)
bind_ok (err kind) next chain = cc
bind_ok (ok got) next chain = (got, refl, chain)

abbrev pub Bytes : Type 0
Bytes = List ℕ

abbrev pub u32_mod : ℕ
u32_mod = 2 ^ 32

-- `u32::try_from` of a `usize`.
abbrev pub try_u32 : ℕ → Result ℕ
try_u32 n = if ltb n u32_mod then ok n else err invalid_input

pub try_u32-eq_ok : (n : ℕ) {m : ℕ} → try_u32 n ≡ ok m → (m ≡ n) × (n < u32_mod)
try_u32-eq_ok n h = ground arith

pub try_u32-eq_err :
    (n : ℕ) {e : ErrorKind} → try_u32 n ≡ err e → (e ≡ invalid_input) × (u32_mod ≤ n)
try_u32-eq_err n h = ground arith
