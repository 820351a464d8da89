-- ===== src/Values/Wave/Reading.antt =====
-- Steps of `read_value` of crates/wave/src/decode.rs, and the types of what they give.
use wrpc.Prelude.{
  ℕ, zero, suc, ◌<◌, ◌≡◌, refl, ap, sym, ◌∙◌, subst, Bool, true, false, none, some, Option, Bytes,
  Result, ok, ◌>>=◌, bind_ok, u32_mod, invalid_data, inl, inr, if◌then◌else◌,
}
use wrpc.Leb128.{Leb128, ReadLeb128, Read-cases}
use wrpc.Reader.{Reader}
use wrpc.Values.{
  Ty, MaybeTy, CaseTys, Value, MaybeValue, Values, size, result_of, case_ty, result_ok, result_err,
  no_value, some_value, no_values, value,
}
use wrpc.Values.Prims.{Prims}
use wrpc.Values.Discriminants.{or_err, get_case}
use wrpc.Values.Typing.{HasType, HasMaybeType, HasOptionalType, AllHaveType}
use wrpc.Values.Wave.{read_list, read_optional, make, read_payload}
use wrpc.Values.Wave.Types.{WasmType}

pub or_err_ok : {A : Type 0} (e : _) (o : Option A) (a : A) → or_err e o ≡ ok a → o ≡ some a
or_err_ok e none a h = cc
or_err_ok e (some b) a h = cc

module _ {leb : Leb128} (leb_reader : ReadLeb128 leb) where
  pub read_u32-lt :
      (src : Bytes) (n : ℕ) (rest : Bytes) → leb_reader.read_u32 src ≡ ok (n, rest) → n < u32_mod
  read_u32-lt src n rest h = elim (Read-cases (leb.decode src)) [
    | inl e ↦ cc (leb_reader.read_u32-more src e)
    | inr (inl (m, rest', e)) ↦
        let same : m ≡ n = cc (leb_reader.read_u32-got src m rest' e) in
        subst (λ q. q < u32_mod) same (leb.decode-lt src m rest' e)
    | inr (inr (k, rest', e)) ↦ cc (leb_reader.read_u32-bad src k rest' e)
  ]

pub get_case_first :
    (n : Bytes) (m : MaybeTy) (cases : CaseTys) (name : Bytes)
    → n ≡ name
    → get_case (case_ty n m cases) 0 ≡ some (name, m)
unfolding get_case
get_case_first n m cases name e = cc

pub get_case_later :
    (n : Bytes) (m : MaybeTy) (cases : CaseTys) (i : ℕ) (name : Bytes) (k : MaybeTy)
    → get_case cases i ≡ some (name, k)
    → get_case (case_ty n m cases) (suc i) ≡ some (name, k)
unfolding get_case
get_case_later n m cases i name k e = e

module _ {leb : Leb128} (p : Prims leb) (leb_reader : ReadLeb128 leb) (reader : Reader)
    (types : WasmType) (makes : (t : Ty) (v w : Value) → types.make t v ≡ some w → w ≡ v) where
  -- The value that `make` returns is the one that was put together.
  pub made :
      (t : Ty) (v : Value) (rx : Bytes) (w : Value) (rest : Bytes)
      → make p leb_reader reader types t v rx ≡ ok (w, rest)
      → HasType p false v t
      → HasType p false w t
  unfolding make
  made t v rx w rest e h =
      let (x, ex, k) = bind_ok (or_err invalid_data (types.make t v)) _ e in
      let same : v ≡ w = sym (makes t v x (or_err_ok invalid_data (types.make t v) x ex)) ∙ cc in
      subst (λ q. HasType p false q t) same h

  -- Reading elements one after the other.
  pub read_list-AllHaveType :
      (n : ℕ) (t : Ty) (read : Bytes → Result (Value × Bytes))
      → ((rx : Bytes) (v : Value) (rest : Bytes) → read rx ≡ ok (v, rest) → HasType p false v t)
      → (rx : Bytes) (vs : Values) (rest : Bytes) → read_list n read rx ≡ ok (vs, rest)
      → (size vs ≡ n) × AllHaveType p false vs t
  unfolding read_list
  read_list-AllHaveType zero t read typed rx no_values rest e = (refl, tt)
  read_list-AllHaveType zero t read typed rx (value v vs) rest e = cc
  read_list-AllHaveType (suc n) t read typed rx vs rest e =
      let ((v, rx'), e1, k1) = bind_ok (read rx) _ e in
      let ((ws, rx''), e2, k2) = bind_ok (read_list n read rx') _ k1 in
      let (l, h) = read_list-AllHaveType n t read typed rx' ws rx'' e2 in
      let same : value v ws ≡ vs = cc in
      subst (λ q. (size q ≡ suc n) × AllHaveType p false q t) same
        (ap suc l, (typed rx v rx' e1, h))

  pub read_optional-HasOptionalType :
      (b : Bool) (t : Ty) (read : Bytes → Result (Value × Bytes))
      → ((rx : Bytes) (v : Value) (rest : Bytes) → read rx ≡ ok (v, rest) → HasType p false v t)
      → (rx : Bytes) (m : MaybeValue) (rest : Bytes) → read_optional b read rx ≡ ok (m, rest)
      → HasOptionalType p false m t
  unfolding read_optional
  read_optional-HasOptionalType false t read typed rx no_value rest e = tt
  read_optional-HasOptionalType false t read typed rx (some_value v) rest e = cc
  read_optional-HasOptionalType true t read typed rx m rest e =
      let ((v, rx'), e1, k1) = bind_ok (read rx) _ e in
      let same : some_value v ≡ m = cc in
      subst (λ q. HasOptionalType p false q t) same (typed rx v rx' e1)

  pub result_typed :
      (o x : MaybeTy) (b : Bool)
      → ((rx : Bytes) (m : MaybeValue) (rest : Bytes)
          → read_payload p leb_reader reader types o rx ≡ ok (m, rest)
          → HasMaybeType p false m o)
      → ((rx : Bytes) (m : MaybeValue) (rest : Bytes)
          → read_payload p leb_reader reader types x rx ≡ ok (m, rest)
          → HasMaybeType p false m x)
      → (rx : Bytes) (v : Value) (rest : Bytes)
      → ((if b
              then read_payload p leb_reader reader types o
              else read_payload p leb_reader reader types x)
            rx
          >>= λ got.
              make p leb_reader reader types
                (result_of o x)
                (if b then result_ok (got.0) else result_err (got.0))
                (got.1))
        ≡ ok (v, rest)
      → HasType p false v (result_of o x)
  result_typed o x true good bad rx v rest e =
      let ((m, rx'), e1, k1) = bind_ok (read_payload p leb_reader reader types o rx) _ e in
      made (result_of o x) (result_ok m) rx' v rest k1 (o, x, refl, good rx m rx' e1)
  result_typed o x false good bad rx v rest e =
      let ((m, rx'), e1, k1) = bind_ok (read_payload p leb_reader reader types x rx) _ e in
      made (result_of o x) (result_err m) rx' v rest k1 (x, o, refl, bad rx m rx' e1)
