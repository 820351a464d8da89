-- ===== src/Frame/Header.antt =====
-- The header of an invocation: `encode_invocation` of crates/transport/src/frame/conn/client.rs,
-- `read_name` and `HeaderDecoder::read` of crates/transport/src/frame/codec.rs.
-- A `String` is its bytes.
pub mod RoundTrip
pub mod Limits
use wrpc.Prelude.{
  ℕ, ◌≤◌, ◌<◌, ◌≡◌, Bool, [], ◌∷◌, ◌++◌, Bytes, ErrorKind, Result, ok, err, ◌>>=◌, invalid_data,
  invalid_input, try_u32, u32_mod, length, ltb, ◌==◌, if◌then◌else◌, ◌^◌,
}
use wrpc.Leb128.{Leb128, ReadLeb128}
use wrpc.Reader.{Reader}

-- `PROTOCOL` of frame/mod.rs.
abbrev pub protocol : ℕ
protocol = 1

abbrev pub default_max_name_len : ℕ
default_max_name_len = 2 ^ 10

pub record Header : Type 0 where
  pub instance_name : Bytes
  pub name : Bytes

pub record HeaderDecoder : Type 0 where
  pub max_instance_len : ℕ
  pub max_name_len : ℕ

-- `HeaderDecoder::default`.
abbrev pub default : HeaderDecoder
default = record { max_instance_len = default_max_name_len; max_name_len = default_max_name_len }

-- `Result<Header, HeaderReadError>`, with what is left of the stream behind a header.
pub data HeaderRead : Type 0 where
  header : Header → Bytes → HeaderRead
  io : ErrorKind → HeaderRead
  unsupported_version : ℕ → HeaderRead

-- `CoreNameEncoder` of the crate `wasm_tokio`, which writes the length of a name and its bytes.
pub record CoreName (leb : Leb128) : Type 0 where
  pub encode : Bytes → Bytes → Result Bytes
  pub encode_lem :
      (s dst : Bytes) → length s < u32_mod → encode s dst ≡ ok (dst ++ leb.encode (length s) ++ s)
  pub encode_long : (s dst : Bytes) → u32_mod ≤ length s → encode s dst ≡ err invalid_input

module _ (leb : Leb128) where
  -- The bytes that are put behind `buf`.
  unfoldable pub encode_invocation : CoreName leb → Bytes → Bytes → Bytes → ℕ → Result Bytes
  encode_invocation core_name buf instance_name func params_len = do
    n ← try_u32 params_len
    buf' ← core_name.encode instance_name (buf ++ protocol ∷ [])
    buf'' ← core_name.encode func buf'
    if ltb 0 n then ok (buf'' ++ 0 ∷ [] ++ leb.encode n) else ok buf''

  -- `utf8` says whether `String::from_utf8` accepts the bytes.
  module _ (utf8 : Bytes → Bool) (leb_reader : ReadLeb128 leb) (reader : Reader) where
    unfoldable pub read_name : ℕ → Bytes → Result (Bytes × Bytes)
    read_name max_len rx = do
      (n, rx') ← leb_reader.read_u32 rx
      if ltb max_len n then err invalid_data else (do
        (buf, rx'') ← reader.read_exact n rx'
        if utf8 buf then ok (buf, rx'') else err invalid_data)

    -- What comes after the version byte, as a chain of `?`.
    unfoldable pub read_names : HeaderDecoder → Bytes → Result (Header × Bytes)
    read_names d rx = do
      (instance_name, rx') ← read_name d.max_instance_len rx
      (name, rx'') ← read_name d.max_name_len rx'
      ok (record { instance_name = instance_name; name = name }, rx'')

    -- `map_err(HeaderReadError::IO)`.
    abbrev pub io_error : Result (Header × Bytes) → HeaderRead
    io_error (ok (h, rest)) = header h rest
    io_error (err e) = io e

    unfoldable pub read_version : HeaderDecoder → Result (ℕ × Bytes) → HeaderRead
    read_version d (err e) = io e
    read_version d (ok (v, rx)) =
        if v == protocol then io_error (read_names d rx) else unsupported_version v

    -- `HeaderDecoder::read`.
    unfoldable pub read : HeaderDecoder → Bytes → HeaderRead
    read d rx = read_version d (reader.read_u8 rx)
