-- ===== src/Examples/Headers.antt =====
-- Runs of the invocation header of crates/transport/src/frame: client.rs and codec.rs.
use wrpc.Prelude.{
  ◌≤◌, ◌<◌, ◌≡◌, refl, Bool, true, ◌&&◌, [], ◌∷◌, ◌++◌, arith, Bytes, Result, ok, err,
  invalid_input, length, ltb, u32_mod, if◌then◌else◌,
}
use wrpc.Leb128.Varint.{varint, read_varint, write}
use wrpc.Leb128.Varint as V
use wrpc.Reader.{slice, slice_u8, slice_exact}
use wrpc.Frame.Header.{
  header, CoreName, default, encode_invocation, read_name, read_names, read_version, read,
}
use wrpc.Frame.Header.RoundTrip.{params_frame, read-encode_invocation}

-- A coder of names that meets the interface.
abbrev pub put_name : Bytes → Bytes → Result Bytes
put_name s dst =
    if ltb (length s) u32_mod then ok (dst ++ varint.encode (length s) ++ s) else err invalid_input

pub put_name_short :
    (s dst : Bytes)
    → length s < u32_mod
    → put_name s dst ≡ ok (dst ++ varint.encode (length s) ++ s)
put_name_short s dst h = ground arith

pub put_name_long : (s dst : Bytes) → u32_mod ≤ length s → put_name s dst ≡ err invalid_input
put_name_long s dst h = ground arith

abbrev pub names : CoreName varint
names = record { encode = put_name; encode_lem = put_name_short; encode_long = put_name_long }

abbrev pub ascii : Bytes → Bool
ascii [] = true
ascii (b ∷ bs) = ltb b 128 && ascii bs

abbrev pub params : Bytes
params = 4 ∷ 5 ∷ 6 ∷ []

-- The names `a` and `go`, and three bytes of parameters.
abbrev pub invocation : Bytes
invocation = 1 ∷ 1 ∷ 97 ∷ 2 ∷ 103 ∷ 111 ∷ 0 ∷ 3 ∷ []

pub encodes :
    encode_invocation varint names [] (97 ∷ []) (103 ∷ 111 ∷ []) (length params) ≡ ok invocation
unfolding encode_invocation varint write
encodes = refl

read-encode_invocation_example :
    read varint ascii read_varint slice default (invocation ++ params ++ 9 ∷ [])
    ≡ header
        (record { instance_name = 97 ∷ []; name = 103 ∷ 111 ∷ [] })
        (params_frame varint params ++ 9 ∷ [])
read-encode_invocation_example =
    read-encode_invocation varint ascii read_varint slice names default (97 ∷ []) (103 ∷ 111 ∷ [])
      params invocation (9 ∷ []) encodes (omega arith) (omega arith) refl refl

reads :
    read varint ascii read_varint slice default invocation
    ≡ header (record { instance_name = 97 ∷ []; name = 103 ∷ 111 ∷ [] }) (0 ∷ 3 ∷ [])
unfolding read read_version read_names read_name read_varint varint slice slice_u8 slice_exact
    V.answer V.decode V.read
reads = refl
