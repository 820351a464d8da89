-- ===== src/Frame/Decoder.antt =====
-- `Decoder` of crates/transport/src/frame/codec.rs: it keeps what it has read of a frame between
-- two calls. Capacities of buffers are left out, they do not show in any result.
use wrpc.Prelude.{
  ℕ, zero, suc, ◌*◌, ◌^◌, List, [], ◌∷◌, ◌++◌, Option, none, some, Bytes, Result, ok, err,
  invalid_input, ltb, ◌==◌, if◌then◌else◌, length, take, drop,
}
use wrpc.Leb128.{Leb128, Read, got, more, bad}
use wrpc.Frame.{Frame}

pub record Decoder : Type 0 where
  pub path : Option (List ℕ)
  pub path_cap : ℕ
  pub data_len : ℕ
  pub max_depth : ℕ
  pub max_size : ℕ

-- `Decoder::new`.
abbrev pub new : ℕ → ℕ → Decoder
new max_depth max_size = record {
  path = none;
  path_cap = 0;
  data_len = 0;
  max_depth = max_depth;
  max_size = max_size;
}

-- `DEFAULT_MAX_DEPTH`, `DEFAULT_MAX_SIZE` and `Decoder::default`.
abbrev pub default_max_depth : ℕ
default_max_depth = 64

abbrev pub default_max_size : ℕ
default_max_size = 16 * 2 ^ 20

abbrev pub default : Decoder
default = new default_max_depth default_max_size

-- What a call of `decode` returns, the decoder after it, and what is left of the buffer.
abbrev pub Outcome : Type 0
Outcome = Result (Option Frame) × Decoder × Bytes

module _ (leb : Leb128) where
  -- The data, once its length is known.
  unfoldable pub take_data : Decoder → List ℕ → Bytes → Outcome
  take_data d path src =
      if ltb (length src) d.data_len then (ok none, record d { path = some path }, src) else (
        ok (some (record { path = path; content = take d.data_len src })),
        record d { data_len = 0 },
        drop d.data_len src,
      )

  -- The answer to the read of the data length.
  unfoldable pub data_length : Decoder → List ℕ → Bytes → Read → Outcome
  data_length d path src more = (ok none, record d { path = some path }, src)
  data_length d path src (bad e rest) = (err e, d, rest)
  data_length d path src (got n rest) =
      if ltb d.max_size n
      then (err invalid_input, d, rest)
      else (if n == 0
          then (ok (some (record { path = path; content = [] })), record d { data_len = n }, rest)
          else take_data (record d { data_len = n }) path rest)

  -- The rest of a frame after its path.
  unfoldable pub decode_data : Decoder → List ℕ → Bytes → Outcome
  decode_data d path src =
      if d.data_len == 0 then data_length d path src (leb.decode src) else take_data d path src

  -- `while self.path_cap > 0`: the first argument is the decoder's `path_cap`.
  unfoldable pub decode_path : ℕ → Decoder → List ℕ → Bytes → Outcome
  decode_path zero d path src = decode_data d path src
  decode_path (suc k) d path src = elim (leb.decode src) [
    | more ↦ (ok none, record d { path = some path }, src)
    | bad e rest ↦ (err e, d, rest)
    | got i rest ↦ decode_path k (record d { path_cap = k }) (path ++ i ∷ []) rest
  ]

  -- The answer to the read of the path length.
  unfoldable pub path_length : Decoder → Bytes → Read → Outcome
  path_length d src more = (ok none, d, src)
  path_length d src (bad e rest) = (err e, d, rest)
  path_length d src (got n rest) =
      if ltb d.max_depth n
      then (err invalid_input, d, rest)
      else decode_path n (record d { path_cap = n }) [] rest

  -- `self.path.take()`, and the path that it held.
  unfoldable pub resume_path : Option (List ℕ) → Decoder → Bytes → Outcome
  resume_path none d src = path_length d src (leb.decode src)
  resume_path (some path) d src = decode_path d.path_cap d path src

  -- `Decoder::decode`.
  unfoldable pub decode : Decoder → Bytes → Outcome
  decode d src = resume_path d.path (record d { path = none }) src
