-- ===== src/Values/Runtime/Sent.antt =====
-- What is written by the encoder, and read back by the decoder.
use wrpc.Prelude.{ℕ, ◌<◌, ◌≡◌, true, List, [], ◌++◌, Bytes, Result, ok, All, u32_mod, arith}
use wrpc.Leb128.{Leb128, ReadLeb128}
use wrpc.Reader.{Reader}
use wrpc.Frame.Header.{CoreName}
use wrpc.Values.{NumTy, Ty, MaybeTy, Value, MaybeValue, same_num}
use wrpc.Values.Prims.{Prims}
use wrpc.Values.Reads.{Reads}
use wrpc.Values.Runtime.{Writes}
use wrpc.Values.Runtime.Handles.{Host}
use wrpc.Values.Runtime.Encoder.{encode_val, encode_val_payload}
use wrpc.Values.Runtime.Decoder.{read_val, read_val_payload}
use wrpc.Values.Runtime.Paths.{sources, sources_payload, located, located_payload}

-- The sub-streams of all paths can be opened.
abbrev pub Opened : (List ℕ → Result (List ℕ)) → Writes → Type 0
Opened index writes = All (λ w. index (w.0) ≡ ok (w.0)) writes

-- What is written, with the sources that are deferred; and read back, at any path, with the
-- sub-streams of their paths.
abbrev pub Sent :
    {A : Type 0}
    → (List ℕ → Result (List ℕ))
    → Result (Bytes × Writes)
    → (List ℕ → Writes)
    → (List ℕ → Bytes → Result (A × Bytes))
    → (List ℕ → A)
    → Type 0
Sent index written deferred read at =
    (b : Bytes) × (written ≡ ok (b, deferred []))
    × ((path : List ℕ) → Opened index (deferred path) → Reads b (read path) (at path))

pub same_num_lem : (k : NumTy) → same_num k k ≡ true
same_num_lem k = ground arith

module _ {leb : Leb128} (p : Prims leb) (core_name : CoreName leb) (leb_reader : ReadLeb128 leb)
    (reader : Reader) (host : Host) (index : List ℕ → Result (List ℕ)) where
  abbrev pub encode : Value → Ty → Result (Bytes × Writes)
  encode = encode_val p core_name host

  abbrev pub read : Ty → List ℕ → Bytes → Result (Value × Bytes)
  read = read_val p leb_reader reader host index

  abbrev pub SentVal : Value → Ty → Type 0
  SentVal v t = Sent index (encode v t) (λ path. sources path v) (read t) (λ path. located path v)

  abbrev pub SentPayload : MaybeValue → MaybeTy → Type 0
  SentPayload v m =
      Sent index (encode_val_payload p core_name host v m) (λ path. sources_payload path v)
        (read_val_payload p leb_reader reader host index m) (λ path. located_payload path v)

  pub Reads-read_u32 : (n : ℕ) → n < u32_mod → Reads (leb.encode n) leb_reader.read_u32 n
  Reads-read_u32 n h rest =
      leb_reader.read_u32-got (leb.encode n ++ rest) n rest (leb.decode-encode n rest h)
