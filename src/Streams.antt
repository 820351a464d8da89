-- ===== src/Streams.antt =====
-- The receiving of a byte stream: `StreamDecoderBytes` of crates/transport/src/value.rs, over
-- `BufferedIncoming` of crates/transport/src/lib.rs, as a step relation, since data comes in
-- pieces of any length. The decoder of the chunks is `CoreVecDecoderBytes` of the crate wasm_tokio,
-- and a parameter.
pub mod Receives
pub mod Finishes
pub mod EndToEnd
use wrpc.Prelude.{
  ℕ, Bool, true, false, ◌≡◌, List, [], ◌∷◌, ◌++◌, Option, none, some, Bytes, ErrorKind, Result, ok,
  err, invalid_data, unexpected_eof, broken_pipe, length, u32_mod, ◌<◌,
}
use wrpc.Leb128.{Leb128}
use wrpc.Lists.{Decoded}
use wrpc.Lists.Resume.{IsResumable}

-- `CoreVecDecoderBytes`, with what is documented of it: a chunk is its length and its bytes, which
-- may come in pieces. `Ready` says that it has read no part of a chunk.
pub record ChunkDecoder (leb : Leb128) (S : Type 0) : Type 1 where
  pub decode : S → Bytes → Decoded S Bytes
  pub Ready : S → Type 0
  pub resumable : IsResumable decode
  pub decode_chunk :
      (s : S) (c rest : Bytes)
      → Ready s
      → length c < u32_mod
      → (t : S) × (decode s ((leb.encode (length c) ++ c) ++ rest) ≡ (ok (some c), (t, rest)))
        × Ready t

-- `BufferedIncoming`: what was read ahead, and what `inner` still gives up to its end, where it
-- may fail.
pub record BufferedIncoming : Type 0 where
  pub buffer : Bytes
  pub inner : Bytes
  pub failure : Option ErrorKind

-- `FramedRead` with the decoder's state.
pub record Framed (S : Type 0) : Type 0 where
  pub dec : S
  pub read_buffer : Bytes
  pub incoming : BufferedIncoming

-- In the loop with the chunks that were sent to the stream, or returned; then also whether
-- `end_tx` told the stream that it is complete.
pub data State (S : Type 0) : Type 0 where
  receiving : Framed S → List Bytes → State S
  finished : Result (Unit {0}) → Bool → List Bytes → State S

abbrev pub empty_or : Bytes → Result (Unit {0}) → Result (Unit {0})
empty_or [] r = r
empty_or (b ∷ bs) r = err invalid_data

module _ {S : Type 0} where
  unfoldable pub ensure_processed : Framed S → Result (Unit {0})
  ensure_processed f = empty_or f.read_buffer (empty_or f.incoming.buffer (ok tt))

  -- After the end of the stream.
  abbrev pub at_end : List Bytes → Result (Unit {0}) → State S
  at_end sent (err e) = finished (err e) false sent
  at_end sent (ok u) = finished (ok u) true sent

  -- After `tx.send(chunk)`, which fails if the stream was dropped.
  abbrev pub send_chunk : Bool → Framed S → List Bytes → Bytes → State S
  send_chunk true f sent chunk = receiving f (sent ++ chunk ∷ [])
  send_chunk false f sent chunk = finished (err broken_pipe) false sent

  -- The body of the loop with a chunk.
  unfoldable pub on_chunk : Bool → Framed S → List Bytes → Bytes → State S
  on_chunk alive f sent [] = at_end sent (ensure_processed f)
  on_chunk alive f sent (b ∷ bs) = send_chunk alive f sent (b ∷ bs)

  -- `framed.next()` at the end of the data: it gives nothing, or fails with `e` where the decoder
  -- left a part.
  abbrev pub on_eof : ErrorKind → List Bytes → Bytes → State S
  on_eof e sent [] = finished (err unexpected_eof) false sent
  on_eof e sent (b ∷ bs) = finished (err e) false sent

  module _ (decode : S → Bytes → Decoded S Bytes) where
    -- One round: the decoder gives a chunk, fails, or asks for more; then `poll_read` gives some
    -- of the buffer if there is any there, and of `inner` if not. `sent` are the chunks before.
    pub data Step : State S → State S → Type 0 where
      takes :
          (f : Framed S) (sent : List Bytes) (alive : Bool) (s : S) (rest chunk : Bytes)
          → decode f.dec f.read_buffer ≡ (ok (some chunk), (s, rest))
          → Step
              (receiving f sent)
              (on_chunk alive (record f { dec = s; read_buffer = rest }) sent chunk)
      fails :
          (f : Framed S) (sent : List Bytes) (s : S) (rest : Bytes) (e : ErrorKind)
          → decode f.dec f.read_buffer ≡ (err e, (s, rest))
          → Step (receiving f sent) (finished (err e) false sent)
      reads_buffer :
          (f : Framed S) (sent : List Bytes) (s : S) (rest later : Bytes) (b : ℕ) (bs : Bytes)
          → decode f.dec f.read_buffer ≡ (ok none, (s, rest))
          → f.incoming.buffer ≡ (b ∷ bs) ++ later
          → Step (receiving f sent) (
              receiving
                (record {
                  dec = s;
                  read_buffer = rest ++ b ∷ bs;
                  incoming = record f.incoming { buffer = later };
                })
                sent)
      reads_inner :
          (f : Framed S) (sent : List Bytes) (s : S) (rest later : Bytes) (b : ℕ) (bs : Bytes)
          → decode f.dec f.read_buffer ≡ (ok none, (s, rest))
          → f.incoming.buffer ≡ []
          → f.incoming.inner ≡ (b ∷ bs) ++ later
          → Step (receiving f sent) (
              receiving
                (record {
                  dec = s;
                  read_buffer = rest ++ b ∷ bs;
                  incoming = record f.incoming { buffer = []; inner = later };
                })
                sent)
      ends :
          (f : Framed S) (sent : List Bytes) (s : S) (rest : Bytes) (e : ErrorKind)
          → decode f.dec f.read_buffer ≡ (ok none, (s, rest))
          → f.incoming.buffer ≡ []
          → f.incoming.inner ≡ []
          → f.incoming.failure ≡ none
          → Step (receiving f sent) (on_eof e sent rest)
      fails_reading :
          (f : Framed S) (sent : List Bytes) (s : S) (rest : Bytes) (e : ErrorKind)
          → decode f.dec f.read_buffer ≡ (ok none, (s, rest))
          → f.incoming.buffer ≡ []
          → f.incoming.inner ≡ []
          → f.incoming.failure ≡ some e
          → Step (receiving f sent) (finished (err e) false sent)

    pub data Steps : State S → State S → Type 0 where
      stay : (s : State S) → Steps s s
      step : (s t u : State S) → Step s t → Steps t u → Steps s u

-- The task that is deferred: nothing is read yet.
abbrev pub start : {S : Type 0} → S → BufferedIncoming → State S
start dec r = receiving (record { dec = dec; read_buffer = []; incoming = r }) []
