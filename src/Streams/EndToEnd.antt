-- ===== src/Streams/EndToEnd.antt =====
-- A stream from `write_stream_bytes` or `write_stream_read` to `StreamDecoderBytes`, all of
-- crates/transport/src/value.rs.
use wrpc.Prelude.{
  ◌<◌, ◌≡◌, refl, ap, sym, ◌∙◌, subst, true, false, inl, inr, List, [], ◌∷◌, ◌++◌, map, Bytes,
  Result, ok, err, broken_pipe, length, u32_mod, All, arith,
}
use wrpc.Leb128.{Leb128}
use wrpc.Conn.Outgoing.{Channel, Outgoing}
use wrpc.Conn.Outgoing.Chunks.{flatten}
use wrpc.Conn.Outgoing.Stream as Stream
use wrpc.Conn.Outgoing.Stream.{running, finished}
use wrpc.Conn.Outgoing.Stream.Framing.{framed, SentSince, Holds, Steps-Holds}
use wrpc.Conn.Outgoing.Stream.Reads.{ReadSteps, before_end, ReadSteps-Holds}
use wrpc.Conn.Outgoing.Stream.Reads as Reads
use wrpc.Streams.{ChunkDecoder, BufferedIncoming, State, receiving, Steps, start}
use wrpc.Streams as Streams
use wrpc.Streams.Receives.{Yields, Steps-Receives}
use wrpc.Streams.Receives as Receives

abbrev pub IsSmall : Bytes → Type 0
IsSmall c = length c < u32_mod

-- The chunks that are not empty.
abbrev pub non_empty : List Bytes → List Bytes
non_empty [] = []
non_empty ([] ∷ items) = non_empty items
non_empty ((b ∷ bs) ∷ items) = (b ∷ bs) ∷ non_empty items

-- The receiver got the front of the chunks `all` in order. If its task ended without an error, it
-- got all of them, and was told that there are no more; the only error is that it was dropped.
abbrev pub Arrived : {S : Type 0} → List Bytes → State S → Type 0
Arrived all (receiving f sent) = (later : List Bytes) × (sent ++ later ≡ all)
Arrived all (Streams.State.finished (ok u) told sent) = (sent ≡ all) × (told ≡ true)
Arrived all (Streams.State.finished (err e) told sent) =
    (later : List Bytes) × (sent ++ later ≡ all) × (told ≡ false) × (e ≡ broken_pipe)

append-cancel : {A : Type 0} (xs ys zs : List A) → xs ++ ys ≡ xs ++ zs → ys ≡ zs
append-cancel [] ys zs e = e
append-cancel (x ∷ xs) ys zs e = append-cancel xs ys zs cc

on_path-injective :
    (path : Bytes) (xs ys : List Bytes)
    → map {B = Bytes × Bytes} (λ x. (path, x)) xs ≡ map (λ x. (path, x)) ys
    → xs ≡ ys
on_path-injective path [] [] e = refl
on_path-injective path [] (y ∷ ys) e = cc
on_path-injective path (x ∷ xs) [] e = cc
on_path-injective path (x ∷ xs) (y ∷ ys) e =
    let same = on_path-injective path xs ys cc in
    let head : x ≡ y = cc in ap (λ q. q ∷ xs) head ∙ ap (λ q. y ∷ q) same

module _ (leb : Leb128) {S : Type 0} (chunks : ChunkDecoder leb S) where
  Yields-framed :
      (items : List Bytes) (s : S)
      → All IsSmall items
      → chunks.Ready s
      → Yields chunks.decode s (framed leb items) (non_empty items) []
  unfolding framed
  Yields-framed [] s h ready =
      let (t, e, k) = chunks.decode_chunk s [] [] ready (omega arith) in
      (t, ap (λ q. chunks.decode s ((q ++ []) ++ [])) (sym leb.encode-zero) ∙ e)
  Yields-framed ([] ∷ items) s (h, hs) ready = Yields-framed items s hs ready
  Yields-framed ((b ∷ bs) ∷ items) s (h, hs) ready =
      let (t, e, k) = chunks.decode_chunk s (b ∷ bs) (framed leb items) ready h in
      (t, framed leb items, b, bs, refl, e, Yields-framed items t hs k)

  weaken : (all : List Bytes) (q : State S) → Receives.Holds chunks.decode all [] q → Arrived all q
  weaken all (receiving f sent) (items, w, y) = (items, w)
  weaken all (Streams.State.finished (ok u) told sent) h = h
  weaken all (Streams.State.finished (err e) told sent) (items, w, t, inl x) = (items, w, t, x)
  weaken all (Streams.State.finished (err e) told sent) (items, w, t, inr (x, (b, bs, n))) = cc

  module _ (o : Outgoing) where
    -- The messages of a stream that was sent whole, at its receiver.
    arrives :
        (c c' : Channel) (items xs : List Bytes) (u : Unit {0}) (dec : S) (r : BufferedIncoming)
        (q : State S)
        → All IsSmall items
        → chunks.Ready dec
        → Holds leb o c items (finished (ok u) c')
        → SentSince leb o c c' xs
        → r.buffer ++ r.inner ≡ flatten xs
        → Steps chunks.decode (start dec r) q
        → Arrived (non_empty items) q
    arrives c c' items xs u dec r q small ready (ys, h, w) sent e steps =
        let same : xs ≡ ys = on_path-injective o.path_buf xs ys (
          append-cancel c.sent (map {B = Bytes × Bytes} (λ x. (o.path_buf, x)) xs)
            (map {B = Bytes × Bytes} (λ x. (o.path_buf, x)) ys) (sym sent ∙ h)) in
        weaken (non_empty items) q (
          Steps-Receives chunks.decode chunks.resumable (non_empty items) [] dec r q
            (subst (λ b. Yields chunks.decode dec b (non_empty items) [])
              (sym (e ∙ ap flatten same ∙ w)) (Yields-framed items dec small ready))
            steps)

    -- Where `write_stream_bytes` returned without an error, for chunks whose lengths fit 32 bits,
    -- and the data of the messages `xs` that it sent on the path of its handle is what the
    -- receiver has, and has still to get, from the start: in whatever order the branches of the
    -- loop were taken, and in whatever pieces the data comes, the receiver gets the chunks that
    -- are not empty in order, and if its task returns without an error, all of them and their
    -- end. The only error is that the receiving stream was dropped.
    pub write_stream_bytes-Arrived :
        (c c' : Channel) (items xs : List Bytes) (u : Unit {0}) (dec : S) (r : BufferedIncoming)
        (q : State S)
        → All IsSmall items
        → chunks.Ready dec
        → Stream.Steps leb o (running items [] c) (finished (ok u) c')
        → c'.sent ≡ c.sent ++ map (λ x. (o.path_buf, x)) xs
        → r.buffer ++ r.inner ≡ flatten xs
        → Steps chunks.decode (start dec r) q
        → Arrived (non_empty items) q
    write_stream_bytes-Arrived c c' items xs u dec r q small ready writes sent e steps =
        arrives c c' items xs u dec r q small ready
          (Steps-Holds leb o c items (finished (ok u) c') writes) sent e steps

    -- Where `write_stream_read` returned without an error, for chunks whose lengths fit 32 bits,
    -- and the data of the messages `xs` that it sent on the path of its handle is what the
    -- receiver has, and has still to get, from the start: in whatever order the branches of the
    -- loop were taken, and in whatever pieces the data comes, the receiver gets what was ready, if
    -- that is not empty, and the chunks of the reader up to its end, in order, and if its task
    -- returns without an error, all of them and their end. The only error is that the receiving
    -- stream was dropped.
    pub write_stream_read-Arrived :
        (ending : Result (Unit {0})) (c c' : Channel) (reads xs : List Bytes) (ready : Bytes)
        (u : Unit {0}) (dec : S) (r : BufferedIncoming) (q : State S)
        → All IsSmall (ready ∷ before_end leb o reads)
        → chunks.Ready dec
        → ReadSteps leb o ending (Reads.start leb o reads ready c) (finished (ok u) c')
        → c'.sent ≡ c.sent ++ map (λ x. (o.path_buf, x)) xs
        → r.buffer ++ r.inner ≡ flatten xs
        → Steps chunks.decode (start dec r) q
        → Arrived (non_empty (ready ∷ before_end leb o reads)) q
    write_stream_read-Arrived ending c c' reads xs ready u dec r q small k writes sent e steps =
        arrives c c' (ready ∷ before_end leb o reads) xs u dec r q small k
          (ReadSteps-Holds leb o ending c reads ready (ok u) c' writes) sent e steps
