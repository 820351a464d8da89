-- ===== src/Examples/Framing.antt =====
-- Runs of the frame encoder and decoder of crates/transport/src/frame/codec.rs.
use wrpc.Prelude.{◌≡◌, refl, ◌⊎◌, [], ◌∷◌, ◌++◌, some, arith, Bytes, ok, err, invalid_input}
use wrpc.Leb128.Varint.{varint, write}
use wrpc.Frame.{Frame}
use wrpc.Frame.Encoder.{encode, encode_elements}
use wrpc.Frame.Decoder as D
use wrpc.Frame.Streaming as Streaming
use wrpc.Frame.RoundTrip.{Fits, image, encode_cases, decode-encode}
use wrpc.Frame.Limits.{IsValid, Fine, decode-IsValid}

abbrev frame : Frame
frame = record { path = 0 ∷ 300 ∷ []; content = 7 ∷ 8 ∷ 9 ∷ [] }

abbrev frame_bytes : Bytes
frame_bytes = 2 ∷ 0 ∷ 172 ∷ 2 ∷ 3 ∷ 7 ∷ 8 ∷ 9 ∷ []

encodes : encode varint frame [] ≡ ok frame_bytes
unfolding encode encode_elements varint write
encodes = refl

decode-encode_example :
    D.decode varint (D.new 4 10) (frame_bytes ++ 5 ∷ []) ≡ (ok (some frame), D.new 4 10, 5 ∷ [])
decode-encode_example =
    decode-encode varint frame 4 10 frame_bytes (5 ∷ []) encodes (omega arith) (omega arith)

encode_cases_example :
    (Fits frame × (encode varint frame (1 ∷ []) ≡ ok (1 ∷ [] ++ image varint frame)))
    ⊎ ((¬ Fits frame) × (encode varint frame (1 ∷ []) ≡ err invalid_input))
encode_cases_example = encode_cases varint frame (1 ∷ [])

decode-append_example :
    D.decode varint D.default ((2 ∷ 0 ∷ 172 ∷ []) ++ 2 ∷ 3 ∷ 7 ∷ 8 ∷ 9 ∷ [])
    ≡ Streaming.resume varint
        (D.decode varint D.default (2 ∷ 0 ∷ 172 ∷ []))
        (2 ∷ 3 ∷ 7 ∷ 8 ∷ 9 ∷ [])
decode-append_example =
    Streaming.decode-append varint D.default (2 ∷ 0 ∷ 172 ∷ []) (2 ∷ 3 ∷ 7 ∷ 8 ∷ 9 ∷ [])

new-IsValid : IsValid (D.new 4 10)
new-IsValid = record { holds = refl; fits = omega arith }

decode-IsValid_example : Fine (D.new 4 10) (D.decode varint (D.new 4 10) frame_bytes)
decode-IsValid_example = decode-IsValid varint (D.new 4 10) frame_bytes new-IsValid
