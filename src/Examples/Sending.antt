-- ===== src/Examples/Sending.antt =====
-- Runs of the sending side of crates/transport/src/frame/conn/mod.rs, and of how ingress reads
-- the beginning of a frame.
use wrpc.Prelude.{
  ◌≡◌, refl, ◌⊎◌, List, [], ◌∷◌, ◌++◌, map, arith, Bytes, ok, err, invalid_input, other, All,
}
use wrpc.Leb128.Varint.{varint, write}
use wrpc.Frame.{Frame}
use wrpc.Frame.Encoder.{encode_elements}
use wrpc.Frame.Decoder as D
use wrpc.Frame.RoundTrip.{Fits}
use wrpc.Conn.Outgoing.{Outgoing, Channel, root, index, index_at, write_bytes}
use wrpc.Conn.Outgoing.Chunks.{Writes, write_bytes-Writes}
use wrpc.Conn.Egress.{egress, write_frame}
use wrpc.Conn.Egress.Frames.{
  IsHandle, Decodes, Within, images, message_of, frame_of, root-IsHandle, index-IsHandle,
  egress_cases, egress-Decodes,
}

abbrev at_1 : Outgoing
at_1 = record { path = 1 ∷ 300 ∷ []; path_buf = 2 ∷ 1 ∷ 172 ∷ 2 ∷ [] }

indexes : index varint root (1 ∷ 300 ∷ []) ≡ ok at_1
unfolding index index_at encode_elements varint write
indexes = refl

abbrev messages : List (Outgoing × Bytes)
messages = (root, 7 ∷ []) ∷ (at_1, 8 ∷ 9 ∷ []) ∷ (at_1, []) ∷ []

handles : All (λ m. IsHandle varint m.0) messages
handles =
    let h = (index-IsHandle varint root at_1 (1 ∷ 300 ∷ []) indexes).0 in
    (root-IsHandle varint, (h, (h, tt)))

egress_cases_example :
    (All (λ m. Fits (frame_of varint m)) messages
      × (egress varint (map (message_of varint) messages) (0 ∷ [])
          ≡ ok (0 ∷ [] ++ images varint (map (frame_of varint) messages))))
    ⊎ ((¬ All (λ m. Fits (frame_of varint m)) messages)
        × (egress varint (map (message_of varint) messages) (0 ∷ []) ≡ err invalid_input))
egress_cases_example = egress_cases varint messages (0 ∷ []) handles

abbrev written : Bytes
written = 0 ∷ 1 ∷ 7 ∷ 2 ∷ 1 ∷ 172 ∷ 2 ∷ 2 ∷ 8 ∷ 9 ∷ 2 ∷ 1 ∷ 172 ∷ 2 ∷ 0 ∷ []

writes : egress varint (map (message_of varint) messages) [] ≡ ok written
unfolding egress write_frame varint write
writes = refl

within : All (Within varint 64 1024) (map (frame_of varint) messages)
within = ground arith

egress-Decodes_example :
    Decodes varint (D.new 64 1024) (map (frame_of varint) messages) (written ++ 3 ∷ []) (3 ∷ [])
egress-Decodes_example =
    egress-Decodes varint 64 1024 messages written (3 ∷ []) handles writes within

-- A channel that is closed by egress after one message.
abbrev one_place : Channel
one_place = record { sent = []; room = 1; error = other }

write_bytes-Writes_example :
    Writes at_1 one_place (4 ∷ 5 ∷ []) (write_bytes at_1 one_place (4 ∷ 5 ∷ []))
write_bytes-Writes_example = write_bytes-Writes at_1 one_place (4 ∷ 5 ∷ [])

abbrev frame : Frame
frame = record { path = 1 ∷ 300 ∷ []; content = 8 ∷ 9 ∷ [] }

fits : Fits frame
fits = ground arith
