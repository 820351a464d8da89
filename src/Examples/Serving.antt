-- ===== src/Examples/Serving.antt =====
-- Runs of the server of crates/transport/src/frame/conn/server.rs.
use wrpc.Prelude.{ℕ, ◌≡◌, refl, false, List, [], ◌∷◌, ◌++◌, none, some, Bytes, arith}
use wrpc.Leb128.Varint.{varint, read_varint, write}
use wrpc.Leb128.Varint as V
use wrpc.Reader.{slice, slice_u8, slice_exact}
use wrpc.BTree.{eq, get, insert, ℕ_ord}
use wrpc.Frame.Header.{default, read_name, read_names, read_version, read}
use wrpc.Frame.Header.RoundTrip.{params_frame}
use wrpc.Server.{
  Server, Connection, accepted, find_handler, mailbox, update_mailbox, with_header_decoder, send_to,
  dispatch, with_header, serve_in, serve, next, accept,
}
use wrpc.Server.Calls.{Call, serving, accepting, receiving, dropping, call, run, served_once}
use wrpc.Server.Dispatch.{Posted, accept-encode_invocation}
use wrpc.Server.Waiting.{waiting, IsKept}
use wrpc.Server.Deliveries.{delivered, received, received_by, streams_in_order}
use wrpc.Server.Answers.{Explained, accept_cases}
use wrpc.Examples.Headers.{names, ascii, params, invocation, encodes}

-- The function `go` of the instance `a` is served.
abbrev start : Server ℕ ℕ
start =
    run ℕ ℕ varint ascii read_varint slice (with_header_decoder default)
      (serving (97 ∷ []) (103 ∷ 111 ∷ []) ∷ [])

abbrev calls : List (Call ℕ ℕ)
calls = serving (97 ∷ []) (103 ∷ 111 ∷ []) ∷ accepting 7 8 (invocation ++ params) ∷ []

handler : find_handler start.handlers (97 ∷ []) (103 ∷ 111 ∷ []) ≡ some 0
unfolding run call serve serve_in find_handler get insert eq
handler = refl

stream : mailbox start.mailboxes 0 ≡ some (record { pending = []; closed = false })
unfolding run call serve serve_in get eq mailbox
stream = refl

decoder : start.decoder ≡ default
unfolding run call serve serve_in get eq
decoder = refl

accept-encode_invocation_example :
    (srv : Server ℕ ℕ) × (accept varint ascii read_varint slice start 7 8
        (invocation ++ params ++ 9 ∷ [])
      ≡ (accepted, srv))
    × Posted ℕ ℕ varint ascii read_varint slice
        (7, params_frame varint params ++ 9 ∷ [], 8)
        0
        (record { pending = []; closed = false })
        start
        srv
unfolding run call serve serve_in get eq
accept-encode_invocation_example =
    accept-encode_invocation ℕ ℕ varint ascii read_varint slice start 7 8 names (97 ∷ [])
      (103 ∷ 111 ∷ []) params invocation (9 ∷ []) 0 (record { pending = []; closed = false })
      handler stream refl encodes (omega arith) (omega arith) refl refl

-- The connection comes out of the stream.
abbrev streaming : List (Call ℕ ℕ)
streaming = calls ++ receiving 0 ∷ []

streams_in_order_example :
    ((lost : List (Connection ℕ ℕ)) × (delivered ℕ ℕ varint ascii read_varint slice
          (with_header_decoder default)
          streaming
          0
        ≡ received ℕ ℕ varint ascii read_varint slice (with_header_decoder default) streaming 0
          ++ (waiting
                (run ℕ ℕ varint ascii read_varint slice (with_header_decoder default) streaming)
                0
              ++ lost))
      × (IsKept 0 streaming → lost ≡ []))
    × ((i n j k : Bytes)
        → find_handler
            (run ℕ ℕ varint ascii read_varint slice
              (with_header_decoder default)
              streaming).handlers
            i
            n
          ≡ some 0
        → find_handler
            (run ℕ ℕ varint ascii read_varint slice
              (with_header_decoder default)
              streaming).handlers
            j
            k
          ≡ some 0
        → (i ≡ j) × (n ≡ k))
streams_in_order_example = streams_in_order ℕ ℕ varint ascii read_varint slice default streaming 0

gives :
    received ℕ ℕ varint ascii read_varint slice (with_header_decoder default) streaming 0
    ≡ (7, 0 ∷ 3 ∷ params, 8) ∷ []
unfolding received received_by run call serve serve_in find_handler get insert eq accept with_header
    dispatch send_to mailbox update_mailbox next read read_version read_names read_name read_varint
    varint slice slice_u8 slice_exact V.answer V.decode V.read
gives = refl

served_once_example :
    (find_handler
        (run ℕ ℕ varint ascii read_varint slice
          (serve (with_header_decoder {C = ℕ} {O = ℕ} default) (97 ∷ []) (103 ∷ [])).1
          (dropping 0 ∷ [])).handlers
        (97 ∷ [])
        (103 ∷ [])
      ≡ some 0)
    × ((serve
          (run ℕ ℕ varint ascii read_varint slice
            (serve (with_header_decoder {C = ℕ} {O = ℕ} default) (97 ∷ []) (103 ∷ [])).1
            (dropping 0 ∷ []))
          (97 ∷ [])
          (103 ∷ [])).0
        ≡ none)
unfolding serve serve_in get eq
served_once_example =
    served_once ℕ ℕ varint ascii read_varint slice (with_header_decoder default) (97 ∷ [])
      (103 ∷ []) 0 (dropping 0 ∷ []) refl

accept_cases_example :
    Explained ℕ ℕ varint ascii read_varint slice
      (run ℕ ℕ varint ascii read_varint slice
        (with_header_decoder default)
        (serving (97 ∷ []) (103 ∷ 111 ∷ []) ∷ dropping 0 ∷ []))
      7
      8
      (invocation ++ params)
      (accept varint ascii read_varint slice
        (run ℕ ℕ varint ascii read_varint slice
          (with_header_decoder default)
          (serving (97 ∷ []) (103 ∷ 111 ∷ []) ∷ dropping 0 ∷ []))
        7
        8
        (invocation ++ params))
accept_cases_example =
    accept_cases ℕ ℕ varint ascii read_varint slice default
      (serving (97 ∷ []) (103 ∷ 111 ∷ []) ∷ dropping 0 ∷ []) 7 8 (invocation ++ params)
