-- ===== src/Server.antt =====
-- `Server` of crates/transport/src/frame/conn/server.rs: the functions that are served, and where
-- a connection that was accepted goes. A `HashMap` is the list of its entries; the order in which
-- they are is not relied on. A channel of `mpsc` is a number, its place among `mailboxes`. A send
-- that waits for room is a call of `accept` that comes later.
pub mod Mailboxes
pub mod Inv
pub mod Calls
pub mod Dispatch
pub mod Waiting
pub mod Deliveries
pub mod Answers
use wrpc.Prelude.{
  ℕ, zero, suc, Bool, true, false, List, [], ◌∷◌, ◌++◌, Option, none, some, Bytes, ErrorKind,
  length, drop, if◌then◌else◌,
}
use wrpc.BTree.{BTreeMap, ℕ_ord, get, insert}
use wrpc.Leb128.{Leb128, ReadLeb128}
use wrpc.Reader.{Reader}
use wrpc.Frame.Header.{Header, HeaderDecoder, HeaderRead, header, read}

abbrev pub Handlers : Type 0
Handlers = BTreeMap ℕ (BTreeMap ℕ ℕ)

-- `HeaderReadError`.
pub data HeaderError : Type 0 where
  io : ErrorKind → HeaderError
  unsupported_version : ℕ → HeaderError

-- A connection: its context, what the peer still sends, and the writer to the peer.
abbrev pub Connection : Type 0 → Type 0 → Type 0
Connection C O = C × Bytes × O

-- A channel: what was sent and not yet received, and whether the receiver is dropped.
pub record Mailbox (C O : Type 0) : Type 0 where
  pub pending : List (Connection C O)
  pub closed : Bool

-- `Server`, with the channels that its handlers are the senders of.
pub record Server (C O : Type 0) : Type 0 where
  pub handlers : Handlers
  pub decoder : HeaderDecoder
  pub mailboxes : List (Mailbox C O)

-- `Result<(), AcceptError>`.
pub data Accepted (C O : Type 0) : Type 0 where
  accepted : Accepted C O
  header_read : HeaderError → Accepted C O
  unhandled_function : Bytes → Bytes → Accepted C O
  send_error : Connection C O → Accepted C O

-- `handlers.get(instance).and_then(|h| h.get(name))`.
abbrev pub in_instance : Option (BTreeMap ℕ ℕ) → Bytes → Option ℕ
in_instance none name = none
in_instance (some functions) name = get name functions

unfoldable pub find_handler : Handlers → Bytes → Bytes → Option ℕ
find_handler handlers instance_name name = in_instance (get instance_name handlers) name

-- `handlers.entry(instance).or_default()`.
abbrev pub or_empty : Option (BTreeMap ℕ ℕ) → BTreeMap ℕ ℕ
or_empty none = []
or_empty (some functions) = functions

module _ {C O : Type 0} where
  unfoldable pub mailbox : List (Mailbox C O) → ℕ → Option (Mailbox C O)
  mailbox [] c = none
  mailbox (m ∷ ms) zero = some m
  mailbox (m ∷ ms) (suc c) = mailbox ms c

  unfoldable pub update_mailbox :
      (Mailbox C O → Mailbox C O) → ℕ → List (Mailbox C O) → List (Mailbox C O)
  update_mailbox f c [] = []
  update_mailbox f zero (m ∷ ms) = f m ∷ ms
  update_mailbox f (suc c) (m ∷ ms) = m ∷ update_mailbox f c ms

  -- `with_header_decoder`.
  abbrev pub with_header_decoder : HeaderDecoder → Server C O
  with_header_decoder d = record { handlers = []; decoder = d; mailboxes = [] }

  abbrev pub post : Connection C O → Mailbox C O → Mailbox C O
  post x m = record m { pending = m.pending ++ x ∷ [] }

  -- `h.send(..)` on the channel `c`, of which there is the mailbox.
  unfoldable pub send_to :
      Server C O → ℕ → Connection C O → Option (Mailbox C O) → Accepted C O × Server C O
  send_to srv c x none = (send_error x, srv)
  send_to srv c x (some m) =
      if m.closed
      then (send_error x, srv)
      else (accepted, record srv { mailboxes = update_mailbox (post x) c srv.mailboxes })

  -- `accept` with the handler that was looked up.
  unfoldable pub dispatch :
      Server C O → Header → Connection C O → Option ℕ → Accepted C O × Server C O
  dispatch srv h x none = (unhandled_function h.instance_name h.name, srv)
  dispatch srv h x (some c) = send_to srv c x (mailbox srv.mailboxes c)

  -- `accept` with the header that was read.
  unfoldable pub with_header : Server C O → C → O → HeaderRead → Accepted C O × Server C O
  with_header srv cx tx (HeaderRead.io e) = (header_read (HeaderError.io e), srv)
  with_header srv cx tx (HeaderRead.unsupported_version v) =
      (header_read (HeaderError.unsupported_version v), srv)
  with_header srv cx tx (header h rest) =
      dispatch srv h (cx, rest, tx) (find_handler srv.handlers h.instance_name h.name)

  -- The function `serve` with the handlers of the instance: its stream is the channel that is
  -- returned, and there is none where the entry is occupied. The entry of the instance is there
  -- by then.
  unfoldable pub serve_in :
      Server C O → Bytes → Bytes → BTreeMap ℕ ℕ → Option ℕ → Option ℕ × Server C O
  serve_in srv instance_name name functions (some c) =
      (none, record srv { handlers = insert instance_name functions srv.handlers })
  serve_in srv instance_name name functions none =
      let c = length srv.mailboxes in
      (
        some c,
        record srv {
          handlers = insert instance_name (insert name c functions) srv.handlers;
          mailboxes = srv.mailboxes ++ record { pending = []; closed = false } ∷ [];
        },
      )

  unfoldable pub serve : Server C O → Bytes → Bytes → Option ℕ × Server C O
  serve srv instance_name name =
      let functions = or_empty (get instance_name srv.handlers) in
      serve_in srv instance_name name functions (get name functions)

  -- `next` on the stream of a channel, where it need not wait.
  abbrev pub head : List (Connection C O) → Option (Connection C O)
  head [] = none
  head (x ∷ xs) = some x

  abbrev pub first_of : Option (Mailbox C O) → Option (Connection C O)
  first_of none = none
  first_of (some m) = head m.pending

  abbrev pub later_of : Mailbox C O → Mailbox C O
  later_of m = record m { pending = drop 1 m.pending }

  unfoldable pub next : Server C O → ℕ → Option (Connection C O) × Server C O
  next srv c = (
    first_of (mailbox srv.mailboxes c),
    record srv { mailboxes = update_mailbox later_of c srv.mailboxes },
  )

  -- The stream of a channel is dropped.
  abbrev pub close_mailbox : Mailbox C O → Mailbox C O
  close_mailbox m = record { pending = []; closed = true }

  unfoldable pub drop_stream : Server C O → ℕ → Server C O
  drop_stream srv c = record srv { mailboxes = update_mailbox close_mailbox c srv.mailboxes }

  module _ (leb : Leb128) (utf8 : Bytes → Bool) (leb_reader : ReadLeb128 leb)
      (reader : Reader) where
    -- `accept`.
    unfoldable pub accept : Server C O → C → O → Bytes → Accepted C O × Server C O
    accept srv cx tx rx = with_header srv cx tx (read leb utf8 leb_reader reader srv.decoder rx)
