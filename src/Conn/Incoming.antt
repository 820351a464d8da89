-- ===== src/Conn/Incoming.antt =====
-- `Incoming` of crates/transport/src/frame/conn/mod.rs: a handle that receives the data of one
-- path, and what handles share. `held` says of a channel whether it, or the reader on it, holds
-- data that was not read.
pub mod Reports
pub mod Reading
use wrpc.Prelude.{
  ℕ, Bool, true, false, List, [], ◌∷◌, Option, none, some, ErrorKind, Result, ok, err,
  invalid_input, broken_pipe, is_some,
}
use wrpc.Prelude as Prelude
use wrpc.Conn.Outgoing.{join}
use wrpc.Conn.Subscriptions.{Subscriptions}
use wrpc.Conn.Subscriptions.Indexing as Indexing
use wrpc.Conn.Subscriptions.Indexing.{skip, take_rx, retain, release, holds_data}

pub record Incoming : Type 0 where
  pub rx : Option ℕ
  pub subscribed : Bool
  pub path : List ℕ

-- `failed` is set once it is notified.
pub record IngressState : Type 0 where
  pub subs : Subscriptions
  pub error : Option ErrorKind
  pub failed : Bool

-- `OnceLock::set`.
abbrev pub set_error : Option ErrorKind → ErrorKind → Option ErrorKind
set_error none e = some e
set_error (some old) e = some old

-- `fail_unprocessed`.
abbrev pub fail_unprocessed : IngressState → IngressState
fail_unprocessed st = record st { error = set_error st.error broken_pipe; failed = true }

-- `if pending { self.fail_unprocessed(); }`, the subscriptions being `s`.
abbrev pub fail_if : IngressState → Bool × Subscriptions → IngressState
fail_if st (true, s) = fail_unprocessed (record st { subs = s })
fail_if st (false, s) = record st { subs = s }

-- The handle that `index` returns for what `take_rx` returned.
abbrev pub taken : List ℕ → Option (Option ℕ) → Result Incoming
taken path none = err Prelude.not_found
taken path (some rx) = ok (record { rx = rx; subscribed = is_some rx; path = path })

module _ (held : ℕ → Bool) where
  -- `index` behind its guard.
  unfoldable pub index_path : List ℕ → IngressState → Result Incoming × IngressState
  index_path path st =
      let st' = fail_if st (skip held st.subs path) in
      let (rx, s) = take_rx st'.subs path in (taken path rx, record st' { subs = s })

  unfoldable pub index_incoming : Incoming → List ℕ → IngressState → Result Incoming × IngressState
  index_incoming h [] st = (err invalid_input, st)
  index_incoming h (p ∷ ps) st = index_path (join h.path (p ∷ ps)) st

  -- The last part of `drop`.
  abbrev pub release_handle : List ℕ → IngressState → IngressState
  release_handle [] st = st
  release_handle (p ∷ ps) st = fail_if st (release held st.subs (p ∷ ps))

  -- `PinnedDrop::drop`.
  unfoldable pub drop_incoming : Incoming → IngressState → IngressState
  drop_incoming h st = release_handle h.path (fail_if st (holds_data held h.rx, st.subs))

  -- `close_rx`, the function, once all handles are dropped.
  abbrev pub closing : Option ErrorKind → Bool → Result (Unit {0})
  closing error true = err broken_pipe
  closing none false = ok tt
  closing (some e) false = err e

  unfoldable pub close_handles : IngressState → Result (Unit {0}) × IngressState
  close_handles st =
      let (pending, s) = Indexing.close_rx held st.subs in
      (closing st.error pending, record st { subs = s })

-- `retain` of a path that is not the root's.
abbrev pub retain_handle : List ℕ → IngressState → IngressState
retain_handle [] st = st
retain_handle (p ∷ ps) st = record st { subs = retain st.subs (p ∷ ps) }

-- `take_reader`: the new handle, this handle and the state after it.
unfoldable pub take_reader : Incoming → IngressState → Option Incoming × Incoming × IngressState
take_reader h st = elim h.rx [
  | none ↦ (none, h, st)
  | some c ↦ (
    some (record { rx = some c; subscribed = true; path = h.path }),
    record h { rx = none },
    retain_handle h.path st,
  )
]
