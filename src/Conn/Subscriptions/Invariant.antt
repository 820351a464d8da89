-- ===== src/Conn/Subscriptions/Invariant.antt =====
-- The invariant of `Subscriptions` of conn/mod.rs: which channel ends the subscriptions hold.
pub mod Primitives
pub mod Operations
pub mod Takes
pub mod Routes
pub mod Closing
pub mod Start
pub mod Reach
pub mod Delivery
use wrpc.Prelude.{ℕ, ◌<◌, ◌≡◌, ◌≢◌, true, some, none, Option, List}
use wrpc.BTree.{ℕ_ord, get}
use wrpc.BTree.Laws.{IsSorted}
use wrpc.Conn.Subscriptions.{TxSlot, open_to, Subscription, Subscriptions}
use wrpc.Conn.Subscriptions.Indexing.{rx_of}
use wrpc.Conn.Subscriptions.Routing.{get_tx}

abbrev pub get_rx : Subscriptions → List ℕ → Option ℕ
get_rx s path = rx_of (get path s.subs)

-- Which handles, by their paths, took the receivers of which channels.
abbrev pub Owners : Type 1
Owners = List ℕ → ℕ → Type 0

abbrev pub nobody : Owners
nobody q c = ⊥

pub record Inv (H : Owners) (s : Subscriptions) : Type 0 where
  pub subs_sorted : IsSorted s.subs
  pub next_sorted : IsSorted s.next
  -- Channels are made by `mpsc::channel` and not used before.
  pub tx_fresh : (p : List ℕ) (c : ℕ) → get_tx s p ≡ some (open_to c) → c < s.fresh
  pub rx_fresh : (p : List ℕ) (c : ℕ) → get_rx s p ≡ some c → c < s.fresh
  -- What is sent on the channel of one path is not received on another.
  pub own : (p q : List ℕ) (c : ℕ) → get_tx s p ≡ some (open_to c) → get_rx s q ≡ some c → p ≡ q
  -- Nor is it by a handle of another path that took its receiver.
  pub taken_fresh : (q : List ℕ) (c : ℕ) → H q c → c < s.fresh
  pub taken_own : (p q : List ℕ) (c : ℕ) → get_tx s p ≡ some (open_to c) → H q c → p ≡ q
  -- No two paths are sent to on one channel.
  pub apart :
      (p q : List ℕ) (c : ℕ) → get_tx s p ≡ some (open_to c) → get_tx s q ≡ some (open_to c) → p ≡ q
  -- Once all senders are closed, none is open.
  pub silent : (p : List ℕ) (c : ℕ) → s.all_closed ≡ true → get_tx s p ≢ some (open_to c)
