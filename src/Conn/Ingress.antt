-- ===== src/Conn/Ingress.antt =====
-- What `ingress` of crates/transport/src/frame/conn/mod.rs does with a frame once it has read the
-- path and the length of the data.
pub mod Closed
pub mod Data
use wrpc.Prelude.{
  ℕ, zero, suc, ◌-◌, Bool, List, [], ◌∷◌, Bytes, ErrorKind, Result, ok, err, some, invalid_data,
  not_found, broken_pipe, unexpected_eof, ltb, ◌==◌, if◌then◌else◌, length, take, drop, min,
}
use wrpc.Conn.Subscriptions.{TxSlot, open_to, closed, Subscription, Subscriptions, modify}
use wrpc.Conn.Subscriptions.Routing as Routing
use wrpc.Conn.Subscriptions.Routing.{Routed, to, released, unclaimed, route}

-- `*slot = TxSlot::Closed`.
abbrev pub close_slot : Subscription → Subscription
close_slot sub = record sub { tx = some closed }

-- What one round of the loop that locks the subscriptions comes to: the data goes to a channel,
-- the path was closed, ingress fails, or it waits for a permit or for elements to be indexed. A
-- permit that is left is kept while it waits.
pub data Received : Type 0 where
  data_to : ℕ → Received
  path_closed : Received
  fails : ErrorKind → Received
  waits : Bool → Received

unfoldable pub receive_routed : List ℕ → ℕ → Routed → Received × Subscriptions
unfolding modify
receive_routed path n (to closed, permit, s) = (fails invalid_data, s)
receive_routed path n (to (open_to c), permit, s) =
    if n == 0 then (path_closed, modify path close_slot s) else (data_to c, s)
receive_routed path n (Routing.not_found, permit, s) = (fails not_found, s)
receive_routed path n (released, permit, s) = (fails broken_pipe, s)
receive_routed path n (unclaimed, permit, s) = (waits permit, s)

unfoldable pub receive : Subscriptions → List ℕ → Bool → ℕ → Received × Subscriptions
receive s path permit n = receive_routed path n (route s path permit)

-- The loop over the data, of which `n` bytes are to come, on fuel: each round takes at least a
-- byte. `cap` is `DEFAULT_MAX_INITIAL_CAPACITY` of the crate `wasm_tokio`, and the receiver is
-- closed after `room` more chunks. It returns the chunks sent, and the stream behind the data.
unfoldable pub send_data : ℕ → ℕ → ℕ → ℕ → Bytes → List Bytes × Result Bytes
send_data cap fuel room zero rx = ([], ok rx)
send_data cap zero room (suc m) rx = ([], ok rx)
send_data cap (suc fuel) zero (suc m) rx =
    if ltb (length rx) (min (suc m) cap) then ([], err unexpected_eof) else ([], err broken_pipe)
send_data cap (suc fuel) (suc room) (suc m) rx =
    let k = min (suc m) cap in
    let (chunks, r) = send_data cap fuel room (suc m - k) (drop k rx) in
    if ltb (length rx) k then ([], err unexpected_eof) else (take k rx ∷ chunks, r)

unfoldable pub ingress_data : ℕ → ℕ → ℕ → Bytes → List Bytes × Result Bytes
ingress_data cap room n rx = send_data cap n room n rx
