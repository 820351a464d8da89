-- ===== src/Conn/Subscriptions/Invariant/Reach.antt =====
-- `Subscriptions` of conn/mod.rs as the handles and ingress use it: any sequence of calls.
use wrpc.Prelude.{ℕ, ◌≡◌, ◌⊎◌, inl, inr, Bool, List, [], ◌∷◌, Option, some}
use wrpc.BTree.{ℕ_ord}
use wrpc.Conn.Subscriptions.{Subscriptions, new, modify}
use wrpc.Conn.Subscriptions.Indexing.{take_rx, skip, retain, release, close_rx, close_tx}
use wrpc.Conn.Subscriptions.Routing.{route}
use wrpc.Conn.Ingress.{close_slot}
use wrpc.Conn.Subscriptions.Invariant.{Owners, Inv}
use wrpc.Conn.Subscriptions.Invariant.Primitives.{modify-Inv}
use wrpc.Conn.Subscriptions.Invariant.Operations.{skip-Inv, retain-Inv, release-Inv}
use wrpc.Conn.Subscriptions.Invariant.Takes.{fewer-Inv, take_rx-Inv}
use wrpc.Conn.Subscriptions.Invariant.Routes.{route-Inv}
use wrpc.Conn.Subscriptions.Invariant.Closing.{close_rx-Inv, close_tx-Inv}
use wrpc.Conn.Subscriptions.Invariant.Start.{new-Inv}

-- The calls: of a handle that indexes a path, of one that is dropped or hands its data on, of
-- ingress for a frame and for an empty frame, and at the end of ingress and of the last handle.
-- `held` says at the time of the call which channels hold data.
pub data Call : Type 0 where
  skips : (ℕ → Bool) → List ℕ → Call
  takes : List ℕ → Call
  retains : List ℕ → Call
  releases : (ℕ → Bool) → List ℕ → Call
  routes : List ℕ → Bool → Call
  closes : List ℕ → Call
  closes_rx : (ℕ → Bool) → Call
  closes_tx : Call

unfoldable pub step : Subscriptions → Call → Subscriptions
step s (skips held path) = (skip held s path).1
step s (takes path) = (take_rx s path).1
step s (retains path) = retain s path
step s (releases held path) = (release held s path).1
step s (routes path permit) = (route s path permit).2
step s (closes path) = modify path close_slot s
step s (closes_rx held) = (close_rx held s).1
step s closes_tx = close_tx s

unfoldable pub run : Subscriptions → List Call → Subscriptions
run s [] = s
run s (c ∷ cs) = run (step s c) cs

-- A handle of the path `q` got the receiver of the channel `c` from the call.
abbrev pub Gives : Subscriptions → Call → List ℕ → ℕ → Type 0
Gives s (takes path) q c = (path ≡ q) × ((take_rx s path).0 ≡ some (some c))
Gives s k q c = ⊥

-- It got it from one of the calls.
unfoldable pub Gave : Subscriptions → List Call → List ℕ → ℕ → Type 0
Gave s [] q c = ⊥
Gave s (k ∷ ks) q c = Gives s k q c ⊎ Gave (step s k) ks q c

module _ {H : Owners} where
  -- Calls that give no receiver.
  kept : (s s' : Subscriptions) → Inv H s' → Inv (λ q c. H q c ⊎ ⊥) s'
  kept s s' v = fewer-Inv s' (λ q c k. elim k [ inl h ↦ h | inr e ↦ absurd e ]) v

  step-Inv :
      (s : Subscriptions) (k : Call) → Inv H s → Inv (λ q c. H q c ⊎ Gives s k q c) (step s k)
  unfolding step
  step-Inv s (skips held path) v = kept s _ (skip-Inv held s path v)
  step-Inv s (takes path) v = take_rx-Inv s path v
  step-Inv s (retains path) v = kept s _ (retain-Inv s path v)
  step-Inv s (releases held path) v = kept s _ (release-Inv held s path v)
  step-Inv s (routes path permit) v = kept s _ (route-Inv s path permit v)
  step-Inv s (closes path) v =
      kept s _ (modify-Inv s path close_slot (λ sub. (λ c e. cc, λ c e. e)) v)
  step-Inv s (closes_rx held) v = kept s _ (close_rx-Inv held s v)
  step-Inv s closes_tx v = kept s _ (close_tx-Inv s v)

run-Inv :
    (ks : List Call) {H : Owners} (s : Subscriptions)
    → Inv H s
    → Inv (λ q c. H q c ⊎ Gave s ks q c) (run s ks)
unfolding run Gave
run-Inv [] s v = fewer-Inv s (λ q c k. elim k [ inl h ↦ h | inr e ↦ absurd e ]) v
run-Inv (k ∷ ks) s v =
    fewer-Inv (run (step s k) ks)
      (λ q c h. elim h [
        | inl old ↦ inl (inl old)
        | inr (inl here) ↦ inl (inr here)
        | inr (inr later) ↦ inr later
      ])
      (run-Inv ks (step s k) (step-Inv s k v))

-- After any calls on the state that `new` makes of any declared paths, the maps are in order, a
-- channel that a path is sent to on is neither received on by a handle of another path, whether
-- the receiver is still stored or one of the calls gave it to the handle, nor sent to for another
-- path, and no channel is sent to once all senders are closed.
pub run-new-Inv :
    (paths : List (List (Option ℕ))) (root : ℕ) (ks : List Call)
    → Inv (Gave (new paths root) ks) (run (new paths root) ks)
run-new-Inv paths root ks =
    fewer-Inv (run (new paths root) ks) (λ q c h. inr h)
      (run-Inv ks (new paths root) (new-Inv paths root))
