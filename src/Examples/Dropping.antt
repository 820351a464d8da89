-- ===== src/Examples/Dropping.antt =====
-- A run of `Incoming` of crates/transport/src/frame/conn/mod.rs.
use wrpc.Prelude.{ℕ, refl, ◌≢◌, Bool, true, false, [], ◌∷◌, none, some, ok, ◌==◌}
use wrpc.Conn.Subscriptions.{new}
use wrpc.Conn.Incoming.{Incoming, IngressState, drop_incoming, close_handles}
use wrpc.Conn.Incoming.Reports.{indexes, after_calls, drop_incoming_reports}

abbrev start : IngressState
start = record { subs = new ((some 0 ∷ []) ∷ []) 0; error = none; failed = false }

abbrev root_handle : Incoming
root_handle = record { rx = some 0; subscribed = true; path = [] }

-- Channel 0, that of the root, has data.
abbrev root_held : ℕ → Bool
root_held c = c == 0

drop_incoming_reports_example :
    (close_handles
      (λ c. false)
      (after_calls
        (drop_incoming root_held root_handle start)
        (indexes root_held (record root_handle { rx = none }) (0 ∷ []) ∷ []))).0
    ≢ ok tt
drop_incoming_reports_example =
    drop_incoming_reports root_held (λ c. false) root_handle start 0
      (indexes root_held (record root_handle { rx = none }) (0 ∷ []) ∷ []) refl refl
