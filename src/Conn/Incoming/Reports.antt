-- ===== src/Conn/Incoming/Reports.antt =====
-- Data that was received and not read is reported, in crates/transport/src/frame/conn/mod.rs.
use wrpc.Prelude.{
  ℕ, ◌≡◌, refl, ◌≢◌, inl, inr, Bool, true, false, List, [], ◌∷◌, Option, none, some, ok, is_some,
  Option-cases, ErrorKind,
}
use wrpc.Conn.Subscriptions.{Subscriptions}
use wrpc.Conn.Subscriptions.Indexing.{skip, release, holds_data, close_rx}
use wrpc.Conn.Incoming.{
  Incoming, IngressState, fail_if, index_path, index_incoming, release_handle, drop_incoming,
  closing, close_handles, retain_handle, take_reader,
}

-- What may happen to the handles that are left.
pub data HandleCall : Type 0 where
  indexes : (ℕ → Bool) → Incoming → List ℕ → HandleCall
  drops : (ℕ → Bool) → Incoming → HandleCall
  takes_reader : Incoming → HandleCall

pub after_call : IngressState → HandleCall → IngressState
after_call st (indexes held h path) = (index_incoming held h path st).1
after_call st (drops held h) = drop_incoming held h st
after_call st (takes_reader h) = (take_reader h st).2

pub after_calls : IngressState → List HandleCall → IngressState
after_calls st [] = st
after_calls st (c ∷ cs) = after_calls (after_call st c) cs

-- Ingress was failed.
abbrev Failed : IngressState → Type 0
Failed st = is_some st.error ≡ true

fail_if-Failed : (st : IngressState) (r : Bool × Subscriptions) → Failed st → Failed (fail_if st r)
fail_if-Failed st (true, s) f = elim (Option-cases st.error) [
  | inl e ↦ rw e refl
  | inr (k, e) ↦ rw e refl
]
fail_if-Failed st (false, s) f = f

fail_if_pending : (st : IngressState) (s : Subscriptions) → Failed (fail_if st (true, s))
fail_if_pending st s = elim (Option-cases st.error) [ inl e ↦ rw e refl | inr (k, e) ↦ rw e refl ]

release_handle-Failed :
    (held : ℕ → Bool) (path : List ℕ) (st : IngressState)
    → Failed st
    → Failed (release_handle held path st)
release_handle-Failed held [] st f = f
release_handle-Failed held (p ∷ ps) st f = fail_if-Failed st (release held st.subs (p ∷ ps)) f

index_incoming-Failed :
    (held : ℕ → Bool) (h : Incoming) (path : List ℕ) (st : IngressState)
    → Failed st
    → Failed (index_incoming held h path st).1
unfolding index_incoming index_path
index_incoming-Failed held h [] st f = f
index_incoming-Failed held h (p ∷ ps) st f = fail_if-Failed st (skip held st.subs _) f

drop_incoming-Failed :
    (held : ℕ → Bool) (h : Incoming) (st : IngressState)
    → Failed st
    → Failed (drop_incoming held h st)
unfolding drop_incoming
drop_incoming-Failed held h st f =
    release_handle-Failed held h.path _ (fail_if-Failed st (holds_data held h.rx, st.subs) f)

retain_handle-Failed :
    (path : List ℕ) (st : IngressState) → Failed st → Failed (retain_handle path st)
retain_handle-Failed [] st f = f
retain_handle-Failed (p ∷ ps) st f = f

take_reader-Failed : (h : Incoming) (st : IngressState) → Failed st → Failed (take_reader h st).2
unfolding take_reader
take_reader-Failed h st f = elim (Option-cases h.rx) [
  | inl e ↦ rw e f
  | inr (c, e) ↦ rw e (retain_handle-Failed h.path st f)
]

after_calls-Failed :
    (cs : List HandleCall) (st : IngressState) → Failed st → Failed (after_calls st cs)
unfolding after_calls after_call
after_calls-Failed [] st f = f
after_calls-Failed (indexes held h path ∷ cs) st f =
    after_calls-Failed cs (index_incoming held h path st).1 (index_incoming-Failed held h path st f)
after_calls-Failed (drops held h ∷ cs) st f =
    after_calls-Failed cs (drop_incoming held h st) (drop_incoming-Failed held h st f)
after_calls-Failed (takes_reader h ∷ cs) st f =
    after_calls-Failed cs (take_reader h st).2 (take_reader-Failed h st f)

closing_fails :
    (held : ℕ → Bool) (error : Option ErrorKind) (pending : Bool)
    → is_some error ≡ true
    → closing held error pending ≢ ok tt
closing_fails held none pending f = cc
closing_fails held (some e) true f = λ q. cc
closing_fails held (some e) false f = λ q. cc

close_handles-Failed :
    (held : ℕ → Bool) (st : IngressState) → Failed st → (close_handles held st).0 ≢ ok tt
unfolding close_handles
close_handles-Failed held st f = closing_fails held st.error (close_rx held st.subs).0 f

-- If a handle is dropped whose channel holds data that was not read, then whatever is done with
-- the other handles after that, closing the receivers when all are dropped does not succeed.
pub drop_incoming_reports :
    (held held' : ℕ → Bool) (h : Incoming) (st : IngressState) (c : ℕ) (cs : List HandleCall)
    → h.rx ≡ some c
    → held c ≡ true
    → (close_handles held' (after_calls (drop_incoming held h st) cs)).0 ≢ ok tt
unfolding drop_incoming
drop_incoming_reports held held' h st c cs r d =
    let failed : Failed (fail_if st (holds_data held h.rx, st.subs)) =
      rw (r, d) (fail_if_pending st st.subs) in
    close_handles-Failed held' (after_calls (drop_incoming held h st) cs) (
      after_calls-Failed cs (drop_incoming held h st)
        (release_handle-Failed held h.path (fail_if st (holds_data held h.rx, st.subs)) failed))
