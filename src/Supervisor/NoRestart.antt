-- ===== src/Supervisor/NoRestart.antt =====
-- internal/supervisor/supervisor.go: what becomes of a crash that the monitor reports.
use navo.Base.{ℕ, suc, ◌≡◌, ◌⊎◌, refl, ap, ◌∙◌, String, true, some, List, ◌∷◌, arith}
use navo.Supervisor.State.{State, Event}
use navo.Supervisor.Lifecycle.{Supervisor, transition, cancel_lifecycle}
use navo.Supervisor.Crash.{CrashAnswers, handle_crash, is_canceled}
use navo.Supervisor.Transitions.{calls-transition, canceled-transition}

cancel_lifecycle_lem :
    (s : Supervisor) (ctx : ℕ)
    → s.cancel ≡ some ctx
    → cancel_lifecycle s ≡ record s { canceled = ctx ∷ s.canceled }
unfolding cancel_lifecycle
cancel_lifecycle_lem s ctx e = rw e refl

is_canceled-head : (ctx : ℕ) (canceled : List ℕ) → is_canceled ctx (ctx ∷ canceled) ≡ true
unfolding is_canceled
is_canceled-head ctx canceled = ground arith

-- What is left of a crash: its counts, and a canceled context.
abbrev counted : ℕ → Supervisor → Supervisor
counted ctx s = record s {
  canceled = ctx ∷ s.canceled;
  restart_count = suc s.restart_count;
  total_restarts = suc s.total_restarts;
  last_error = "process exited unexpectedly";
}

crashed-is_canceled :
    (event : Event) (ctx : ℕ) (s : Supervisor)
    → is_canceled ctx (transition event (counted ctx s)).0.canceled ≡ true
crashed-is_canceled event ctx s =
    ap (is_canceled ctx) (canceled-transition event (counted ctx s))
    ∙ is_canceled-head ctx s.canceled

-- A crash that the monitor of the present lifecycle reports is never followed by a restart: handleCrash
-- asks nothing of the host or the reconciler, and ends in `dirty`, `failed` or `stopped`.
pub handle_crash-calls :
    (answers : CrashAnswers) (ctx : ℕ) (path : String) (s : Supervisor)
    → s.cancel ≡ some ctx
    → let r = handle_crash answers ctx path s in
      (r.calls ≡ s.calls)
      × ((r.state ≡ State.dirty) ⊎ (r.state ≡ State.failed) ⊎ (r.state ≡ State.stopped))
unfolding handle_crash
handle_crash-calls answers ctx path s e = rw (cancel_lifecycle_lem s ctx e) (
    ground (
      arith,
      crashed-is_canceled Event.crash ctx s,
      calls-transition Event.crash (counted ctx s),
      calls-transition Event.fail
          (record (transition Event.crash (counted ctx s)).0 { state = State.dirty }),
    ))
