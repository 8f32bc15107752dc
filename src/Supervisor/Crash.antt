-- ===== src/Supervisor/Crash.antt =====
-- internal/supervisor/supervisor.go: the crash monitor.
use navo.Base.{
  ℕ, suc, ◌*◌, ◌^◌, String, Bool, true, false, not, ◌||◌, Option, List, [], ◌∷◌, ◌==◌, ltb, leb,
  if◌then◌else◌,
}
use navo.Supervisor.State.{State, Event}
use navo.Supervisor.Lifecycle.{
  Supervisor, Reconciled, transition, cancel_lifecycle, start_core, reconciled, set_state, in_state,
  call, waits,
}

-- maxRestarts, and the pauses of `backoff` in seconds.
abbrev pub max_restarts : ℕ
max_restarts = 3

unfoldable pub pause_before : ℕ → ℕ
pause_before attempt =
    if leb attempt 1 then 3 * 10 ^ 9 else if attempt == 2 then 10 * 10 ^ 9 else 30 * 10 ^ 9

unfoldable pub is_canceled : ℕ → List ℕ → Bool
is_canceled ctx [] = false
is_canceled ctx (c ∷ canceled) = c == ctx || is_canceled ctx canceled

pub record CrashAnswers : Type 0 where
  -- Whether restarts are suppressed when the pause is over.
  pub suppressed_later : Bool
  pub reconciliation : Reconciled
  pub host_error : Option String

-- handleCrash from the end of the pause on.
unfoldable pub restart_after_crash : CrashAnswers → String → Supervisor → Supervisor
restart_after_crash answers path s =
    let later = record s { restart_suppressed = answers.suppressed_later } in
    let (looked, error) = reconciled answers.reconciliation (set_state State.reconcile later) in
    if answers.suppressed_later
    then set_state State.failed later
    else (start_core answers.host_error path
        (set_state State.ready (transition Event.reconcile_done looked).0)).0

-- handleCrash. A context that is canceled when the pause begins ends the wait at once.
unfoldable pub handle_crash : CrashAnswers → ℕ → String → Supervisor → Supervisor
handle_crash answers ctx path s =
    let quiet = cancel_lifecycle s in
    let attempt = suc s.restart_count in
    let counted = record quiet {
      restart_count = attempt;
      total_restarts = suc s.total_restarts;
      last_error = "process exited unexpectedly";
    } in
    let crashed = set_state State.dirty (transition Event.crash counted).0 in
    if s.warm_idle
    then record quiet { warm_idle = false; state = State.stopped }
    else if s.restart_suppressed
    then set_state State.failed quiet
    else if ltb max_restarts attempt
    then set_state State.failed (transition Event.fail crashed).0
    else if is_canceled ctx crashed.canceled
    then crashed
    else restart_after_crash answers path (call (waits (pause_before attempt)) crashed)

-- What the core host reports.
pub data HostState : Type 0 where
  host_running host_failed host_other : HostState

-- One tick of monitor; the flag says whether it goes on.
unfoldable pub monitor_tick : HostState → CrashAnswers → ℕ → String → Supervisor → Supervisor × Bool
monitor_tick host answers ctx path s =
    let watched = in_state State.running s || in_state State.degraded s || in_state State.dirty s in
    let crashed = handle_crash answers ctx path s in
    if is_canceled ctx s.canceled
    then (s, false)
    else if not watched
    then (s, true)
    else elim host [
      | host_running ↦ (s, true)
      | host_other ↦ (s, true)
      | host_failed ↦ (crashed, false)
    ]
