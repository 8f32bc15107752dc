-- ===== src/Supervisor/Examples.antt =====
-- The theorems about internal/supervisor at a supervisor that runs a core.
use navo.Base.{◌≡◌, ◌⊎◌, refl, true, false, none, some, [], ◌++◌}
use navo.Supervisor.State.{State}
use navo.Supervisor.Lifecycle.{
  Supervisor, StartAnswers, RestartAnswers, SwapAnswers, clean, new_supervisor, start, restart,
  swap_config,
}
use navo.Supervisor.Crash.{CrashAnswers, handle_crash}
use navo.Supervisor.NoRestart.{handle_crash-calls}
use navo.Supervisor.Starting.{Started, looks, start-Started}
use navo.Supervisor.Replacement.{Replaces, IsRestored, restart-RunsOn, swap_config-IsRestored}

abbrev well : StartAnswers
well = record { reconciliation = clean; host_error = none }

abbrev up : Supervisor
up = record {
  has_reconciler = true;
  state = State.running;
  last_error = "";
  restart_count = 0;
  total_restarts = 0;
  restart_suppressed = false;
  warm_idle = false;
  active_config_path = "a.json";
  cancel = some 0;
  events = [];
  calls = [];
  contexts = 1;
  canceled = [];
}

start-Started_example :
    let fresh = new_supervisor true in
    Started fresh.contexts
      (fresh.calls ++ looks fresh.has_reconciler)
      "a.json"
      (start well "a.json" fresh)
    ⊎ ((start well "a.json" fresh).1 ≡ false) × ((start well "a.json" fresh).0.state ≡ fresh.state)
start-Started_example = start-Started well "a.json" (new_supervisor true)

abbrev stuck : RestartAnswers
stuck = record { stop_error = some "timeout"; force_error = none; started = well }

restart-RunsOn_example :
    let (r, ok) = restart stuck "b.json" up in
    ((ok ≡ true) × Replaces [] "b.json" r) ⊎ ((ok ≡ false) × (r.state ≡ State.failed))
restart-RunsOn_example = restart-RunsOn stuck "b.json" up

abbrev bad_config : SwapAnswers
bad_config = record {
  stop_error = none;
  force_error = none;
  replacement = record { reconciliation = clean; host_error = some "bad config" };
  restoration = well;
}

swap_config-IsRestored_example :
    let (r, ok) = swap_config bad_config "b.json" up in
    ((ok ≡ true) × Replaces [] "b.json" r) ⊎ ((ok ≡ false) × IsRestored "a.json" r)
swap_config-IsRestored_example = swap_config-IsRestored bad_config "b.json" up refl

abbrev crash : CrashAnswers
crash = record { suppressed_later = false; reconciliation = clean; host_error = none }

handle_crash-calls_example :
    let r = handle_crash crash 0 "a.json" up in
    (r.calls ≡ [])
    × ((r.state ≡ State.dirty) ⊎ (r.state ≡ State.failed) ⊎ (r.state ≡ State.stopped))
handle_crash-calls_example = handle_crash-calls crash 0 "a.json" up refl
