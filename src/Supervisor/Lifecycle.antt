-- ===== src/Supervisor/Lifecycle.antt =====
-- internal/supervisor/supervisor.go: Start, Stop, Restart, SwapConfig and the flags. A context is a number;
-- the answers of the core host and of the reconciler are arguments, and `calls` lists what was asked of
-- them. Timestamps, the log and the subscribers are left out: `events` has what they are sent.
use navo.Base.{
  ℕ, suc, String, Bool, true, false, not, ◌&&◌, ◌||◌, Option, none, some, List, [], ◌∷◌, ◌++◌, ◌==◌,
  str_eq, if◌then◌else◌,
}
use navo.Supervisor.State.{State, Event, state_code, next_state, is_valid_transition}

pub record StateEvent : Type 0 where
  pub from : State
  pub to : State
  pub event : Event

pub data Call : Type 0 where
  reconciles marks_dirty marks_normal : Call
  host_starts : ℕ → String → Call
  host_stops : Bool → Call
  waits : ℕ → Call

pub record Supervisor : Type 0 where
  pub has_reconciler : Bool
  pub state : State
  pub last_error : String
  pub restart_count : ℕ
  pub total_restarts : ℕ
  pub restart_suppressed : Bool
  pub warm_idle : Bool
  pub active_config_path : String
  pub cancel : Option ℕ
  pub events : List StateEvent
  pub calls : List Call
  -- The contexts made so far, and those whose cancel function was called.
  pub contexts : ℕ
  pub canceled : List ℕ

-- NewSupervisor
unfoldable pub new_supervisor : Bool → Supervisor
new_supervisor has_reconciler = record {
  has_reconciler = has_reconciler;
  state = State.stopped;
  last_error = "";
  restart_count = 0;
  total_restarts = 0;
  restart_suppressed = false;
  warm_idle = false;
  active_config_path = "";
  cancel = none;
  events = [];
  calls = [];
  contexts = 0;
  canceled = [];
}

abbrev pub in_state : State → Supervisor → Bool
in_state state s = state_code s.state == state_code state

abbrev pub set_state : State → Supervisor → Supervisor
set_state state s = record s { state = state }

abbrev pub fail_with : String → Supervisor → Supervisor
fail_with message s = record s { last_error = message; state = State.failed }

abbrev pub call : Call → Supervisor → Supervisor
call c s = record s { calls = s.calls ++ c ∷ [] }

-- transition; the flag is a nil error.
unfoldable pub transition : Event → Supervisor → Supervisor × Bool
transition event s = elim (next_state s.state event) [
  | none ↦ (s, false)
  | some to ↦ (
    record s { events = s.events ++ record { from = s.state; to = to; event = event } ∷ [] },
    true,
  )
]

-- What calling the cancel function in `s.cancel` does.
unfoldable pub cancel_lifecycle : Supervisor → Supervisor
cancel_lifecycle s = elim s.cancel [
  | none ↦ s
  | some ctx ↦ record s { canceled = ctx ∷ s.canceled }
]

-- startCore; `error` is what host.Start returns, `none` for a nil error.
unfoldable pub start_core : Option String → String → Supervisor → Supervisor × Bool
start_core error path s =
    let (announced, ok) = transition Event.start s in
    let ctx = s.contexts in
    let prepared = call (host_starts ctx path) (record announced {
      state = State.starting;
      active_config_path = path;
      cancel = some ctx;
      contexts = suc ctx;
    }) in
    if not ok then (s, false) else elim error [
      | some message ↦
          let canceled = record prepared {
            canceled = ctx ∷ prepared.canceled;
            last_error = message;
          } in
          (set_state State.failed (transition Event.fail canceled).0, false)
      | none ↦ (set_state State.running (transition Event.started prepared).0, true)
    ]

-- What Reconcile answers, and what is left of it where only its error counts.
pub data Reconciled : Type 0 where
  clean : Reconciled
  still_dirty broken : String → Reconciled

abbrev pub reconcile_error : Reconciled → Option String
reconcile_error clean = none
reconcile_error (still_dirty message) = some message
reconcile_error (broken message) = some message

-- Reconcile, if there is a reconciler.
unfoldable pub reconciled : Reconciled → Supervisor → Supervisor × Option String
reconciled answer s =
    if s.has_reconciler then (call reconciles s, reconcile_error answer) else (s, none)

pub record StartAnswers : Type 0 where
  pub reconciliation : Reconciled
  pub host_error : Option String

unfoldable pub start : StartAnswers → String → Supervisor → Supervisor × Bool
start answers path s =
    let cleared = record s { restart_count = 0; warm_idle = false } in
    let (announced, ok) = transition Event.start cleared in
    let (after, error) = reconciled answers.reconciliation (set_state State.reconcile announced) in
    if in_state State.running s || in_state State.starting s
    then (s, false)
    else if not ok
    then (cleared, false)
    else elim error [
      | some message ↦ (fail_with message after, false)
      | none ↦
          start_core answers.host_error path
            (set_state State.ready (transition Event.reconcile_done after).0)
    ]

-- Stop; `error` is what host.Stop returns.
unfoldable pub stop : Option String → Supervisor → Supervisor × Bool
stop error s =
    let force = not (in_state State.running s || in_state State.degraded s) in
    let canceled = cancel_lifecycle (record s { warm_idle = false }) in
    let announced =
      if is_valid_transition s.state Event.stop
      then (transition Event.stop canceled).0
      else canceled in
    let stopping = set_state State.stopping announced in
    let marked = if s.has_reconciler then call marks_dirty stopping else stopping in
    let asked = call (host_stops force) marked in
    let normal = if s.has_reconciler then call marks_normal asked else asked in
    if in_state State.stopped s then (record s { warm_idle = false }, false) else elim error [
      | some message ↦ (fail_with message asked, false)
      | none ↦ (set_state State.stopped (transition Event.stop_done normal).0, true)
    ]

pub record RestartAnswers : Type 0 where
  pub stop_error : Option String
  pub force_error : Option String
  pub started : StartAnswers

unfoldable pub restart : RestartAnswers → String → Supervisor → Supervisor × Bool
restart answers path s =
    let (halted, ok) = stop answers.stop_error s in
    let forced = call (host_stops true) halted in
    if ok then start answers.started path halted else elim answers.force_error [
      | some message ↦ (set_state State.failed forced, false)
      | none ↦ start answers.started path (set_state State.stopped forced)
    ]

pub record SwapAnswers : Type 0 where
  pub stop_error : Option String
  pub force_error : Option String
  pub replacement : StartAnswers
  pub restoration : StartAnswers

-- The way back to the config that ran before, if there was one.
unfoldable pub restore : StartAnswers → String → Supervisor → Supervisor
restore answers path s = if str_eq path "" then s else (start answers path s).0

unfoldable pub swap_config : SwapAnswers → String → Supervisor → Supervisor × Bool
swap_config answers path s =
    let previous = s.active_config_path in
    let (announced, ok) = transition Event.config_swap s in
    let asked = call (host_stops false) (cancel_lifecycle (set_state State.stopping announced)) in
    if not (in_state State.running s) || not ok then (s, false) else elim answers.stop_error [
      | some message ↦
          let forced = call (host_stops true) (record asked { last_error = message }) in
          elim answers.force_error [
            | some worse ↦ (set_state State.failed forced, false)
            | none ↦ (restore answers.restoration previous (set_state State.stopped forced), false)
          ]
      | none ↦
          let halted = set_state State.stopped (transition Event.stop_done asked).0 in
          let (replaced, done) = start answers.replacement path halted in
          if done then (replaced, true) else (restore answers.restoration previous replaced, false)
    ]

unfoldable pub set_restart_suppressed : Bool → Supervisor → Supervisor
set_restart_suppressed suppressed s = record s { restart_suppressed = suppressed }

unfoldable pub set_warm_idle : Bool → Supervisor → Supervisor
set_warm_idle warm s = record s { warm_idle = warm && in_state State.running s }
