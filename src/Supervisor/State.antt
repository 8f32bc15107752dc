-- ===== src/Supervisor/State.antt =====
-- internal/supervisor/state.go: the states, the events and the table of transitions.
use navo.Base.{ℕ, Bool, ◌&&◌, Option, none, some, List, [], ◌∷◌, ◌==◌, if◌then◌else◌, is_some}

pub data State : Type 0 where
  stopped reconcile ready starting running stopping failed degraded dirty : State

pub data Event : Type 0 where
  start started stop stop_done crash recovered fail degrade recover config_swap dirty_detected
        reconcile_done :
      Event

abbrev pub state_code : State → ℕ
state_code stopped = 0
state_code reconcile = 1
state_code ready = 2
state_code starting = 3
state_code running = 4
state_code stopping = 5
state_code failed = 6
state_code degraded = 7
state_code dirty = 8

abbrev event_code : Event → ℕ
event_code start = 0
event_code started = 1
event_code stop = 2
event_code stop_done = 3
event_code crash = 4
event_code recovered = 5
event_code fail = 6
event_code degrade = 7
event_code recover = 8
event_code config_swap = 9
event_code dirty_detected = 10
event_code reconcile_done = 11

pub record Transition : Type 0 where
  pub from : State
  pub event : Event
  pub to : State

abbrev row : State → Event → State → Transition
row from event to = record { from = from; event = event; to = to }

unfoldable pub valid_transitions : List Transition
valid_transitions =
    row stopped start reconcile
    ∷ row reconcile reconcile_done ready
    ∷ row ready start starting
    ∷ row starting started running
    ∷ row running stop stopping
    ∷ row stopping stop_done stopped
    ∷ row running config_swap stopping
    ∷ row running crash dirty
    ∷ row dirty reconcile_done ready
    ∷ row dirty start reconcile
    ∷ row running degrade degraded
    ∷ row degraded recover running
    ∷ row degraded crash dirty
    ∷ row starting fail failed
    ∷ row failed start reconcile
    ∷ row failed stop stopped
    ∷ row starting stop stopping
    ∷ row degraded stop stopping
    ∷ row failed stop stopped
    ∷ []

-- buildTransitionMap: a later row overwrites an earlier one.
unfoldable pub last_row : State → Event → List Transition → Option State → Option State
last_row from event [] found = found
last_row from event (t ∷ table) found =
    let hit = state_code t.from == state_code from && event_code t.event == event_code event in
    last_row from event table (if hit then some t.to else found)

-- NextState; `none` is the empty text.
unfoldable pub next_state : State → Event → Option State
unfolding last_row valid_transitions
next_state from event = last_row from event valid_transitions none

-- IsValidTransition
unfoldable pub is_valid_transition : State → Event → Bool
unfolding next_state
is_valid_transition from event = is_some (next_state from event)
