-- ===== src/Service/Capture/Health.antt =====
-- internal/service/capture_transition.go: the watch over the committed TUN adapter. Its three seconds' ticks are
-- in two steps, between which the service may change; the adapter that is inspected is the owned one, which the
-- runtime's TUN name always is.
pub mod Threshold
pub mod Watch
use mathlib.Core.List.{reverse}
use navo.Base.{
  ℕ, ◌+◌, String, Bool, true, false, not, ◌&&◌, ◌||◌, Option, none, some, List, [], ◌∷◌, str_eq,
  leb, ◌==◌, if◌then◌else◌,
}
use navo.Base.Text.{codes, trim_space, to_lower, same_codes}
use navo.Network.Activation.{Stage}
use navo.Supervisor.State.{State}
use navo.Service.Lease.{is_running}
use navo.Service.Capture.State.{
  AdapterState, AdapterStatus, adapter_missing, disabled, enabled, driver_error, unhealthy, Service,
  Machine,
}
use navo.Service.Capture.Core.{set_env, set_tun_fault}

abbrev pub tun_health_failure_threshold : ℕ
tun_health_failure_threshold = 3

-- tunHealthExpectation, less the adapter's name.
pub record Expectation : Type 0 where
  pub session_id : String
  pub guid : String
  pub index : ℕ

-- tunHealthTracker
pub record Tracker : Type 0 where
  pub session_id : String
  pub consecutive : ℕ

abbrev pub new_tracker : Tracker
new_tracker = record { session_id = ""; consecutive = 0 }

-- tunHealthTracker.observe, in its two halves.
unfoldable pub tracked : String → Bool → Tracker → Tracker
tracked session_id actionable t =
    if not actionable || str_eq session_id ""
    then new_tracker
    else if not (str_eq t.session_id session_id)
    then record { session_id = session_id; consecutive = 1 }
    else record t { consecutive = t.consecutive + 1 }

unfoldable pub observe : String → Bool → Tracker → Tracker × Bool
observe session_id actionable t =
    let t' = tracked session_id actionable t in
    (
      t',
      if not actionable || str_eq session_id ""
          then false
          else leb tun_health_failure_threshold t'.consecutive,
    )

abbrev is_brace : ℕ → Bool
is_brace c = c == 123 || c == 125

unfoldable pub drop_braces : List ℕ → List ℕ
drop_braces [] = []
drop_braces (c ∷ s) = let rest = drop_braces s in if is_brace c then rest else c ∷ s

-- normalizeAdapterGUID, as code points.
unfoldable pub normalize_adapter_guid : String → List ℕ
normalize_adapter_guid value =
    reverse (drop_braces (reverse (drop_braces (to_lower (trim_space value)))))

abbrev is_enabled : AdapterState → Bool
is_enabled enabled = true
is_enabled _ = false

-- tunObservationMatchesIdentity
unfoldable pub tun_observation_matches_identity : Expectation → AdapterStatus → Bool
tun_observation_matches_identity expected observed =
    if not (expected.index == 0) && not (observed.interface_index == expected.index)
    then false
    else str_eq expected.guid ""
      || same_codes (normalize_adapter_guid observed.interface_guid)
          (normalize_adapter_guid expected.guid)

-- tunObservationHealthy
unfoldable pub tun_observation_healthy : Expectation → AdapterStatus → Bool
tun_observation_healthy expected observed =
    if not (is_enabled observed.state)
      || observed.interface_index == 0
      || str_eq observed.interface_guid ""
    then false
    else tun_observation_matches_identity expected observed

abbrev is_gone : AdapterState → Bool
is_gone adapter_missing = true
is_gone disabled = true
is_gone driver_error = true
is_gone _ = false

-- actionableTUNObservation
unfoldable pub actionable_tun_observation : Expectation → AdapterStatus → Bool
actionable_tun_observation expected observed =
    if is_enabled observed.state
    then not (tun_observation_healthy expected observed)
    else is_gone observed.state

abbrev is_committed_stage : Option Stage → Bool
is_committed_stage (some Stage.health_committed) = true
is_committed_stage _ = false

abbrev same_expectation : Expectation → Expectation → Bool
same_expectation a b =
    str_eq a.session_id b.session_id && str_eq a.guid b.guid && a.index == b.index

module _ {E M V W : Type 0} where
  -- currentTUNHealthExpectation
  unfoldable pub current_expectation : Service E M V W → Option Expectation
  current_expectation s =
      if not s.runtime.tun_enabled
        || not (is_committed_stage s.tun.stage)
        || str_eq s.tun.session_id ""
        || not (is_running s.supervisor.state)
      then none
      else some (record {
        session_id = s.tun.session_id;
        guid = s.tun.adapter.interface_guid;
        index = s.tun.adapter.interface_index;
      })

  -- The second look of a tick whose tracker has fired: a fault is reported if it confirms the first.
  unfoldable pub confirm : Machine E M V W → Expectation → Service E M V W → Service E M V W
  confirm machine expected s = elim (current_expectation s) [
    | none ↦ s
    | some current ↦
        let (env, confirmed) = machine.inspect_adapter s.env in
        let seen = set_env env s in
        if not (same_expectation current expected)
        then s
        else if actionable_tun_observation current confirmed
        then set_tun_fault (machine.now env) (unhealthy confirmed) seen
        else seen
  ]

  -- A tick of monitorTUNAdapter, to the second look at what it expects, if there is one.
  unfoldable pub watch_tick :
      Machine E M V W → Tracker → Service E M V W → Service E M V W × Tracker × Option Expectation
  watch_tick machine t s = elim (current_expectation s) [
    | none ↦ (s, (observe "" false t).0, none)
    | some expected ↦
        let (env, status) = machine.inspect_adapter s.env in
        let seen = set_env env s in
        let (t', fires) =
          observe expected.session_id (actionable_tun_observation expected status) t in
        if tun_observation_healthy expected status
        then (seen, (observe expected.session_id false t).0, none)
        else if not fires
        then (seen, t', none)
        else (seen, (observe "" false t').0, some expected)
  ]
