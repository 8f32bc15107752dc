-- ===== src/Service/Capture/Health/Threshold.antt =====
-- internal/service/capture_transition.go, tunHealthTracker: when the watch reports an adapter.
use navo.Base.{
  ℕ, suc, ◌≤◌, ◌≡◌, ◌≢◌, ◌↔◌, String, Bool, true, not, List, [], ◌∷◌, str_eq, eq_iff, if◌then◌else◌,
  arith,
}
use navo.Service.Capture.Health.{Tracker, new_tracker, tracked, observe}

-- Observations, the latest first: a session and whether what was seen is actionable.
abbrev pub History : Type 0
History = List (String × Bool)

unfoldable pub tracker_of : History → Tracker
tracker_of [] = new_tracker
tracker_of ((session_id, actionable) ∷ history) = tracked session_id actionable (tracker_of history)

-- How many of the latest observations are actionable ones of the session, without a gap.
unfoldable pub streak : String → History → ℕ
streak session_id [] = 0
streak session_id ((other, actionable) ∷ history) =
    let rest = streak session_id history in
    if not actionable then 0 else if str_eq other session_id then suc rest else 0

-- The tracker counts the streak of its session.
counted :
    (session_id : String) (history : History)
    → session_id ≢ ""
    → (if str_eq (tracker_of history).session_id session_id
        then (tracker_of history).consecutive
        else 0)
      ≡ streak session_id history
unfolding tracker_of streak tracked
counted session_id [] named = ground (arith, eq_iff "" session_id)
counted session_id ((other, actionable) ∷ history) named = ground (
  arith,
  counted session_id history named,
  eq_iff "" session_id,
  eq_iff other session_id,
  eq_iff other "",
  eq_iff (tracker_of history).session_id other,
  eq_iff (tracker_of history).session_id session_id,
)

-- The tracker fires exactly when an observation of a session with a name is actionable and, with those right before
-- it, makes three or more actionable ones of the same session in a row.
pub observe-fires :
    (session_id : String) (actionable : Bool) (history : History)
    → session_id ≢ ""
    → ((observe session_id actionable (tracker_of history)).1 ≡ true)
      ↔ ((actionable ≡ true) × (3 ≤ suc (streak session_id history)))
unfolding observe tracked
observe-fires session_id actionable history named = ground (
  arith,
  counted session_id history named,
  eq_iff session_id "",
  eq_iff (tracker_of history).session_id session_id,
)
