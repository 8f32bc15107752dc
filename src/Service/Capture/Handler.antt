-- ===== src/Service/Capture/Handler.antt =====
-- internal/service/capture_transition.go, handleCapturePrepare, once captureMu is held.
use navo.Base.{
  ℕ, String, Bool, true, false, not, ◌&&◌, ◌||◌, Option, none, some, str_eq, ltb, if◌then◌else◌,
}
use navo.Base.Int.{ℤ}
use navo.Supervisor.Lifecycle.{set_restart_suppressed}
use navo.Service.Capture.Action.{Error, join_errors, Outcome, ok, fails}
use navo.Service.Capture.State.{
  Mode, is_off, is_tun, parse_mode, RuntimeState, Service, Machine, transition_failed,
}
use navo.Service.Capture.Core.{set_tun_fault, clear_tun_fault, normalize_owned_tun_name}
use navo.Service.Capture.Prepare.{Prepared, prepare_capture, rollback_capture}

-- The message; an empty name is none, and an MTU that is no positive number counts as 0.
pub record PrepareMessage : Type 0 where
  pub mode : String
  pub retain_warm : Bool
  pub tun_name : String
  pub tun_mtu : ℕ

pub data Response (V W : Type 0) : Type 0 where
  refused : String → Response V W
  prepared : Mode → String → Prepared V W → Response V W

abbrev non_empty : Option String → String → String
non_empty none other = other
non_empty (some code) other = if str_eq code "" then other else code

-- The code of the response.
unfoldable pub error_code : Error → String
error_code e = non_empty e.capture_code (non_empty e.tun_code "CAPTURE_TRANSITION_FAILED")

-- errors.Join(err, rollbackErr)
unfoldable pub combined : Error → Option Error → Error
combined e other = elim (join_errors (some e) other) [ none ↦ e | some joined ↦ joined ]

-- The TUN options of the message: the runtime that they ask for, or the code of their error.
unfoldable pub tun_options : PrepareMessage → Mode → RuntimeState → Option String × RuntimeState
tun_options msg mode r =
    if not (is_tun mode) || str_eq msg.tun_name ""
    then (none, r)
    else elim (normalize_owned_tun_name msg.tun_name) [
      | none ↦ (some "NET_ADAPTER_OWNERSHIP", r)
      | some name ↦
          if ltb msg.tun_mtu 1280 || ltb 9000 msg.tun_mtu
          then (some "INVALID", r)
          else (none, record r { tun_name = name; tun_mtu = msg.tun_mtu })
    ]

module _ {E M V W : Type 0} (machine : Machine E M V W) (blank : V) (ttl : ℤ) where
  abbrev pub suppress : Bool → Service E M V W → Service E M V W
  suppress flag s = record s { supervisor = set_restart_suppressed flag s.supervisor }

  abbrev pub report_fault : Mode → Error → Service E M V W → Service E M V W
  report_fault mode e s =
      if is_tun mode
      then set_tun_fault (machine.now s.env) (transition_failed e) s
      else clear_tun_fault s

  -- What becomes of a switch: an error is rolled back.
  unfoldable pub finish_switch :
      Mode → Service E M V W × Outcome (Prepared V W) → Service E M V W × Response V W
  finish_switch mode (s, ok p) =
      (suppress false (clear_tun_fault s), prepared mode s.runtime.mode p)
  finish_switch mode (s, fails e) =
      let (back, error) = rollback_capture machine s in
      let joined = combined e error in
      (suppress false (report_fault mode joined back), refused (error_code joined))

  -- The switch with its way back, and the supervisor's restarts off.
  unfoldable pub switch_capture : Mode → Bool → Service E M V W → Service E M V W × Response V W
  switch_capture mode retain s =
      finish_switch mode (prepare_capture machine blank ttl mode retain (suppress true s))

  -- handleCapturePrepare
  unfoldable pub handle_capture_prepare :
      PrepareMessage → Service E M V W → Service E M V W × Response V W
  handle_capture_prepare msg s = elim (parse_mode msg.mode) [
    | none ↦ (s, refused "INVALID")
    | some mode ↦
        let (error, runtime) = tun_options msg mode s.runtime in
        elim error [
          | some code ↦ (s, refused code)
          | none ↦
              switch_capture mode (msg.retain_warm && is_off mode) (record s { runtime = runtime })
        ]
  ]
