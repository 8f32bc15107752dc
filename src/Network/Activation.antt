-- ===== src/Network/Activation.antt =====
-- internal/network/manager.go: Activate, Rebind, Deactivate and Recover.
use navo.Base.{
  String, Bool, true, false, not, Option, none, some, List, [], ◌∷◌, ◌++◌, str_eq, if◌then◌else◌,
}
use navo.Network.Journal.{JournalAction, Journal, Checks, pending, applied}
use navo.Network.Manager.{
  Config, Host, Run, Cause, AdapterSnapshot, no_adapter, NetworkOperation, operations,
  should_inject_failure, exact, missing, inspect_failed, inspect_operation, reaches, write_journal,
}
use navo.Network.Recovery.{rollback_after_failure, recover_network_state}

pub data Stage : Type 0 where
  preflight baseline_captured config_compiled core_started adapter_ready network_applied : Stage
  control_plane_verified data_plane_verified health_committed : Stage

-- TUNError less its Cause, the texts of what went wrong.
pub record TunError : Type 0 where
  pub code : String
  pub stage : Stage
  pub resource : String
  pub rollback_status : String

pub data Result : Type 0 where
  activated : AdapterSnapshot → Result
  -- An error of the platform or of the journal's first write, as it came.
  refused : Cause → Result
  failed : TunError → Result

pub record Manager : Type 0 where
  pub cfg : Config
  pub active : Bool
  pub adapter : AdapterSnapshot

abbrev or_code : Cause → String → String
or_code none code = if str_eq code "" then "TUN_ROLLBACK_FAILED" else code
or_code (some original) code = original

abbrev pub status_of : Option Cause → String
status_of none = "complete"
status_of (some cause) = "dirty"

abbrev pub add_action : Journal → JournalAction → Journal
add_action j a = record j { actions = j.actions ++ a ∷ [] }

abbrev preflight_error : String → String → TunError
preflight_error code status = record {
  code = code;
  stage = preflight;
  resource = "";
  rollback_status = status;
}

abbrev pub settled : {E : Type 0} → Manager → Run E × Result → Manager × Run E × Result
settled m (run, activated adapter) =
    (record m { active = true; adapter = adapter }, run, activated adapter)
settled m (run, refused cause) = (m, run, refused cause)
settled m (run, failed e) = (m, run, failed e)

module _ {E : Type 0} (host : Host E) (checks : Checks) where
  -- activationFailure; the stage is that of operationStage.
  unfoldable pub activation_failure :
      Config → String → String → Stage → Cause → Journal → Run E → Run E × TunError
  activation_failure cfg name code stage cause j run =
      let (undone, error) = rollback_after_failure host checks cfg j run in
      (
        undone,
        record {
          code = or_code cause code;
          stage = stage;
          resource = name;
          rollback_status = status_of error;
        },
      )

  abbrev pub failure : Config → NetworkOperation → Cause → Journal → Run E → Run E × TunError
  failure cfg op cause j run = activation_failure cfg op.name op.code network_applied cause j run

  abbrev pub broken_off :
      Config → NetworkOperation → Cause → Journal → Run E → Run E × Journal × Option TunError
  broken_off cfg op cause j run =
      let (undone, error) = failure cfg op cause j run in (undone, j, some error)

  -- One round of the loop in activateLocked: the journal so far, or the error that ends the activation.
  unfoldable pub apply_operation :
      Config → NetworkOperation → Journal → Run E → Run E × Journal × Option TunError
  apply_operation cfg op j run =
      let (env, state) = inspect_operation host op.identity run.env in
      let inspected = reaches env run.disk run in
      let injected = should_inject_failure cfg.failure_point op in
      let found = add_action j (record {
        name = op.name;
        status = applied;
        resource = record { identity = op.identity; created_by_navo = false };
      }) in
      let (noted, not_noted) = write_journal host cfg.journal_path found inspected in
      let planned = add_action j (record {
        name = op.name;
        status = pending;
        resource = record { identity = op.identity; created_by_navo = true };
      }) in
      let made = add_action j (record {
        name = op.name;
        status = applied;
        resource = record { identity = op.identity; created_by_navo = true };
      }) in
      let (announced, not_announced) = write_journal host cfg.journal_path planned inspected in
      let (env2, apply_error) = host.apply op.identity announced.env in
      let changed = reaches env2 announced.disk announced in
      let (recorded, not_recorded) = write_journal host cfg.journal_path made changed in
      elim state [
        | inspect_failed cause ↦ broken_off cfg op cause j inspected
        | exact ↦ elim not_noted [
          | some cause ↦ broken_off cfg op cause found noted
          | none ↦ if injected then broken_off cfg op none found noted else (noted, found, none)
        ]
        | missing ↦ elim not_announced [
          | some cause ↦ broken_off cfg op cause planned announced
          | none ↦ elim apply_error [
            | some cause ↦ broken_off cfg op cause planned changed
            | none ↦ elim not_recorded [
              | some cause ↦ broken_off cfg op cause made recorded
              | none ↦
                  if injected then broken_off cfg op none made recorded else (recorded, made, none)
            ]
          ]
        ]
      ]

  unfoldable pub apply_all :
      Config → List NetworkOperation → Journal → Run E → Run E × Journal × Option TunError
  apply_all cfg [] j run = (run, j, none)
  apply_all cfg (op ∷ ops) j run =
      let (run', j', error) = apply_operation cfg op j run in
      elim error [ none ↦ apply_all cfg ops j' run' | some e ↦ (run', j', some e) ]

  -- activateLocked, from the adapter on.
  unfoldable pub apply_plan : Config → Run E → Run E × Result
  apply_plan cfg run =
      let plan = cfg.activation_plan in
      let (env, error, adapter) = host.wait_for_adapter plan run.env in
      let ready = reaches env run.disk run in
      let j : Journal = record {
        version = 2;
        adapter_name = plan.adapter_name;
        session_id = plan.session_id;
        actions = [];
      } in
      let (opened, not_opened) = write_journal host cfg.journal_path j ready in
      let (changed, j', broken) = apply_all cfg (operations plan adapter) j opened in
      let (env2, unverified) = host.verify_control_plane plan adapter changed.env in
      let verified = reaches env2 changed.disk changed in
      elim error [
        | some cause ↦ (ready, refused cause)
        | none ↦ elim not_opened [
          | some cause ↦ (opened, refused cause)
          | none ↦ elim broken [
            | some e ↦ (changed, failed e)
            | none ↦ elim unverified [
              | none ↦ (verified, activated adapter)
              | some cause ↦
                  let (undone, e) =
                    activation_failure cfg "control-plane verification"
                      "TUN_PUBLIC_ROUTE_NOT_CAPTURED" control_plane_verified cause j' verified in
                  (undone, failed e)
            ]
          ]
        ]
      ]

  unfoldable pub activate_locked : Bool → Manager → Run E → Manager × Run E × Result
  activate_locked recover_first m run =
      let (recovered, error) = recover_network_state host checks m.cfg run in
      if not m.cfg.enabled
      then (m, run, activated no_adapter)
      else if m.active
      then (m, run, activated m.adapter)
      else if str_eq m.cfg.activation_plan.session_id ""
      then (m, run, failed (preflight_error "TUN_PREFLIGHT_FAILED" ""))
      else if recover_first
      then elim error [
        | some cause ↦ (m, recovered, failed (preflight_error "TUN_RECOVERY_DIRTY" "dirty"))
        | none ↦ settled m (apply_plan m.cfg recovered)
      ]
      else settled m (apply_plan m.cfg run)

  unfoldable pub activate : Manager → Run E → Manager × Run E × Result
  activate m run = activate_locked true m run

  abbrev inactive : Manager → Manager
  inactive m = record m { active = false; adapter = no_adapter }

  unfoldable pub rebind : Manager → Run E → Manager × Run E × Result
  rebind m run =
      let (recovered, error) = recover_network_state host checks m.cfg run in
      if not m.cfg.enabled then (m, run, activated no_adapter) else elim error [
        | some cause ↦ (m, recovered, failed (preflight_error "TUN_RECOVERY_DIRTY" "dirty"))
        | none ↦ activate_locked false (inactive m) recovered
      ]

  unfoldable pub deactivate : Manager → Run E → Manager × Run E × Option Cause
  deactivate m run =
      let (recovered, error) = recover_network_state host checks m.cfg run in
      if not m.cfg.enabled then (m, run, none) else elim error [
        | none ↦ (inactive m, recovered, none)
        | some cause ↦ (m, recovered, some cause)
      ]

  unfoldable pub recover : Manager → Run E → Run E × Option Cause
  recover m run =
      if not m.cfg.enabled then (run, none) else recover_network_state host checks m.cfg run
