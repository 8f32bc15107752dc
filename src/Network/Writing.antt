-- ===== src/Network/Writing.antt =====
-- internal/network/manager.go: an activation whose resources are valid writes readable journals only.
use mathlib.Core.List.{reverse}
use navo.Base.{
  ◌≡◌, inl, inr, refl, Bool, true, false, Option, none, List, [], ◌∷◌, ◌++◌, String, arith, All,
  Bool-cases, Option-cases,
}
use navo.Network.Journal.{
  Journal, absent, ActionStatus, pending, applied, Checks, all_valid, validate_journal_resource,
  validate_recovery_journal,
}
use navo.Network.Manager.{
  Config, Host, Run, Cause, reaches, write_journal, NetworkOperation, inspect_operation,
  should_inject_failure, operations,
}
use navo.Network.Recovery.{undo_all, remove_journal, rollback_locked, rollback_after_failure}
use navo.Network.Activation.{
  Stage, control_plane_verified, network_applied, TunError, activation_failure, add_action,
  broken_off, apply_operation, apply_all, apply_plan,
}
use navo.Network.Applying.{entry}
use navo.Network.Crash.{Inspected-cases}
use navo.Network.Readable.{
  IsReadable, reaches-IsReadable, same-IsReadable, write-IsReadable, undo_all-IsReadable,
  all_valid-append, all_valid-reverse, replaced-valid, valid-actions,
}

-- A recovery would accept the resource of each operation.
abbrev pub Named : Checks → List NetworkOperation → Type 0
Named checks ops =
    All (λ (op : NetworkOperation). validate_journal_resource checks op.identity ≡ true) ops

abbrev pub opening : Config → Journal
opening cfg = record {
  version = 2;
  adapter_name = cfg.activation_plan.adapter_name;
  session_id = cfg.activation_plan.session_id;
  actions = [];
}

module _ (checks : Checks) {E : Type 0} (host : Host E) (cfg : Config) where
  remove_journal-IsReadable :
      (run : Run E)
      → IsReadable checks run
      → IsReadable checks (remove_journal host checks cfg run).0
  unfolding remove_journal
  remove_journal-IsReadable run i = elim (Option-cases (host.remove run.env).1) [
    | inl ok ↦
        rw (remove_journal, ok) (reaches-IsReadable checks (host.remove run.env).0 absent run tt i)
    | inr (cause, e) ↦ rw (remove_journal, e) (same-IsReadable checks (host.remove run.env).0 run i)
  ]

  rollback_locked-IsReadable :
      (j : Journal) (run : Run E)
      → validate_recovery_journal checks j ≡ true
      → IsReadable checks run
      → IsReadable checks (rollback_locked host checks cfg j run).0
  unfolding rollback_locked all_valid
  rollback_locked-IsReadable j run v i =
      let result = undo_all host checks cfg j (reverse j.actions) [] false run in
      let i' =
        undo_all-IsReadable checks host cfg j (reverse j.actions) [] false run v
          (all_valid-reverse checks j.actions (valid-actions checks j v).0) refl i in
      elim (Bool-cases result.2) [
        | inl failed ↦ rw (rollback_locked, v, failed) i'
        | inr fine ↦ rw (rollback_locked, v, fine) (remove_journal-IsReadable result.0 i')
      ]

  activation_failure-IsReadable :
      (name code : String) (stage : Stage) (cause : Cause) (j : Journal) (run : Run E)
      → validate_recovery_journal checks j ≡ true
      → IsReadable checks run
      → IsReadable checks (activation_failure host checks cfg name code stage cause j run).0
  unfolding activation_failure rollback_after_failure
  activation_failure-IsReadable name code stage cause j run v i =
      let undone = rollback_locked host checks cfg j run in
      let i' = rollback_locked-IsReadable j run v i in
      elim (Option-cases undone.1) [
        | inl ok ↦ rw (activation_failure, rollback_after_failure, ok) i'
        | inr (c, e) ↦ rw (activation_failure, rollback_after_failure, e) i'
      ]

  -- The journal that goes on is valid, and so is every one that was written.
  abbrev pub Written : Run E × Journal × Option TunError → Type 0
  Written (run, j, error) = IsReadable checks run × (validate_recovery_journal checks j ≡ true)

  broken_off-Written :
      (op : NetworkOperation) (cause : Cause) (j : Journal) (run : Run E)
      → validate_recovery_journal checks j ≡ true
      → IsReadable checks run
      → Written (broken_off host checks cfg op cause j run)
  broken_off-Written op cause j run v i =
      (activation_failure-IsReadable op.name op.code network_applied cause j run v i, v)

  entry-valid :
      (j : Journal) (op : NetworkOperation) (status : ActionStatus) (made : Bool)
      → validate_journal_resource checks op.identity ≡ true
      → validate_recovery_journal checks j ≡ true
      → validate_recovery_journal checks (add_action j (entry op status made)) ≡ true
  unfolding all_valid
  entry-valid j op status made ok v =
      replaced-valid checks j (j.actions ++ entry op status made ∷ []) v (
        all_valid-append checks j.actions (entry op status made ∷ []) (valid-actions checks j v).0
          (ground (arith, ok)))

  apply_operation-Written :
      (op : NetworkOperation) (j : Journal) (run : Run E)
      → validate_journal_resource checks op.identity ≡ true
      → validate_recovery_journal checks j ≡ true
      → IsReadable checks run
      → Written (apply_operation host checks cfg op j run)
  unfolding apply_operation
  apply_operation-Written op j run named v i =
      let r = op.identity in
      let path = cfg.journal_path in
      let inspected = reaches (inspect_operation host r run.env).0 run.disk run in
      let i0 = same-IsReadable checks (inspect_operation host r run.env).0 run i in
      let found = add_action j (entry op applied false) in
      let planned = add_action j (entry op pending true) in
      let made = add_action j (entry op applied true) in
      let found_ok = entry-valid j op applied false named v in
      let planned_ok = entry-valid j op pending true named v in
      let made_ok = entry-valid j op applied true named v in
      let noted = write_journal host path found inspected in
      let i1 = write-IsReadable checks host path found inspected found_ok i0 in
      let announced = write_journal host path planned inspected in
      let i2 = write-IsReadable checks host path planned inspected planned_ok i0 in
      let env2 = (host.apply r announced.0.env).0 in
      let changed = reaches env2 announced.0.disk announced.0 in
      let i3 = same-IsReadable checks env2 announced.0 i2 in
      let recorded = write_journal host path made changed in
      let i4 = write-IsReadable checks host path made changed made_ok i3 in
      elim (Inspected-cases (inspect_operation host r run.env).1) [
        | inr (inr (cause, e)) ↦
            rw (apply_operation, e) (broken_off-Written op cause j inspected v i0)
        | inl e ↦ elim (Option-cases noted.1) [
          | inr (cause, error) ↦
              rw (apply_operation, e, error) (broken_off-Written op cause found noted.0 found_ok i1)
          | inl ok ↦ elim (Bool-cases (should_inject_failure cfg.failure_point op)) [
            | inl injected ↦
                rw (apply_operation, e, ok, injected)
                  (broken_off-Written op none found noted.0 found_ok i1)
            | inr goes ↦ rw (apply_operation, e, ok, goes) (i1, found_ok)
          ]
        ]
        | inr (inl e) ↦ elim (Option-cases announced.1) [
          | inr (cause, error) ↦
              rw (apply_operation, e, error)
                (broken_off-Written op cause planned announced.0 planned_ok i2)
          | inl ok ↦ elim (Option-cases (host.apply r announced.0.env).1) [
            | inr (cause, error) ↦
                rw (apply_operation, e, ok, error)
                  (broken_off-Written op cause planned changed planned_ok i3)
            | inl done ↦ elim (Option-cases recorded.1) [
              | inr (cause, error) ↦
                  rw (apply_operation, e, ok, done, error)
                    (broken_off-Written op cause made recorded.0 made_ok i4)
              | inl fine ↦ elim (Bool-cases (should_inject_failure cfg.failure_point op)) [
                | inl injected ↦
                    rw (apply_operation, e, ok, done, fine, injected)
                      (broken_off-Written op none made recorded.0 made_ok i4)
                | inr goes ↦ rw (apply_operation, e, ok, done, fine, goes) (i4, made_ok)
              ]
            ]
          ]
        ]
      ]

  apply_all-Written :
      (ops : List NetworkOperation) (j : Journal) (run : Run E)
      → Named checks ops
      → validate_recovery_journal checks j ≡ true
      → IsReadable checks run
      → Written (apply_all host checks cfg ops j run)
  unfolding apply_all
  apply_all-Written [] j run named v i = (i, v)
  apply_all-Written (op ∷ ops) j run named v i =
      let (i', v') = apply_operation-Written op j run named.0 v i in
      let result = apply_operation host checks cfg op j run in
      elim (Option-cases result.2) [
        | inl ok ↦ rw (apply_all, ok) (apply_all-Written ops result.1 result.0 named.1 v' i')
        | inr (error, e) ↦ rw (apply_all, e) (i', v')
      ]

  pub apply_plan-IsReadable :
      (run : Run E)
      → validate_recovery_journal checks (opening cfg) ≡ true
      → Named checks
          (operations cfg.activation_plan (host.wait_for_adapter cfg.activation_plan run.env).2)
      → IsReadable checks run
      → IsReadable checks (apply_plan host checks cfg run).0
  unfolding apply_plan
  apply_plan-IsReadable run v named i =
      let plan = cfg.activation_plan in
      let waited = host.wait_for_adapter plan run.env in
      let ready = reaches waited.0 run.disk run in
      let i1 = same-IsReadable checks waited.0 run i in
      let opened = write_journal host cfg.journal_path (opening cfg) ready in
      let i2 = write-IsReadable checks host cfg.journal_path (opening cfg) ready v i1 in
      let changed = apply_all host checks cfg (operations plan waited.2) (opening cfg) opened.0 in
      let (i3, v') =
        apply_all-Written (operations plan waited.2) (opening cfg) opened.0 named v i2 in
      let checked = host.verify_control_plane plan waited.2 changed.0.env in
      let i4 = same-IsReadable checks checked.0 changed.0 i3 in
      elim (Option-cases waited.1) [
        | inr (cause, e) ↦ rw (apply_plan, e) i1
        | inl found ↦ elim (Option-cases opened.1) [
          | inr (cause, e) ↦ rw (apply_plan, found, e) i2
          | inl ok ↦ elim (Option-cases changed.2) [
            | inr (error, e) ↦ rw (apply_plan, found, ok, e) i3
            | inl done ↦ elim (Option-cases checked.1) [
              | inl fine ↦ rw (apply_plan, found, ok, done, fine) i4
              | inr (cause, e) ↦
                  rw (apply_plan, found, ok, done, e)
                    (activation_failure-IsReadable "control-plane verification"
                      "TUN_PUBLIC_ROUTE_NOT_CAPTURED" control_plane_verified cause changed.1
                      (reaches checked.0 changed.0.disk changed.0) v' i4)
            ]
          ]
        ]
      ]
