-- ===== src/Network/Crash.antt =====
-- The loop of activateLocked in internal/network/manager.go: after each of its rounds the account still holds.
use navo.Base.{
  ◌≡◌, ◌∙◌, ◌⊎◌, inl, inr, refl, subst, true, false, Option, none, List, [], ◌∷◌, arith, Bool-cases,
  Option-cases,
}
use navo.Network.Journal.{Identity, Journal, pending, applied, Checks}
use navo.Network.Manager.{
  Config, Host, Run, Cause, reaches, write_journal, NetworkOperation, Inspected, exact, missing,
  inspect_failed, inspect_operation, should_inject_failure,
}
use navo.Network.Activation.{TunError, add_action, apply_operation, apply_all}
use navo.Network.Coverage.{Owns, IsHost, Holds, Same-Holds, write-Holds}
use navo.Network.Applying.{
  entry, Owns-append, add_action-Holds, apply-Holds, write_journal-holds, inspect_operation-Same,
  inspect_operation-missing, IsApplied, going-IsApplied, broken_off-IsApplied, remade-Holds,
}

pub Inspected-cases :
    (i : Inspected) → (i ≡ exact) ⊎ (i ≡ missing) ⊎ ((cause : Cause) × (i ≡ inspect_failed cause))
Inspected-cases exact = inl refl
Inspected-cases missing = inr (inl refl)
Inspected-cases (inspect_failed cause) = inr (inr (cause, refl))

module _ {E : Type 0} (Present : Identity → E → Type 0) (Before : Identity → Type 0) (host : Host E)
    (laws : IsHost Present host) (checks : Checks) (cfg : Config) where
  abbrev Kept : Run E × Journal × Option TunError → Type 0
  Kept result = IsApplied Present Before host laws checks cfg result

  apply_operation-exact :
      (op : NetworkOperation) (j : Journal) (run : Run E)
      → j.version ≡ 2
      → Holds Present Before j.actions
          (reaches (inspect_operation host op.identity run.env).0 run.disk run)
      → (inspect_operation host op.identity run.env).1 ≡ exact
      → Kept (apply_operation host checks cfg op j run)
  unfolding apply_operation
  apply_operation-exact op j run v h e =
      let inspected = reaches (inspect_operation host op.identity run.env).0 run.disk run in
      let found = add_action j (entry op applied false) in
      let h' =
        add_action-Holds Present Before host laws checks cfg j (entry op applied false) inspected
          (λ r o. absurd (ground (arith, o.0))) h in
      let noted = write_journal host cfg.journal_path found inspected in
      let held = write-Holds Present Before host laws cfg.journal_path found inspected h' in
      elim (Option-cases noted.1) [
        | inr (cause, error) ↦
            rw (apply_operation, e, error)
              (broken_off-IsApplied Present Before host laws checks cfg op cause found noted.0 held)
        | inl ok ↦ elim (Bool-cases (should_inject_failure cfg.failure_point op)) [
          | inl injected ↦
              rw (apply_operation, e, ok, injected)
                (broken_off-IsApplied Present Before host laws checks cfg op none found noted.0
                  held)
          | inr goes ↦
              rw (apply_operation, e, ok, goes)
                (going-IsApplied Present Before host laws checks cfg found noted.0 v held)
        ]
      ]

  apply_operation-missing :
      (op : NetworkOperation) (j : Journal) (run : Run E)
      → j.version ≡ 2
      → Holds Present Before j.actions
          (reaches (inspect_operation host op.identity run.env).0 run.disk run)
      → (inspect_operation host op.identity run.env).1 ≡ missing
      → Kept (apply_operation host checks cfg op j run)
  unfolding apply_operation
  apply_operation-missing op j run v h e =
      let r = op.identity in
      let a = entry op pending true in
      let inspected = reaches (inspect_operation host r run.env).0 run.disk run in
      let planned = add_action j a in
      let made = add_action j (entry op applied true) in
      let gone = inspect_operation-missing Present Before host laws checks cfg r run.env e in
      let new = λ (s : Identity) (o : Owns a s) (b : Before s).
        gone (subst (λ s. Present s inspected.env) o.1 (h.memory.kept s b)) in
      let h' = add_action-Holds Present Before host laws checks cfg j a inspected new h in
      let announced = write_journal host cfg.journal_path planned inspected in
      let held = write-Holds Present Before host laws cfg.journal_path planned inspected h' in
      elim (Option-cases announced.1) [
        | inr (cause, error) ↦
            rw (apply_operation, e, error)
              (broken_off-IsApplied Present Before host laws checks cfg op cause planned announced.0
                held)
        | inl ok ↦
            let disk =
              write_journal-holds Present Before host laws checks cfg cfg.journal_path planned
                inspected ok in
            let env2 = (host.apply r announced.0.env).0 in
            let changed = reaches env2 announced.0.disk announced.0 in
            let after =
              apply-Holds Present Before host laws checks cfg planned r announced.0 v disk
                (Owns-append j.actions a r (refl, refl)) held in
            let recorded = write_journal host cfg.journal_path made changed in
            let held2 =
              write-Holds Present Before host laws cfg.journal_path made changed
                (remade-Holds Present Before host laws checks cfg j.actions op changed after) in
            elim (Option-cases (host.apply r announced.0.env).1) [
              | inr (cause, error) ↦
                  rw (apply_operation, e, ok, error)
                    (broken_off-IsApplied Present Before host laws checks cfg op cause planned
                      changed after)
              | inl applied_ok ↦ elim (Option-cases recorded.1) [
                | inr (cause, error) ↦
                    rw (apply_operation, e, ok, applied_ok, error)
                      (broken_off-IsApplied Present Before host laws checks cfg op cause made
                        recorded.0 held2)
                | inl recorded_ok ↦ elim (Bool-cases (should_inject_failure cfg.failure_point op)) [
                  | inl injected ↦
                      rw (apply_operation, e, ok, applied_ok, recorded_ok, injected)
                        (broken_off-IsApplied Present Before host laws checks cfg op none made
                          recorded.0 held2)
                  | inr goes ↦
                      rw (apply_operation, e, ok, applied_ok, recorded_ok, goes)
                        (going-IsApplied Present Before host laws checks cfg made recorded.0 v
                          held2)
                ]
              ]
            ]
      ]

  apply_operation-IsApplied :
      (op : NetworkOperation) (j : Journal) (run : Run E)
      → j.version ≡ 2
      → Holds Present Before j.actions run
      → Kept (apply_operation host checks cfg op j run)
  unfolding apply_operation
  apply_operation-IsApplied op j run v h =
      let env = (inspect_operation host op.identity run.env).0 in
      let same = inspect_operation-Same Present Before host laws checks cfg op.identity run.env in
      let h' = Same-Holds Present Before j.actions env run same h in
      elim (Inspected-cases (inspect_operation host op.identity run.env).1) [
        | inl e ↦ apply_operation-exact op j run v h' e
        | inr (inl e) ↦ apply_operation-missing op j run v h' e
        | inr (inr (cause, e)) ↦
            rw (apply_operation, e)
              (broken_off-IsApplied Present Before host laws checks cfg op cause j
                (reaches env run.disk run) h')
      ]

  pub apply_all-IsApplied :
      (ops : List NetworkOperation) (j : Journal) (run : Run E)
      → j.version ≡ 2
      → Holds Present Before j.actions run
      → Kept (apply_all host checks cfg ops j run)
  unfolding apply_all
  apply_all-IsApplied [] j run v h = going-IsApplied Present Before host laws checks cfg j run v h
  apply_all-IsApplied (op ∷ ops) j run v h =
      let first = apply_operation-IsApplied op j run v h in
      let result = apply_operation host checks cfg op j run in
      elim (Option-cases result.2) [
        | inl ok ↦
            let (v', h') = first.goes_on ok in
            rw (apply_all, ok) (apply_all-IsApplied ops result.1 result.0 v' h')
        | inr (error, e) ↦
            rw (apply_all, e)
              (record {
                covered = first.covered;
                goes_on = λ n. absurd (ground arith);
                restored = λ error' same complete. first.restored error' (e ∙ same) complete;
              })
      ]
