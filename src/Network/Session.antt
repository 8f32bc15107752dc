-- ===== src/Network/Session.antt =====
-- Activate, Recover and Deactivate of internal/network/manager.go, from before a session to after it.
use navo.Base.{◌≡◌, inl, inr, refl, sym, subst, [], ◌∷◌, arith, Option-cases}
use navo.Network.Journal.{Identity, Journal, Disk, absent, Checks}
use navo.Network.Manager.{
  Config, Host, Run, Cause, AdapterSnapshot, reaches, write_journal, operations,
}
use navo.Network.Activation.{
  control_plane_verified, TunError, Result, activated, refused, failed, activation_failure,
  apply_all, apply_plan,
}
use navo.Network.Coverage.{IsHost, IsCovered, Holds, Same-Holds, write-Holds}
use navo.Network.Restore.{IsRestored}
use navo.Network.Applying.{activation_failure-IsCovered, activation_failure-IsRestored}
use navo.Network.Crash.{apply_all-IsApplied}

-- A session begins with no journal.
abbrev pub fresh : {E : Type 0} → E → Run E
fresh e = record { env = e; disk = absent; trail = (absent, e) ∷ [] }

-- A process that starts on what an earlier one has left behind.
abbrev pub restart : {E : Type 0} → Disk × E → Run E
restart (disk, env) = record { env = env; disk = disk; trail = (disk, env) ∷ [] }

module _ {E : Type 0} (Present : Identity → E → Type 0) (Before : Identity → Type 0) (host : Host E)
    (laws : IsHost Present host) (checks : Checks) (cfg : Config) where
  -- The account is kept throughout, and an error whose rollback is complete leaves all as it was.
  pub record IsEnded (result : Run E × Result) : Type 0 where
    pub covered : IsCovered Present Before result.0
    pub restored :
        (error : TunError)
        → result.1 ≡ failed error
        → error.rollback_status ≡ "complete"
        → IsRestored Present Before result.0

  refused-IsEnded :
      (run : Run E) (cause : Cause) → IsCovered Present Before run → IsEnded (run, refused cause)
  refused-IsEnded run cause c = record { covered = c; restored = λ error e. absurd (ground arith) }

  activated-IsEnded :
      (run : Run E) (adapter : AdapterSnapshot)
      → IsCovered Present Before run
      → IsEnded (run, activated adapter)
  activated-IsEnded run adapter c = record {
    covered = c;
    restored = λ error e. absurd (ground arith);
  }

  failed-IsEnded :
      (run : Run E) (error : TunError)
      → IsCovered Present Before run
      → (error.rollback_status ≡ "complete" → IsRestored Present Before run)
      → IsEnded (run, failed error)
  failed-IsEnded run error c restored = record {
    covered = c;
    restored = λ error' e complete. restored (
        subst (λ (x : TunError). x.rollback_status ≡ "complete")
          (sym (failed-injective error error' e)) complete);
  }
    where
      failed-injective : (x y : TunError) → failed x ≡ failed y → x ≡ y
      failed-injective x y e = cc

  pub apply_plan-IsEnded :
      (run : Run E) → Holds Present Before [] run → IsEnded (apply_plan host checks cfg run)
  unfolding apply_plan
  apply_plan-IsEnded run h =
      let plan = cfg.activation_plan in
      let waited = host.wait_for_adapter plan run.env in
      let ready = reaches waited.0 run.disk run in
      let h1 = Same-Holds Present Before [] waited.0 run (laws.waits plan run.env) h in
      let j : Journal = record {
        version = 2;
        adapter_name = plan.adapter_name;
        session_id = plan.session_id;
        actions = [];
      } in
      let opened = write_journal host cfg.journal_path j ready in
      let h2 = write-Holds Present Before host laws cfg.journal_path j ready h1 in
      let changed = apply_all host checks cfg (operations plan waited.2) j opened.0 in
      let ended =
        apply_all-IsApplied Present Before host laws checks cfg (operations plan waited.2) j
          opened.0 refl h2 in
      let env2 = (host.verify_control_plane plan waited.2 changed.0.env).0 in
      let same = laws.verifies plan waited.2 changed.0.env in
      let verified = reaches env2 changed.0.disk changed.0 in
      elim (Option-cases waited.1) [
        | inr (cause, e) ↦ rw (apply_plan, e) (refused-IsEnded ready cause h1.covered)
        | inl found ↦ elim (Option-cases opened.1) [
          | inr (cause, e) ↦ rw (apply_plan, found, e) (refused-IsEnded opened.0 cause h2.covered)
          | inl ok ↦ elim (Option-cases changed.2) [
            | inr (error, e) ↦
                rw (apply_plan, found, ok, e)
                  (failed-IsEnded changed.0 error ended.covered (ended.restored error e))
            | inl done ↦
                let h3 =
                  Same-Holds Present Before changed.1.actions env2 changed.0 same
                    (ended.goes_on done).1 in
                elim (Option-cases (host.verify_control_plane plan waited.2 changed.0.env).1) [
                  | inl fine ↦
                      rw (apply_plan, found, ok, done, fine)
                        (activated-IsEnded verified waited.2 h3.covered)
                  | inr (cause, e) ↦
                      let undone =
                        activation_failure host checks cfg "control-plane verification"
                          "TUN_PUBLIC_ROUTE_NOT_CAPTURED" control_plane_verified cause changed.1
                          verified in
                      rw (apply_plan, found, ok, done, e)
                        (failed-IsEnded undone.0 undone.1
                          (activation_failure-IsCovered Present Before host laws checks cfg
                            "control-plane verification" "TUN_PUBLIC_ROUTE_NOT_CAPTURED"
                            control_plane_verified cause changed.1 verified h3)
                          (activation_failure-IsRestored Present Before host laws checks cfg
                            "control-plane verification" "TUN_PUBLIC_ROUTE_NOT_CAPTURED"
                            control_plane_verified cause changed.1 verified h3))
                ]
          ]
        ]
      ]
