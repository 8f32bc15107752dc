-- ===== src/Network/Restore.antt =====
-- The end of rollbackLocked and recoverLocked of internal/network/manager.go: when they report success.
use mathlib.Core.List.{reverse, reverse-reverse, append-nil}
use navo.Base.{
  ◌≡◌, inl, inr, refl, sym, subst, ◌∙◌, true, false, Option, none, some, [], arith, Bool-cases,
  Option-cases, ◌==◌, ==_iff,
}
use navo.Network.Journal.{
  Identity, Journal, Disk, absent, unreadable, holds, Checks, validate_recovery_journal,
}
use navo.Network.Manager.{Config, Host, Run, Cause, reaches}
use navo.Network.Recovery.{
  undo_all, remove_journal, rollback_locked, rollback_after_failure, recover_locked,
}
use navo.Network.Coverage.{
  IsHost, Covers, Covers-Same, CoversDisk, IsCovered, Holds, reaches-IsCovered, Same-Holds,
}
use navo.Network.Rollback.{undo_all-Ended}

module _ {E : Type 0} (Present : Identity → E → Type 0) (Before : Identity → Type 0) where
  -- The journal is gone, and so is every resource that was not there in the beginning.
  pub record IsRestored (run : Run E) : Type 0 where
    pub no_journal : run.disk ≡ absent
    pub as_before : Covers Present Before [] run.env

  -- The account is kept throughout, and no error means that all is as it was.
  pub record IsSettled (result : Run E × Option Cause) : Type 0 where
    pub covered : IsCovered Present Before result.0
    pub restored : result.1 ≡ none → IsRestored result.0

  some-IsSettled :
      (run : Run E) (cause : Cause) → IsCovered Present Before run → IsSettled (run, some cause)
  some-IsSettled run cause c = record { covered = c; restored = λ e. absurd (ground arith) }

module _ {E : Type 0} (Present : Identity → E → Type 0) (Before : Identity → Type 0) (host : Host E)
    (laws : IsHost Present host) (checks : Checks) (cfg : Config) where
  remove_journal-IsSettled :
      (run : Run E)
      → Holds Present Before [] run
      → IsSettled Present Before (remove_journal host checks cfg run)
  unfolding remove_journal
  remove_journal-IsSettled run h =
      let env = (host.remove run.env).0 in
      elim (Option-cases (host.remove run.env).1) [
        | inr (cause, error) ↦
            rw (remove_journal, error)
              (some-IsSettled Present Before (reaches env run.disk run) cause
                (Same-Holds Present Before [] env run (laws.removes run.env) h).covered)
        | inl ok ↦
            let gone = Covers-Same Present Before [] run.env env (laws.removes run.env) h.memory in
            rw (remove_journal, ok)
              (record {
                covered = reaches-IsCovered Present Before env absent run gone h.covered;
                restored = λ e. record { no_journal = refl; as_before = gone };
              })
      ]

  rollback_locked-IsSettled :
      (j : Journal) (run : Run E)
      → Holds Present Before j.actions run
      → IsSettled Present Before (rollback_locked host checks cfg j run)
  unfolding rollback_locked
  rollback_locked-IsSettled j run h =
      let start =
        subst (λ xs. Holds Present Before xs run)
          (sym (reverse-reverse j.actions) ∙ sym (append-nil (reverse (reverse j.actions)))) h in
      let result = undo_all host checks cfg j (reverse j.actions) [] false run in
      let ended =
        undo_all-Ended Present Before host laws checks cfg j (reverse j.actions) [] false run
          start in
      elim (Bool-cases (validate_recovery_journal checks j)) [
        | inr invalid ↦
            rw (rollback_locked, invalid) (some-IsSettled Present Before run none h.covered)
        | inl valid ↦ elim (Bool-cases result.2) [
          | inl failed ↦
              rw (rollback_locked, valid, failed)
                (some-IsSettled Present Before result.0 none ended.0.covered)
          | inr ok ↦
              rw (rollback_locked, valid, ok)
                (remove_journal-IsSettled result.0
                  (subst (λ xs. Holds Present Before xs result.0) (ended.1 ok).1 ended.0))
        ]
      ]

  pub rollback_after_failure-IsSettled :
      (j : Journal) (run : Run E)
      → Holds Present Before j.actions run
      → IsSettled Present Before (rollback_after_failure host checks cfg j run)
  unfolding rollback_after_failure
  rollback_after_failure-IsSettled j run h =
      let settled = rollback_locked-IsSettled j run h in
      let undone = rollback_locked host checks cfg j run in
      elim (Option-cases undone.1) [
        | inl ok ↦
            rw (rollback_after_failure, ok)
              (record { covered = settled.covered; restored = λ e. settled.restored ok })
        | inr (cause, error) ↦
            rw (rollback_after_failure, error)
              (some-IsSettled Present Before undone.0 (some "TUN_ROLLBACK_FAILED") settled.covered)
      ]

  recover_locked_by_disk :
      (d : Disk) (run : Run E)
      → run.disk ≡ d
      → CoversDisk Present Before d run.env
      → IsCovered Present Before run
      → IsSettled Present Before (recover_locked host checks cfg run)
  unfolding recover_locked
  recover_locked_by_disk absent run e now c =
      rw (recover_locked, e)
        (record { covered = c; restored = λ ok. record { no_journal = e; as_before = now } })
  recover_locked_by_disk unreadable run e now c = elim now [ ]
  recover_locked_by_disk (holds j) run e (version, now) c =
      let first : j.version == 1 ≡ false = ground arith in
      let second : j.version == 2 ≡ true = (==_iff j.version 2).1 version in
      rw (recover_locked, e, first, second)
        (rollback_after_failure-IsSettled j run (record { covered = c; memory = now }))

  pub recover_locked-IsSettled :
      (run : Run E)
      → IsCovered Present Before run
      → IsSettled Present Before (recover_locked host checks cfg run)
  recover_locked-IsSettled run c = recover_locked_by_disk run.disk run refl c.now c
