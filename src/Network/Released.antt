-- ===== src/Network/Released.antt =====
-- internal/network/manager.go: where a recovery or a deactivation reports no error, its journal is gone.
use navo.Base.{
  ◌≡◌, inl, inr, refl, ◌∙◌, true, false, none, [], arith, ◌==◌, str_eq, Bool-cases, Option-cases,
}
use mathlib.Core.List.{reverse}
use navo.Base.Text.{trim_space}
use navo.Network.Journal.{
  Journal, Disk, absent, unreadable, holds, Checks, validate_recovery_journal,
}
use navo.Network.Manager.{Config, Host, Run}
use navo.Network.Recovery.{
  undo_all, remove_journal, rollback_locked, rollback_after_failure, migrate_v1, recover_locked,
  cleanup_orphaned_firewall_rules, recover_network_state,
}
use navo.Network.Applying.{Output-cases}
use navo.Network.Activation.{Manager, deactivate}

module _ {E : Type 0} (host : Host E) (checks : Checks) (cfg : Config) where
  disk-remove_journal :
      (run : Run E)
      → (remove_journal host checks cfg run).1 ≡ none
      → (remove_journal host checks cfg run).0.disk ≡ absent
  unfolding remove_journal
  disk-remove_journal run ok = elim (Option-cases (host.remove run.env).1) [
    | inl fine ↦ rw (remove_journal, fine) refl
    | inr (cause, stuck) ↦ absurd (ground (arith, stuck))
  ]

  disk-rollback_locked :
      (j : Journal) (run : Run E)
      → (rollback_locked host checks cfg j run).1 ≡ none
      → (rollback_locked host checks cfg j run).0.disk ≡ absent
  unfolding rollback_locked
  disk-rollback_locked j run ok =
      let undone = undo_all host checks cfg j (reverse j.actions) [] false run in
      elim (Bool-cases (validate_recovery_journal checks j)) [
        | inr invalid ↦ absurd (ground (arith, invalid))
        | inl valid ↦ elim (Bool-cases undone.2) [
          | inl failed ↦ absurd (ground (arith, valid, failed))
          | inr fine ↦
              rw (rollback_locked, valid, fine)
                (disk-remove_journal undone.0 (ground (arith, valid, fine)))
        ]
      ]

  disk-rollback_after_failure :
      (j : Journal) (run : Run E)
      → (rollback_after_failure host checks cfg j run).1 ≡ none
      → (rollback_after_failure host checks cfg j run).0.disk ≡ absent
  unfolding rollback_after_failure
  disk-rollback_after_failure j run ok =
      elim (Option-cases (rollback_locked host checks cfg j run).1) [
        | inl fine ↦ rw (rollback_after_failure, fine) (disk-rollback_locked j run fine)
        | inr (cause, stuck) ↦ absurd (ground (arith, stuck))
      ]

  disk-recover_locked :
      (run : Run E)
      → (recover_locked host checks cfg run).1 ≡ none
      → (recover_locked host checks cfg run).0.disk ≡ absent
  unfolding recover_locked
  disk-recover_locked run ok = by_disk run.disk refl
    where
      by_disk : (d : Disk) → run.disk ≡ d → (recover_locked host checks cfg run).0.disk ≡ absent
      by_disk absent e = rw (recover_locked, e) e
      by_disk unreadable e = absurd (ground (arith, e))
      by_disk (holds j) e =
          let migrated = migrate_v1 host checks cfg j run in
          elim (Bool-cases (j.version == 1)) [
            | inl old ↦ elim (Option-cases migrated.1) [
              | inl lost ↦ absurd (ground (arith, e, old, lost))
              | inr (j2, kept) ↦
                  rw (recover_locked, e, old, kept)
                    (disk-rollback_after_failure j2 migrated.0 (ground (arith, e, old, kept)))
            ]
            | inr other ↦ elim (Bool-cases (j.version == 2)) [
              | inl current ↦
                  rw (recover_locked, e, other, current)
                    (disk-rollback_after_failure j run (ground (arith, e, other, current)))
              | inr strange ↦ absurd (ground (arith, e, other, strange))
            ]
          ]

  disk-cleanup :
      (run : Run E) → (cleanup_orphaned_firewall_rules host checks cfg run).0.disk ≡ run.disk
  unfolding cleanup_orphaned_firewall_rules
  disk-cleanup run = elim (Output-cases (host.scan_orphans run.env).1) [
    | inr (cause, failed) ↦ rw (cleanup_orphaned_firewall_rules, failed) refl
    | inl (text, printed) ↦ elim (Bool-cases (str_eq (trim_space text) "CLEAN")) [
      | inl clean ↦ rw (cleanup_orphaned_firewall_rules, printed, clean) refl
      | inr dirty ↦ elim (Bool-cases (str_eq (trim_space text) "ORPHANED")) [
        | inl orphaned ↦ rw (cleanup_orphaned_firewall_rules, printed, dirty, orphaned) refl
        | inr other ↦ rw (cleanup_orphaned_firewall_rules, printed, dirty, other) refl
      ]
    ]
  ]

  -- Whatever the journal was: if the recovery reports no error, it is gone.
  pub disk-recover_network_state :
      (run : Run E)
      → (recover_network_state host checks cfg run).1 ≡ none
      → (recover_network_state host checks cfg run).0.disk ≡ absent
  unfolding recover_network_state
  disk-recover_network_state run ok =
      let recovered = recover_locked host checks cfg run in
      let swept = cleanup_orphaned_firewall_rules host checks cfg recovered.0 in
      elim (Option-cases recovered.1) [
        | inr (cause, stuck) ↦ absurd (ground (arith, stuck))
        | inl fine ↦ elim (Option-cases swept.1) [
          | inr (cause, dirty) ↦ absurd (ground (arith, fine, dirty))
          | inl clean ↦
              rw (recover_network_state, fine, clean)
                (disk-cleanup recovered.0 ∙ disk-recover_locked run fine)
        ]
      ]

module _ {E : Type 0} (host : Host E) (checks : Checks) where
  -- A manager that is enabled and deactivates without an error leaves no journal behind.
  pub disk-deactivate :
      (m : Manager) (run : Run E)
      → m.cfg.enabled ≡ true
      → (deactivate host checks m run).2 ≡ none
      → (deactivate host checks m run).1.disk ≡ absent
  unfolding deactivate
  disk-deactivate m run on ok =
      elim (Option-cases (recover_network_state host checks m.cfg run).1) [
        | inr (cause, stuck) ↦ absurd (ground (arith, on, stuck))
        | inl fine ↦ ground (arith, on, fine, disk-recover_network_state host checks m.cfg run fine)
      ]
