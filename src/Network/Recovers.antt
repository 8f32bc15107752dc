-- ===== src/Network/Recovers.antt =====
-- internal/network/manager.go: on a machine whose commands succeed, a recovery of a session ends without an error.
use mathlib.Core.List.{reverse}
use navo.Base.{
  ◌≡◌, ◌≢◌, inl, inr, refl, true, false, Option, none, List, [], ◌∷◌, ◌++◌, str_eq, arith, All,
  All-map, All-both, List-cases, if-either, ◌==◌, ==_iff,
}
use navo.Network.Journal.{
  Identity, JournalAction, Journal, Disk, absent, unreadable, holds, Checks, all_valid,
  validate_journal_resource, validate_recovery_journal,
}
use navo.Network.Manager.{Config, Host, Run, Cause, write_journal}
use navo.Network.Recovery.{
  undo_resource, undo_action, undo_all, remove_journal, rollback_locked, rollback_after_failure,
  recover_locked,
}
use navo.Network.Activation.{apply_plan}
use navo.Network.Coverage.{IsHost, CoversDisk}
use navo.Network.Restore.{recover_locked-IsSettled}
use navo.Network.Session.{fresh, restart, apply_plan-IsEnded}
use navo.Network.Deactivate.{IsAsBefore, restored-IsAsBefore, fresh-Holds, restart-IsCovered}
use navo.Network.Readable.{Readable, valid-actions, all_valid-reverse}
use navo.Network.Writing.{apply_plan-IsReadable}
use navo.Network.Plans.{IsPlan, operations-Named, opening-valid}

module _ {E : Type 0} where
  -- Undoing, writing and removing succeed.
  pub record IsHealthy (host : Host E) : Type 0 where
    pub undoes : (r : Identity) (e : E) → (host.undo r e).1 ≡ none
    pub writes : (e : E) → (host.write e).1 ≡ none
    pub removes : (e : E) → (host.remove e).1 ≡ none

  module _ (checks : Checks) (host : Host E) (healthy : IsHealthy host) (cfg : Config)
      (path : str_eq cfg.journal_path "" ≡ false) where
    undo_action-succeeds :
        (a : JournalAction) (run : Run E)
        → validate_journal_resource checks a.resource.identity ≡ true
        → (undo_action host checks cfg a run).1 ≡ none
    unfolding undo_action undo_resource
    undo_action-succeeds a run v =
        if-either (λ (x : Run E × Option Cause). x.1 ≡ none) a.resource.created_by_navo
          (rw v (healthy.undoes a.resource.identity run.env)) refl

    write_journal-succeeds :
        (j : Journal) (run : Run E)
        → j.version ≡ 2
        → (write_journal host cfg.journal_path j run).1 ≡ none
    unfolding write_journal
    write_journal-succeeds j run v =
        let written = (==_iff j.version 2).1 v in
        rw (write_journal, path, written, healthy.writes run.env) refl

    undo_all-succeeds :
        (j : Journal) (left kept : List JournalAction) (run : Run E)
        → j.version ≡ 2
        → all_valid checks left ≡ true
        → (undo_all host checks cfg j left kept false run).2 ≡ false
    unfolding undo_all all_valid
    undo_all-succeeds j [] kept run v h = refl
    undo_all-succeeds j (a ∷ left) kept run v h =
        let undone = undo_action host checks cfg a run in
        let ok = undo_action-succeeds a run (ground (arith, h)) in
        let rest : all_valid checks left ≡ true = ground (arith, h) in
        let more = record j { actions = reverse left ++ kept } in
        let saved = write_journal host cfg.journal_path more undone.0 in
        elim (List-cases (reverse left ++ kept)) [
          | inl empty ↦ rw (undo_all, ok, empty) (undo_all-succeeds j left kept undone.0 v rest)
          | inr (b, others, full) ↦
              rw (undo_all, ok, full, write_journal-succeeds more undone.0 v)
                (undo_all-succeeds j left kept saved.0 v rest)
        ]

    rollback_locked-succeeds :
        (j : Journal) (run : Run E)
        → validate_recovery_journal checks j ≡ true
        → (rollback_locked host checks cfg j run).1 ≡ none
    unfolding rollback_locked remove_journal
    rollback_locked-succeeds j run v =
        let (actions, version) = valid-actions checks j v in
        let result = undo_all host checks cfg j (reverse j.actions) [] false run in
        let fine =
          undo_all-succeeds j (reverse j.actions) [] run version
            (all_valid-reverse checks j.actions actions) in
        rw (rollback_locked, v, fine, remove_journal, healthy.removes result.0.env) refl

    pub recover_locked-succeeds :
        (m : Disk × E) → Readable checks m.0 → (recover_locked host checks cfg (restart m)).1 ≡ none
    unfolding recover_locked rollback_after_failure
    recover_locked-succeeds (absent, e) v = refl
    recover_locked-succeeds (unreadable, e) v = elim v [ ]
    recover_locked-succeeds (holds j, e) v =
        let version = (valid-actions checks j v).1 in
        let first : j.version == 1 ≡ false = ground (arith, version) in
        let second : j.version == 2 ≡ true = (==_iff j.version 2).1 version in
        rw
          (
            recover_locked,
            first,
            second,
            rollback_after_failure,
            rollback_locked-succeeds j (restart (holds j, e)) v,
          )
          refl

module _ {E : Type 0} (Present : Identity → E → Type 0) (checks : Checks) where
  -- Wherever an activation that began with no journal is broken off, a restart on a machine whose undoing, writing
  -- and removing succeed recovers without an error, and leaves no journal and the same resources as before the
  -- activation: if there is a path for the journal, the plan is as IsPlan says and the adapter has an index. Both
  -- machines keep IsHost's laws; the first one may fail at any command.
  pub apply_plan-recovers :
      (host : Host E)
      → IsHost Present host
      → (machine : Host E) (laws : IsHost Present machine) → IsHealthy machine
      → (cfg : Config) (e : E) → str_eq cfg.journal_path "" ≡ false
      → IsPlan checks cfg.activation_plan
      → (host.wait_for_adapter cfg.activation_plan e).2.interface_index ≢ 0
      → All
          (λ (m : Disk × E).
            ((recover_locked machine checks cfg (restart m)).1 ≡ none)
            × IsAsBefore Present machine laws checks e
                (recover_locked machine checks cfg (restart m)).0)
          (apply_plan host checks cfg (fresh e)).0.trail
  apply_plan-recovers host host_laws machine laws healthy cfg e path plan stable =
      let trail = (apply_plan host checks cfg (fresh e)).0.trail in
      let begun = fresh-Holds Present host host_laws checks e in
      let covered =
        (apply_plan-IsEnded Present (λ r. Present r e) host host_laws checks cfg (fresh e)
          begun).covered in
      let readable =
        apply_plan-IsReadable checks host cfg (fresh e) (opening-valid checks cfg plan)
          (operations-Named checks cfg.activation_plan
            (host.wait_for_adapter cfg.activation_plan e).2 plan stable)
          (record { now = tt; before = (tt, tt) }) in
      All-map
        {P = λ (m : Disk × E). Readable checks m.0 × CoversDisk Present (λ r. Present r e) m.0 m.1}
        (λ m both.
          let ok = recover_locked-succeeds checks machine healthy cfg path m both.0 in
          let settled =
            recover_locked-IsSettled Present (λ r. Present r e) machine laws checks cfg (restart m)
              (restart-IsCovered Present machine laws checks e m both.1) in
          (
            ok,
            restored-IsAsBefore Present machine laws checks e
                (recover_locked machine checks cfg (restart m)).0 (settled.restored ok),
          ))
        trail
        (All-both (λ (m : Disk × E). Readable checks m.0)
          (λ (m : Disk × E). CoversDisk Present (λ r. Present r e) m.0 m.1) trail readable.before
          covered.before)
