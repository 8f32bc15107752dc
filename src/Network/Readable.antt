-- ===== src/Network/Readable.antt =====
-- internal/network/manager.go: the journals that a rollback writes pass validateRecoveryJournal.
use mathlib.Core.List.{reverse, reverse-cons}
use navo.Base.{
  ◌≡◌, inl, inr, Bool, true, Option, List, [], ◌∷◌, ◌++◌, String, str_eq, arith, All, if-either,
  Bool-cases, Option-cases, List-cases, ◌==◌,
}
use navo.Network.Journal.{
  Identity, JournalAction, Journal, Disk, absent, unreadable, holds, Checks, all_valid,
  validate_journal_resource, validate_recovery_journal,
}
use navo.Network.Manager.{Config, Host, Run, Cause, reaches, write_journal}
use navo.Network.Recovery.{undo_resource, undo_action, undo_all}

module _ (checks : Checks) where
  pub all_valid-append :
      (xs ys : List JournalAction)
      → all_valid checks xs ≡ true
      → all_valid checks ys ≡ true
      → all_valid checks (xs ++ ys) ≡ true
  unfolding all_valid
  all_valid-append [] ys hx hy = hy
  all_valid-append (x ∷ xs) ys hx hy = ground (arith, hx, hy, all_valid-append xs ys)

  pub all_valid-reverse :
      (xs : List JournalAction) → all_valid checks xs ≡ true → all_valid checks (reverse xs) ≡ true
  unfolding all_valid
  all_valid-reverse [] h = h
  all_valid-reverse (x ∷ xs) h = rw (reverse-cons x xs) (
      all_valid-append (reverse xs) (x ∷ []) (all_valid-reverse xs (ground (arith, h)))
        (ground (arith, h)))

  -- The actions may be replaced by others that are valid.
  pub replaced-valid :
      (j : Journal) (xs : List JournalAction)
      → validate_recovery_journal checks j ≡ true
      → all_valid checks xs ≡ true
      → validate_recovery_journal checks (record j { actions = xs }) ≡ true
  unfolding validate_recovery_journal
  replaced-valid j xs h hx = ground (arith, h, hx)

  pub valid-actions :
      (j : Journal)
      → validate_recovery_journal checks j ≡ true
      → (all_valid checks j.actions ≡ true) × (j.version ≡ 2)
  unfolding validate_recovery_journal
  valid-actions j h = ground (arith, h)

  -- The file is not there, or a recovery will accept it.
  abbrev pub Readable : Disk → Type 0
  Readable absent = Unit
  Readable unreadable = ⊥
  Readable (holds j) = validate_recovery_journal checks j ≡ true

  module _ {E : Type 0} where
    -- Now and at every earlier moment.
    pub record IsReadable (run : Run E) : Type 0 where
      pub now : Readable run.disk
      pub before : All (λ (m : Disk × E). Readable m.0) run.trail

    pub reaches-IsReadable :
        (e : E) (d : Disk) (run : Run E)
        → Readable d
        → IsReadable run
        → IsReadable (reaches e d run)
    reaches-IsReadable e d run c i = record { now = c; before = (c, i.before) }

    pub same-IsReadable :
        (e : E) (run : Run E) → IsReadable run → IsReadable (reaches e run.disk run)
    same-IsReadable e run i = reaches-IsReadable e run.disk run i.now i

    module _ (host : Host E) where
      pub write-IsReadable :
          (path : String) (j : Journal) (run : Run E)
          → validate_recovery_journal checks j ≡ true
          → IsReadable run
          → IsReadable (write_journal host path j run).0
      unfolding write_journal
      write-IsReadable path j run v i = elim (Bool-cases (str_eq path "")) [
        | inl e ↦ rw (write_journal, e) i
        | inr e ↦ elim (Bool-cases (j.version == 2)) [
          | inr w ↦ rw (write_journal, e, w) i
          | inl w ↦ elim (Option-cases (host.write run.env).1) [
            | inl ok ↦
                rw (write_journal, e, w, ok)
                  (reaches-IsReadable (host.write run.env).0 (holds j) run v i)
            | inr (cause, broken) ↦
                rw (write_journal, e, w, broken) (same-IsReadable (host.write run.env).0 run i)
          ]
        ]
      ]

      module _ (cfg : Config) where
        undo_resource-IsReadable :
            (r : Identity) (run : Run E)
            → IsReadable run
            → IsReadable (undo_resource host checks cfg r run).0
        unfolding undo_resource
        undo_resource-IsReadable r run i = elim (Bool-cases (validate_journal_resource checks r)) [
          | inl v ↦ rw (undo_resource, v) (same-IsReadable (host.undo r run.env).0 run i)
          | inr v ↦ rw (undo_resource, v) i
        ]

        pub undo_action-IsReadable :
            (a : JournalAction) (run : Run E)
            → IsReadable run
            → IsReadable (undo_action host checks cfg a run).0
        unfolding undo_action
        undo_action-IsReadable a run i =
            if-either (λ (x : Run E × Option Cause). IsReadable x.0) a.resource.created_by_navo
              (undo_resource-IsReadable a.resource.identity run i) i

        pub undo_all-IsReadable :
            (j : Journal) (left kept : List JournalAction) (failed : Bool) (run : Run E)
            → validate_recovery_journal checks j ≡ true
            → all_valid checks left ≡ true
            → all_valid checks kept ≡ true
            → IsReadable run
            → IsReadable (undo_all host checks cfg j left kept failed run).0
        unfolding undo_all all_valid
        undo_all-IsReadable j [] kept failed run v hl hk i = i
        undo_all-IsReadable j (a ∷ left) kept failed run v hl hk i =
            let path = cfg.journal_path in
            let undone = undo_action host checks cfg a run in
            let i' = undo_action-IsReadable a run i in
            let hl' : all_valid checks left ≡ true = ground (arith, hl) in
            let hk' : all_valid checks (a ∷ kept) ≡ true = ground (arith, hl, hk) in
            let more = record j { actions = reverse left ++ kept } in
            let saved = write_journal host path more undone.0 in
            let i2 =
              write-IsReadable path more undone.0
                (replaced-valid j (reverse left ++ kept) v
                  (all_valid-append (reverse left) kept (all_valid-reverse left hl') hk))
                i' in
            elim (Option-cases undone.1) [
              | inr (cause, e) ↦
                  rw (undo_all, e)
                    (undo_all-IsReadable j left (a ∷ kept) true undone.0 v hl' hk' i')
              | inl ok ↦ elim (List-cases (reverse left ++ kept)) [
                | inl empty ↦
                    rw (undo_all, ok, empty)
                      (undo_all-IsReadable j left kept failed undone.0 v hl' hk i')
                | inr (b, rest, full) ↦ elim (Option-cases saved.1) [
                  | inr (cause, e) ↦ rw (undo_all, ok, full, e) i2
                  | inl fine ↦
                      rw (undo_all, ok, full, fine)
                        (undo_all-IsReadable j left kept failed saved.0 v hl' hk i2)
                ]
              ]
            ]
