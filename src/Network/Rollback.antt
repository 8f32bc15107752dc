-- ===== src/Network/Rollback.antt =====
-- The rollback of internal/network/manager.go keeps the journal's account, and ends where the session began.
use mathlib.Core.List.{reverse, reverse-cons, append_assoc}
use navo.Base.{
  ◌≡◌, ◌⊎◌, inl, inr, refl, subst, ap, ◌∙◌, Bool, true, false, Option, none, some, List, [], ◌∷◌,
  ◌++◌, arith, Bool-cases, Option-cases, List-cases,
}
use navo.Network.Journal.{
  Identity, JournalAction, Journal, Disk, absent, unreadable, holds, Checks,
  validate_journal_resource,
}
use navo.Network.Manager.{Config, Host, Run, Cause, reaches, write_journal}
use navo.Network.Recovery.{undo_resource, undo_action, undo_all}
use navo.Network.Coverage.{
  Owned-middle, middle-Owned, IsHost, Covers, CoversDisk, Holds, reaches-IsCovered, write-Holds,
}

module _ {E : Type 0} (Present : Identity → E → Type 0) (Before : Identity → Type 0) (host : Host E)
    (laws : IsHost Present host) (checks : Checks) (cfg : Config) where
  undo-Covers :
      (actions : List JournalAction) (r : Identity) (e : E)
      → ¬ Before r
      → Covers Present Before actions e
      → Covers Present Before actions (host.undo r e).0
  undo-Covers actions r e new c = record {
    kept = λ s b. laws.undoing_keeps r s e (λ same. new (subst Before same b)) (c.kept s b);
    owned = λ s p. c.owned s (laws.undoing_adds_none r s e p);
    foreign = c.foreign;
  }

  undo-CoversDisk :
      (d : Disk) (r : Identity) (e : E)
      → ¬ Before r
      → CoversDisk Present Before d e
      → CoversDisk Present Before d (host.undo r e).0
  undo-CoversDisk absent r e new c = undo-Covers [] r e new c
  undo-CoversDisk unreadable r e new c = c
  undo-CoversDisk (holds j) r e new (v, c) = (v, undo-Covers j.actions r e new c)

  -- An action that is undone is accounted for no more.
  undone-Covers :
      (xs : List JournalAction) (a : JournalAction) (ys : List JournalAction) (e : E)
      → ¬ Present a.resource.identity e
      → Covers Present Before (xs ++ a ∷ ys) e
      → Covers Present Before (xs ++ ys) e
  undone-Covers xs a ys e gone c = record {
    kept = c.kept;
    owned = λ s p. elim (c.owned s p) [
      | inl b ↦ inl b
      | inr o ↦ elim (Owned-middle xs a ys s o) [
        | inl (made, same) ↦ absurd (gone (subst (λ r. Present r e) same p))
        | inr o' ↦ inr o'
      ]
    ];
    foreign = λ s o. c.foreign s (middle-Owned xs a ys s (inr o));
  }

  -- Nor is one whose resource Navo has not made.
  unowned-Covers :
      (xs : List JournalAction) (a : JournalAction) (ys : List JournalAction) (e : E)
      → a.resource.created_by_navo ≡ false
      → Covers Present Before (xs ++ a ∷ ys) e
      → Covers Present Before (xs ++ ys) e
  unowned-Covers xs a ys e old c = record {
    kept = c.kept;
    owned = λ s p. elim (c.owned s p) [
      | inl b ↦ inl b
      | inr o ↦ elim (Owned-middle xs a ys s o) [
        | inl (made, same) ↦ absurd (ground arith)
        | inr o' ↦ inr o'
      ]
    ];
    foreign = λ s o. c.foreign s (middle-Owned xs a ys s (inr o));
  }

  undo-Holds :
      (actions : List JournalAction) (r : Identity) (run : Run E)
      → ¬ Before r
      → Holds Present Before actions run
      → Holds Present Before actions (reaches (host.undo r run.env).0 run.disk run)
  undo-Holds actions r run new h = record {
    covered =
        reaches-IsCovered Present Before (host.undo r run.env).0 run.disk run
          (undo-CoversDisk run.disk r run.env new h.covered.now) h.covered;
    memory = undo-Covers actions r run.env new h.memory;
  }

  undo_action-made :
      (a : JournalAction) (run : Run E)
      → a.resource.created_by_navo ≡ true
      → undo_action host checks cfg a run ≡ undo_resource host checks cfg a.resource.identity run
  unfolding undo_action
  undo_action-made a run made = rw (undo_action, made) refl

  undo_action-found :
      (a : JournalAction) (run : Run E)
      → a.resource.created_by_navo ≡ false
      → undo_action host checks cfg a run ≡ (run, none)
  unfolding undo_action
  undo_action-found a run old = rw (undo_action, old) refl

  -- What undo_action answers, and what is accounted for then.
  abbrev Undone :
      List JournalAction → JournalAction → List JournalAction → Run E × Option Cause → Type 0
  Undone xs a ys (run, error) =
      ((error ≡ none) × Holds Present Before (xs ++ ys) run)
      ⊎ ((cause : Cause) × (error ≡ some cause) × Holds Present Before (xs ++ a ∷ ys) run)

  undo_action-Undone :
      (xs : List JournalAction) (a : JournalAction) (ys : List JournalAction) (run : Run E)
      → Holds Present Before (xs ++ a ∷ ys) run
      → Undone xs a ys (undo_action host checks cfg a run)
  unfolding undo_resource
  undo_action-Undone xs a ys run h = elim (Bool-cases a.resource.created_by_navo) [
    | inr old ↦ rw (undo_action-found a run old) (
        inl (
          refl,
          record { covered = h.covered; memory = unowned-Covers xs a ys run.env old h.memory },
        ))
    | inl made ↦
        let r = a.resource.identity in
        let new = h.memory.foreign r (middle-Owned xs a ys r (inl (made, refl))) in
        elim (Bool-cases (validate_journal_resource checks r)) [
          | inr invalid ↦
              rw (undo_action-made a run made, undo_resource, invalid) (inr (none, refl, h))
          | inl valid ↦ elim (Option-cases (host.undo r run.env).1) [
            | inr (cause, error) ↦
                rw (undo_action-made a run made, undo_resource, valid, error)
                  (inr (cause, refl, undo-Holds (xs ++ a ∷ ys) r run new h))
            | inl ok ↦
                rw (undo_action-made a run made, undo_resource, valid, ok)
                  (inl (
                    refl,
                    let h' = undo-Holds (xs ++ a ∷ ys) r run new h in
                        record {
                          covered = h'.covered;
                          memory =
                              undone-Covers xs a ys (host.undo r run.env).0
                                (laws.undoing_removes r run.env ok) h'.memory;
                        },
                  ))
          ]
        ]
  ]

  -- What undo_all answers when it has begun with these actions kept, and whether it had failed before.
  abbrev pub Ended : List JournalAction → Bool → Run E × List JournalAction × Bool → Type 0
  Ended kept failed (run, actions, failed') =
      Holds Present Before actions run × (failed' ≡ false → (failed ≡ false) × (actions ≡ kept))

  shift :
      (a : JournalAction) (left kept : List JournalAction)
      → reverse (a ∷ left) ++ kept ≡ reverse left ++ a ∷ kept
  shift a left kept =
      ap (λ xs. xs ++ kept) (reverse-cons a left) ∙ append_assoc (reverse left) (a ∷ []) kept

  pub undo_all-Ended :
      (j : Journal) (left kept : List JournalAction) (failed : Bool) (run : Run E)
      → Holds Present Before (reverse left ++ kept) run
      → Ended kept failed (undo_all host checks cfg j left kept failed run)
  unfolding undo_all
  undo_all-Ended j [] kept failed run h = (h, λ ok. (ok, refl))
  undo_all-Ended j (a ∷ left) kept failed run h =
      let h' = subst (λ xs. Holds Present Before xs run) (shift a left kept) h in
      let undone = undo_action host checks cfg a run in
      elim (undo_action-Undone (reverse left) a kept run h') [
        | inr (cause, error, still) ↦
            let rest = undo_all-Ended j left (a ∷ kept) true undone.0 still in
            rw (undo_all, error)
              (rest.0, λ ok. (let (bad, same) = rest.1 ok in absurd (ground arith)))
        | inl (ok, gone) ↦ elim (List-cases (reverse left ++ kept)) [
          | inl empty ↦ rw (undo_all, ok, empty) (undo_all-Ended j left kept failed undone.0 gone)
          | inr (b, rest, some_left) ↦
              let more = record j { actions = reverse left ++ kept } in
              let path = cfg.journal_path in
              let saved = write-Holds Present Before host laws path more undone.0 gone in
              elim (Option-cases (write_journal host path more undone.0).1) [
                | inr (cause, error) ↦
                    rw (undo_all, ok, some_left, error)
                      (
                        subst
                            (λ xs.
                              Holds Present Before xs (write_journal host path more undone.0).0)
                            some_left saved,
                        λ fine. absurd (ground arith),
                      )
                | inl written ↦
                    rw (undo_all, ok, some_left, written)
                      (undo_all-Ended j left kept failed (write_journal host path more undone.0).0
                        saved)
              ]
        ]
      ]
