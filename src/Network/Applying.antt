-- ===== src/Network/Applying.antt =====
-- activateLocked of internal/network/manager.go keeps the journal's account, on every branch.
use navo.Base.{
  ◌≡◌, ◌⊎◌, inl, inr, refl, sym, subst, Bool, true, Option, none, some, some-injective, List, [],
  ◌∷◌, ◌++◌, String, str_eq, eq_iff, arith, Bool-cases,
}
use navo.Base.Text.{trim_space}
use navo.Network.Journal.{
  Identity, JournalAction, Journal, ActionStatus, pending, applied, holds, Checks,
}
use navo.Network.Manager.{
  Config, Host, Run, Cause, Output, prints, fails, reaches, write_journal, NetworkOperation,
  missing, inspect_operation,
}
use navo.Network.Activation.{
  network_applied, Stage, TunError, activation_failure, broken_off, status_of,
}
use navo.Network.Recovery.{rollback_after_failure}
use navo.Network.Coverage.{
  Owns, Owned, IsHost, Same, Covers, CoversDisk, IsCovered, Holds, reaches-IsCovered,
}
use navo.Network.Restore.{IsRestored, rollback_after_failure-IsSettled}

-- The action that apply_operation appends.
abbrev pub entry : NetworkOperation → ActionStatus → Bool → JournalAction
entry op status made = record {
  name = op.name;
  status = status;
  resource = record { identity = op.identity; created_by_navo = made };
}

status_of_complete : (error : Option Cause) → status_of error ≡ "complete" → error ≡ none
status_of_complete none e = refl
status_of_complete (some cause) e = absurd (ground (arith, (eq_iff "dirty" "complete").1 e))

pub Output-cases :
    (o : Output) → ((text : String) × (o ≡ prints text)) ⊎ ((cause : Cause) × (o ≡ fails cause))
Output-cases (prints text) = inl (text, refl)
Output-cases (fails cause) = inr (cause, refl)

append-Owned :
    (xs : List JournalAction) (a : JournalAction) (r : Identity)
    → Owned (xs ++ a ∷ []) r
    → Owns a r ⊎ Owned xs r
append-Owned [] a r h = elim h [ inl o ↦ inl o | inr o ↦ inr o ]
append-Owned (x ∷ xs) a r (inl o) = inr (inl o)
append-Owned (x ∷ xs) a r (inr h) = elim (append-Owned xs a r h) [
  | inl o ↦ inl o
  | inr o ↦ inr (inr o)
]

pub Owned-append :
    (xs : List JournalAction) (a : JournalAction) (r : Identity)
    → Owned xs r
    → Owned (xs ++ a ∷ []) r
Owned-append [] a r h = elim h [ ]
Owned-append (x ∷ xs) a r (inl o) = inl o
Owned-append (x ∷ xs) a r (inr o) = inr (Owned-append xs a r o)

pub Owns-append :
    (xs : List JournalAction) (a : JournalAction) (r : Identity) → Owns a r → Owned (xs ++ a ∷ []) r
Owns-append [] a r o = inl o
Owns-append (x ∷ xs) a r o = inr (Owns-append xs a r o)

module _ {E : Type 0} (Present : Identity → E → Type 0) (Before : Identity → Type 0) (host : Host E)
    (laws : IsHost Present host) (checks : Checks) (cfg : Config) where
  -- An action may be added for a resource that was not there in the beginning, or that Navo has not made.
  add_action-Covers :
      (xs : List JournalAction) (a : JournalAction) (e : E)
      → ((r : Identity) → Owns a r → ¬ Before r)
      → Covers Present Before xs e
      → Covers Present Before (xs ++ a ∷ []) e
  add_action-Covers xs a e new c = record {
    kept = c.kept;
    owned = λ r p. elim (c.owned r p) [ inl b ↦ inl b | inr o ↦ inr (Owned-append xs a r o) ];
    foreign = λ r o. elim (append-Owned xs a r o) [ inl h ↦ new r h | inr h ↦ c.foreign r h ];
  }

  pub add_action-Holds :
      (j : Journal) (a : JournalAction) (run : Run E)
      → ((r : Identity) → Owns a r → ¬ Before r)
      → Holds Present Before j.actions run
      → Holds Present Before (j.actions ++ a ∷ []) run
  add_action-Holds j a run new h = record {
    covered = h.covered;
    memory = add_action-Covers j.actions a run.env new h.memory;
  }

  -- A resource that the actions own may be made.
  apply-Covers :
      (xs : List JournalAction) (r : Identity) (e : E)
      → Owned xs r
      → Covers Present Before xs e
      → Covers Present Before xs (host.apply r e).0
  apply-Covers xs r e o c = record {
    kept = λ s b. laws.applying_keeps r s e (c.kept s b);
    owned = λ s p. elim (laws.applying_adds r s e p) [
      | inl p' ↦ c.owned s p'
      | inr same ↦ inr (subst (Owned xs) (sym same) o)
    ];
    foreign = c.foreign;
  }

  pub apply-Holds :
      (j : Journal) (r : Identity) (run : Run E)
      → j.version ≡ 2
      → run.disk ≡ holds j
      → Owned j.actions r
      → Holds Present Before j.actions run
      → Holds Present Before j.actions (reaches (host.apply r run.env).0 run.disk run)
  apply-Holds j r run v e o h =
      let memory = apply-Covers j.actions r run.env o h.memory in
      record {
        covered =
            reaches-IsCovered Present Before (host.apply r run.env).0 run.disk run
              (subst (λ d. CoversDisk Present Before d (host.apply r run.env).0) (sym e)
                (v, memory))
              h.covered;
        memory = memory;
      }

  -- A journal that was written is what the disk holds.
  pub write_journal-holds :
      (path : String) (j : Journal) (run : Run E)
      → (write_journal host path j run).1 ≡ none
      → (write_journal host path j run).0.disk ≡ holds j
  unfolding write_journal
  write_journal-holds path j run ok = ground arith

  pub inspect_operation-Same :
      (r : Identity) (e : E) → Same Present e (inspect_operation host r e).0
  unfolding inspect_operation
  inspect_operation-Same r e = laws.inspects r e

  pub inspect_operation-missing :
      (r : Identity) (e : E)
      → (inspect_operation host r e).1 ≡ missing
      → ¬ Present r (inspect_operation host r e).0
  unfolding inspect_operation
  inspect_operation-missing r e is_missing present = elim (Output-cases (host.inspect r e).1) [
    | inr (cause, failed) ↦ absurd (ground (arith, failed))
    | inl (text, printed) ↦ elim (Bool-cases (str_eq (trim_space text) "MISSING")) [
      | inl told ↦ laws.tells_missing r e text printed told present
      | inr other ↦ absurd (ground (arith, printed, other, is_missing))
    ]
  ]

  -- The account is kept throughout; with no error it goes on, and a rollback that is complete restores.
  pub record IsApplied (result : Run E × Journal × Option TunError) : Type 0 where
    pub covered : IsCovered Present Before result.0
    pub goes_on :
        result.2 ≡ none → (result.1.version ≡ 2) × Holds Present Before result.1.actions result.0
    pub restored :
        (error : TunError)
        → result.2 ≡ some error
        → error.rollback_status ≡ "complete"
        → IsRestored Present Before result.0

  pub going-IsApplied :
      (j : Journal) (run : Run E)
      → j.version ≡ 2
      → Holds Present Before j.actions run
      → IsApplied (run, j, none)
  going-IsApplied j run v h = record {
    covered = h.covered;
    goes_on = λ e. (v, h);
    restored = λ error e. absurd (ground arith);
  }

  pub activation_failure-IsCovered :
      (name code : String) (stage : Stage) (cause : Cause) (j : Journal) (run : Run E)
      → Holds Present Before j.actions run
      → IsCovered Present Before (activation_failure host checks cfg name code stage cause j run).0
  unfolding activation_failure
  activation_failure-IsCovered name code stage cause j run h =
      (rollback_after_failure-IsSettled Present Before host laws checks cfg j run h).covered

  pub activation_failure-IsRestored :
      (name code : String) (stage : Stage) (cause : Cause) (j : Journal) (run : Run E)
      → Holds Present Before j.actions run
      → (activation_failure host checks cfg name code stage cause j run).1.rollback_status
        ≡ "complete"
      → IsRestored Present Before (activation_failure host checks cfg name code stage cause j run).0
  unfolding activation_failure
  activation_failure-IsRestored name code stage cause j run h complete =
      let settled = rollback_after_failure-IsSettled Present Before host laws checks cfg j run h in
      settled.restored
        (status_of_complete (rollback_after_failure host checks cfg j run).1 complete)

  pub broken_off-IsApplied :
      (op : NetworkOperation) (cause : Cause) (j : Journal) (run : Run E)
      → Holds Present Before j.actions run
      → IsApplied (broken_off host checks cfg op cause j run)
  broken_off-IsApplied op cause j run h =
      let result = activation_failure host checks cfg op.name op.code network_applied cause j run in
      record {
        covered = activation_failure-IsCovered op.name op.code network_applied cause j run h;
        goes_on = λ e. absurd (ground arith);
        restored = λ error e complete.
            activation_failure-IsRestored op.name op.code network_applied cause j run h (
              subst (λ (x : TunError). x.rollback_status ≡ "complete")
                (sym (some-injective result.1 error e)) complete);
      }

  -- What is accounted for does not depend on an action's status.
  pub remade-Holds :
      (xs : List JournalAction) (op : NetworkOperation) (run : Run E)
      → Holds Present Before (xs ++ entry op pending true ∷ []) run
      → Holds Present Before (xs ++ entry op applied true ∷ []) run
  remade-Holds xs op run h = record {
    covered = h.covered;
    memory = record {
      kept = h.memory.kept;
      owned = λ r p. elim (h.memory.owned r p) [
        | inl b ↦ inl b
        | inr o ↦ inr (relabel pending applied r o)
      ];
      foreign = λ r o. h.memory.foreign r (relabel applied pending r o);
    };
  }
    where
      relabel :
          (s t : ActionStatus) (r : Identity)
          → Owned (xs ++ entry op s true ∷ []) r
          → Owned (xs ++ entry op t true ∷ []) r
      relabel s t r h = elim (append-Owned xs (entry op s true) r h) [
        | inl o ↦ Owns-append xs (entry op t true) r o
        | inr o ↦ Owned-append xs (entry op t true) r o
      ]
