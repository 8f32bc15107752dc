-- ===== src/Network/Coverage.antt =====
-- When a journal of internal/network/journal.go accounts for every resource that was made since it was begun.
use navo.Base.{
  ◌≡◌, ◌≢◌, ◌⊎◌, ◌↔◌, inl, inr, true, none, List, [], ◌∷◌, ◌++◌, String, str_eq, All, Bool-cases,
  Option-cases, ◌==◌, ==_iff,
}
use navo.Base.Text.{trim_space}
use navo.Network.Journal.{
  Identity, JournalAction, Journal, Disk, absent, unreadable, holds, firewall_rule,
}
use navo.Network.Manager.{
  Host, Run, ActivationPlan, AdapterSnapshot, prints, reaches, write_journal,
}

-- Navo has made the resource, as the action says.
abbrev pub Owns : JournalAction → Identity → Type 0
Owns a r = (a.resource.created_by_navo ≡ true) × (r ≡ a.resource.identity)

abbrev pub Owned : List JournalAction → Identity → Type 0
Owned [] r = ⊥
Owned (a ∷ actions) r = Owns a r ⊎ Owned actions r

pub Owned-middle :
    (xs : List JournalAction) (a : JournalAction) (ys : List JournalAction) (r : Identity)
    → Owned (xs ++ a ∷ ys) r
    → Owns a r ⊎ Owned (xs ++ ys) r
Owned-middle [] a ys r h = h
Owned-middle (x ∷ xs) a ys r (inl h) = inr (inl h)
Owned-middle (x ∷ xs) a ys r (inr h) = elim (Owned-middle xs a ys r h) [
  | inl o ↦ inl o
  | inr o ↦ inr (inr o)
]

pub middle-Owned :
    (xs : List JournalAction) (a : JournalAction) (ys : List JournalAction) (r : Identity)
    → Owns a r ⊎ Owned (xs ++ ys) r
    → Owned (xs ++ a ∷ ys) r
middle-Owned [] a ys r h = h
middle-Owned (x ∷ xs) a ys r (inl o) = inr (middle-Owned xs a ys r (inl o))
middle-Owned (x ∷ xs) a ys r (inr (inl h)) = inl h
middle-Owned (x ∷ xs) a ys r (inr (inr h)) = inr (middle-Owned xs a ys r (inr h))

module _ {E : Type 0} where
  abbrev pub Same : (Identity → E → Type 0) → E → E → Type 0
  Same Present e e' = (r : Identity) → Present r e ↔ Present r e'

  -- What the code relies on: a command changes no other resource than its own (the comment and the display name
  -- of a rule carry the session's id, so nobody else's rule has them), undoing without an error leaves none, MISSING
  -- is the answer for one that is not there, sweeping removes firewall rules only, and nothing else changes a
  -- resource: no other program does while a session is made or taken back.
  pub record IsHost (Present : Identity → E → Type 0) (host : Host E) : Type 0 where
    pub inspects : (r : Identity) (e : E) → Same Present e (host.inspect r e).0
    pub tells_missing :
        (r : Identity) (e : E) (text : String)
        → (host.inspect r e).1 ≡ prints text
        → str_eq (trim_space text) "MISSING" ≡ true
        → ¬ Present r (host.inspect r e).0
    pub applying_keeps : (r s : Identity) (e : E) → Present s e → Present s (host.apply r e).0
    pub applying_adds :
        (r s : Identity) (e : E) → Present s (host.apply r e).0 → Present s e ⊎ (s ≡ r)
    pub undoing_adds_none : (r s : Identity) (e : E) → Present s (host.undo r e).0 → Present s e
    pub undoing_keeps : (r s : Identity) (e : E) → s ≢ r → Present s e → Present s (host.undo r e).0
    pub undoing_removes :
        (r : Identity) (e : E) → (host.undo r e).1 ≡ none → ¬ Present r (host.undo r e).0
    pub writes : (e : E) → Same Present e (host.write e).0
    pub removes : (e : E) → Same Present e (host.remove e).0
    pub scans : (e : E) → Same Present e (host.scan_orphans e).0
    pub sweeping_adds_none :
        (r : Identity) (e : E) → Present r (host.remove_orphans e).0 → Present r e
    pub sweeping_keeps :
        (r : Identity) (e : E)
        → r.kind ≢ firewall_rule
        → Present r e
        → Present r (host.remove_orphans e).0
    pub waits : (plan : ActivationPlan) (e : E) → Same Present e (host.wait_for_adapter plan e).0
    pub verifies :
        (plan : ActivationPlan) (adapter : AdapterSnapshot) (e : E)
        → Same Present e (host.verify_control_plane plan adapter e).0

  -- Of the resources that are there, the actions account for those that were not there in the beginning.
  pub record Covers (Present : Identity → E → Type 0) (Before : Identity → Type 0)
      (actions : List JournalAction) (e : E) : Type 0 where
    pub kept : (r : Identity) → Before r → Present r e
    pub owned : (r : Identity) → Present r e → Before r ⊎ Owned actions r
    pub foreign : (r : Identity) → Owned actions r → ¬ Before r

  module _ (Present : Identity → E → Type 0) (Before : Identity → Type 0) where
    abbrev pub CoversDisk : Disk → E → Type 0
    CoversDisk absent e = Covers Present Before [] e
    CoversDisk unreadable e = ⊥
    CoversDisk (holds j) e = (j.version ≡ 2) × Covers Present Before j.actions e

    -- Now and at every earlier moment.
    pub record IsCovered (run : Run E) : Type 0 where
      pub now : CoversDisk run.disk run.env
      pub before : All (λ (m : Disk × E). CoversDisk m.0 m.1) run.trail

    pub Covers-Same :
        (actions : List JournalAction) (e e' : E)
        → Same Present e e'
        → Covers Present Before actions e
        → Covers Present Before actions e'
    Covers-Same actions e e' same c = record {
      kept = λ r b. (same r).0 (c.kept r b);
      owned = λ r p. c.owned r ((same r).1 p);
      foreign = c.foreign;
    }

    pub CoversDisk-Same :
        (d : Disk) (e e' : E) → Same Present e e' → CoversDisk d e → CoversDisk d e'
    CoversDisk-Same absent e e' same c = Covers-Same [] e e' same c
    CoversDisk-Same unreadable e e' same c = c
    CoversDisk-Same (holds j) e e' same (v, c) = (v, Covers-Same j.actions e e' same c)

    pub reaches-IsCovered :
        (e : E) (d : Disk) (run : Run E)
        → CoversDisk d e
        → IsCovered run
        → IsCovered (reaches e d run)
    reaches-IsCovered e d run c i = record { now = c; before = (c, i.before) }

    -- The state of the code: a run, and the actions that it holds in memory.
    pub record Holds (actions : List JournalAction) (run : Run E) : Type 0 where
      pub covered : IsCovered run
      pub memory : Covers Present Before actions run.env

    pub Same-Holds :
        (actions : List JournalAction) (e : E) (run : Run E)
        → Same Present run.env e
        → Holds actions run
        → Holds actions (reaches e run.disk run)
    Same-Holds actions e run same h = record {
      covered =
          reaches-IsCovered e run.disk run (CoversDisk-Same run.disk run.env e same h.covered.now)
            h.covered;
      memory = Covers-Same actions run.env e same h.memory;
    }

    module _ (host : Host E) (laws : IsHost Present host) where
      pub write-Holds :
          (path : String) (j : Journal) (run : Run E)
          → Holds j.actions run
          → Holds j.actions (write_journal host path j run).0
      unfolding write_journal
      write-Holds path j run h = elim (Bool-cases (str_eq path "")) [
        | inl e ↦ rw (write_journal, e) h
        | inr e ↦ elim (Bool-cases (j.version == 2)) [
          | inr v ↦ rw (write_journal, e, v) h
          | inl v ↦ elim (Option-cases (host.write run.env).1) [
            | inl ok ↦
                rw (write_journal, e, v, ok)
                  (let memory =
                      Covers-Same j.actions run.env (host.write run.env).0 (laws.writes run.env)
                        h.memory in
                    record {
                      covered =
                          reaches-IsCovered (host.write run.env).0 (holds j) run
                            ((==_iff j.version 2).0 v, memory) h.covered;
                      memory = memory;
                    })
            | inr (cause, broken) ↦
                rw (write_journal, e, v, broken)
                  (Same-Holds j.actions (host.write run.env).0 run (laws.writes run.env) h)
          ]
        ]
      ]
