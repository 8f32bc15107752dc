-- ===== src/SelfHeal/Engine/Repair.antt =====
-- When process of internal/selfheal/engine.go repairs, and what it undoes.
use navo.Base.{
  ℕ, suc, ◌+◌, ◌*◌, ◌/◌, ◌≤◌, ◌<◌, ◌≡◌, ◌⊎◌, inl, inr, refl, String, Bool, true, false, not, ◌&&◌,
  ◌||◌, Option, none, some, List, [], ◌∷◌, ◌++◌, arith, if◌then◌else◌, Bool-cases, Option-cases,
}
use navo.Base.Int.{pos_part}
use navo.Base.Dict.{Dict, lookup}
use navo.SelfHeal.Event.{ErrorEvent, Budget, is_security}
use navo.SelfHeal.Budget.{Circuit, BudgetStore, Grant, begin}
use navo.SelfHeal.Registry.{Policy}
use navo.SelfHeal.Engine.{
  Config, Answers, Act, emits, checks, sleeps, repairs, verifies, rolls_back, attempt_repair,
  report, run_attempt, repair_within_budget, process_policy, process, effective_budget, normalize,
  backoff, second,
}

answer-cases : (o : Option Bool) → ((o ≡ none) ⊎ (o ≡ some false)) ⊎ (o ≡ some true)
answer-cases none = inl (inl refl)
answer-cases (some false) = inl (inr refl)
answer-cases (some true) = inr refl

-- How often the engine called Repair, and Rollback.
unfoldable pub repairs_in : List Act → ℕ
repairs_in [] = 0
repairs_in (repairs ∷ acts) = suc (repairs_in acts)
repairs_in (emits m ∷ acts) = repairs_in acts
repairs_in (checks ∷ acts) = repairs_in acts
repairs_in (sleeps n ∷ acts) = repairs_in acts
repairs_in (verifies a ∷ acts) = repairs_in acts
repairs_in (rolls_back a ∷ acts) = repairs_in acts

unfoldable pub rollbacks_in : List Act → ℕ
rollbacks_in [] = 0
rollbacks_in (rolls_back a ∷ acts) = suc (rollbacks_in acts)
rollbacks_in (repairs ∷ acts) = rollbacks_in acts
rollbacks_in (emits m ∷ acts) = rollbacks_in acts
rollbacks_in (checks ∷ acts) = rollbacks_in acts
rollbacks_in (sleeps n ∷ acts) = rollbacks_in acts
rollbacks_in (verifies a ∷ acts) = rollbacks_in acts

repairs_in-append : (a b : List Act) → repairs_in (a ++ b) ≡ repairs_in a + repairs_in b
unfolding repairs_in
repairs_in-append [] b = omega arith
repairs_in-append (repairs ∷ a) b = omega (arith, repairs_in-append a b)
repairs_in-append (emits m ∷ a) b = repairs_in-append a b
repairs_in-append (checks ∷ a) b = repairs_in-append a b
repairs_in-append (sleeps n ∷ a) b = repairs_in-append a b
repairs_in-append (verifies x ∷ a) b = repairs_in-append a b
repairs_in-append (rolls_back x ∷ a) b = repairs_in-append a b

rollbacks_in-append : (a b : List Act) → rollbacks_in (a ++ b) ≡ rollbacks_in a + rollbacks_in b
unfolding rollbacks_in
rollbacks_in-append [] b = omega arith
rollbacks_in-append (rolls_back x ∷ a) b = omega (arith, rollbacks_in-append a b)
rollbacks_in-append (repairs ∷ a) b = rollbacks_in-append a b
rollbacks_in-append (emits m ∷ a) b = rollbacks_in-append a b
rollbacks_in-append (checks ∷ a) b = rollbacks_in-append a b
rollbacks_in-append (sleeps n ∷ a) b = rollbacks_in-append a b
rollbacks_in-append (verifies x ∷ a) b = rollbacks_in-append a b

-- Whether the repair of a policy worked, and was seen to work.
unfoldable pub has_recovered : Policy → ErrorEvent → Bool
has_recovered policy event =
    let (action, failed) = policy.repair event in
    let (result, unverified) = policy.verify event action in
    not failed && not unverified && result.recovered

-- What a repair that did not work leaves to be undone.
unfoldable pub to_undo : Policy → ErrorEvent → ℕ
to_undo policy event =
    if not (has_recovered policy event) && (policy.repair event).0.mutated then 1 else 0

-- The counts of a list of acts: `n` repairs, with as many rollbacks as they leave to do.
abbrev Counts : Policy → ErrorEvent → ℕ → List Act → Type 0
Counts policy event n acts = (repairs_in acts ≡ n) × (rollbacks_in acts ≡ n * to_undo policy event)

abbrev IsQuiet : List Act → Type 0
IsQuiet acts = (repairs_in acts ≡ 0) × (rollbacks_in acts ≡ 0)

module _ (policy : Policy) (event : ErrorEvent) where
  attempt_repair-Counts : Counts policy event 1 (attempt_repair policy event).1
  unfolding attempt_repair repairs_in rollbacks_in to_undo has_recovered
  attempt_repair-Counts = ground arith

  report-Counts : (success : Bool) (state : Circuit) → Counts policy event 0 (report success state)
  unfolding report repairs_in rollbacks_in
  report-Counts success state = ground arith

  append-Counts :
      (n m : ℕ) (a b : List Act)
      → Counts policy event n a
      → Counts policy event m b
      → Counts policy event (n + m) (a ++ b)
  append-Counts n m a b (p, q) (p', q') =
      (omega (arith, repairs_in-append a b), grind (arith, rollbacks_in-append a b))

-- The attempt and its messages, as run_attempt composes them.
acts-Counts :
    (policy : Policy) (event : ErrorEvent) (probing worked : Bool) (state : Circuit) (pause : ℕ)
    → Counts policy event 1 (
        (if probing then emits "SELFHEAL_CIRCUIT_HALF_OPEN" ∷ [] else [])
        ++ sleeps pause ∷ []
        ++ emits "SELFHEAL_REPAIR_STARTED" ∷ (attempt_repair policy event).1
        ++ report worked state)
unfolding repairs_in rollbacks_in
acts-Counts policy event probing worked state pause =
    let acts = (attempt_repair policy event).1 in
    let done = report worked state in
    let sum =
      append-Counts policy event 1 0 acts done (attempt_repair-Counts policy event)
        (report-Counts policy event worked state) in
    ground (arith, sum)

module _ (digest : String → String) (policy : Policy) (event : ErrorEvent) where
  -- An admitted attempt repairs exactly once, unless its pause is cut short.
  run_attempt-Counts :
      (budget : Budget) (answers : Answers) (g : Grant) (b : BudgetStore)
      → Counts policy event
          (if answers.slept then 1 else 0)
          (run_attempt digest policy event budget answers g b).1
  unfolding run_attempt repairs_in rollbacks_in
  run_attempt-Counts budget answers g b = elim (Bool-cases answers.slept) [
    | inl e ↦ rw e (acts-Counts policy event _ _ _ _)
    | inr e ↦ rw e (ground arith)
  ]

  -- What must hold for a repair, of the configuration, the policy, the fault and the budget.
  pub record IsWarranted (cfg : Config) (answers : Answers) (b : BudgetStore) : Type 0 where
    pub repairable : policy.definition.auto_repair ≡ true
    pub retryable : policy.definition.retryable ≡ true
    pub not_security : is_security policy.definition.category ≡ false
    pub present : policy.fault_present event ≡ some true
    pub not_observing : cfg.observe_only ≡ false
    pub allowed :
        (begin digest event
          (effective_budget cfg policy.definition.budget)
          answers.began
          answers.began_written
          b).1.allowed
        ≡ true
    pub awake : answers.slept ≡ true

  -- The two ways an event can go.
  abbrev Outcome : Config → Answers → BudgetStore → List Act → Type 0
  Outcome cfg answers b acts =
      IsQuiet acts ⊎ (Counts policy event 1 acts × IsWarranted cfg answers b)

  abbrev grant_of : Config → Answers → BudgetStore → Grant
  grant_of cfg answers b =
      (begin digest event (effective_budget cfg policy.definition.budget) answers.began
        answers.began_written b).1

  within_budget :
      (cfg : Config) (answers : Answers) (b : BudgetStore)
      → let acts = (repair_within_budget digest cfg policy event answers b).1 in
        IsQuiet acts
        ⊎ (Counts policy event 1 acts
            × ((grant_of cfg answers b).allowed ≡ true)
            × (answers.slept ≡ true))
  unfolding repair_within_budget repairs_in rollbacks_in
  within_budget cfg answers b =
      let budget = effective_budget cfg policy.definition.budget in
      let (b', g) = begin digest event budget answers.began answers.began_written b in
      let counts = run_attempt-Counts budget answers g b' in
      elim (Bool-cases (g.error || not g.allowed)) [
        | inl e ↦ inl (rw e (ground arith))
        | inr e ↦ elim (Bool-cases answers.slept) [
          | inl awake ↦ inr (rw e (ground (arith, counts)), ground arith, awake)
          | inr asleep ↦ inl (rw e (ground (arith, counts)))
        ]
      ]

  process_policy-Outcome :
      (cfg : Config) (answers : Answers) (b : BudgetStore)
      → Outcome cfg answers b (process_policy digest cfg policy event answers b).1
  unfolding process_policy repairs_in rollbacks_in
  process_policy-Outcome cfg answers b =
      let inner = within_budget cfg answers b in
      let def = policy.definition in
      elim (Bool-cases (not def.auto_repair || not def.retryable || is_security def.category)) [
        | inl e ↦ inl (rw e (ground arith))
        | inr e ↦ elim (answer-cases (policy.fault_present event)) [
          | inl none_or_not ↦ inl (ground arith)
          | inr present ↦ elim (Bool-cases cfg.observe_only) [
            | inl observing ↦ inl (rw (e, present, observing) (ground arith))
            | inr acting ↦ elim inner [
              | inl quiet ↦ inl (rw (e, present, acting) quiet)
              | inr (counts, allowed, awake) ↦ inr (
                rw (e, present, acting) counts,
                record {
                  repairable = ground arith;
                  retryable = ground arith;
                  not_security = ground arith;
                  present = present;
                  not_observing = acting;
                  allowed = allowed;
                  awake = awake;
                },
              )
            ]
          ]
        ]
      ]

module _ (digest : String → String) where
  -- Processing an event either repairs nothing, or calls Repair exactly once: then the event's code has
  -- a policy that is repairable, retryable and no security matter, the fault was found to be present, the
  -- engine does not only observe, the budget admitted the attempt and the pause before it was not cut
  -- short; and what was changed is rolled back once if the repair was not seen to work, and otherwise never.
  pub process-repairs :
      (cfg : Config) (policies : Dict Policy) (event : ErrorEvent) (answers : Answers)
      (b : BudgetStore)
      → let acts = (process digest cfg policies event answers b).1 in
        ((repairs_in acts ≡ 0) × (rollbacks_in acts ≡ 0))
        ⊎ ((policy : Policy) × (lookup event.code policies ≡ some policy)
            × (repairs_in acts ≡ 1)
            × (rollbacks_in acts ≡ to_undo policy event)
            × IsWarranted digest policy event cfg answers b)
  unfolding process repairs_in rollbacks_in
  process-repairs cfg policies event answers b = elim (Option-cases (lookup event.code policies)) [
    | inl e ↦ inl (rw (process, e) (refl, refl))
    | inr (policy, e) ↦ elim (process_policy-Outcome digest policy event cfg answers b) [
      | inl quiet ↦ inl (rw (process, e) quiet)
      | inr ((once, undone), w) ↦
          inr (policy, e, rw (process, e) once, rw (process, e) (omega (arith, undone)), w)
    ]
  ]

-- The budget of every attempt, under a normalized configuration: never more than two repairs, and a
-- window and a cool-down that are not empty.
pub effective_budget-bounds :
    (cfg : Config) (budget : Budget)
    → let effective = effective_budget (normalize cfg) budget in
      (pos_part effective.max_attempts ≤ 2)
      × (0 < pos_part effective.window)
      × (0 < pos_part effective.cooldown)
unfolding effective_budget normalize
effective_budget-bounds cfg budget = ground arith

-- The pause before an attempt lasts at least a second and at most 36, if the random part is below
-- its bound.
pub backoff-bounds :
    (random : ℕ → ℕ) (attempt : ℕ)
    → ((bound : ℕ) → 0 < bound → random bound < bound)
    → (second ≤ backoff random attempt) × (backoff random attempt ≤ 36 * second)
unfolding backoff
backoff-bounds random attempt below = ground (
  arith,
  below (second / 5 + 1) (omega arith),
  below (2 * second / 5 + 1) (omega arith),
  below (5 * second / 5 + 1) (omega arith),
  below (10 * second / 5 + 1) (omega arith),
  below (30 * second / 5 + 1) (omega arith),
)
