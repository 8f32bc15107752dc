-- ===== src/SelfHeal/Engine.antt =====
-- internal/selfheal/engine.go: the processing of one fault. What a policy and the clock answer is an
-- argument; `Act` lists what the engine did, in its order.
pub mod Repair
use navo.Base.{
  ℕ, ◌+◌, ◌*◌, ◌^◌, ◌/◌, ◌-◌, String, Bool, true, false, not, ◌&&◌, ◌||◌, none, some, List, [], ◌∷◌,
  ◌++◌, ltb, leb, ◌==◌, if◌then◌else◌,
}
use navo.Base.Int.{ℤ, pos, pos_part, neg_part, leb_ℤ, ltb_ℤ}
use navo.Base.Dict.{Dict, lookup}
use navo.SelfHeal.Event.{ErrorEvent, Budget, RepairAction, is_security}
use navo.SelfHeal.Budget.{
  Circuit, opened, half_open, BudgetStore, Grant, begin, cancel_half_open, complete,
}
use navo.SelfHeal.Registry.{Policy}

pub record Config : Type 0 where
  pub enabled : Bool
  pub observe_only : Bool
  pub queue_size : ℤ
  pub verification_timeout : ℤ
  pub default_max_attempts : ℤ
  pub state_file : String
  pub dedupe_window : ℤ

abbrev pub second : ℕ
second = 10 ^ 9

abbrev or_default : ℤ → ℕ → ℤ
or_default n d = if leb_ℤ n (pos 0) then pos d else n

-- MaxRepairRounds
abbrev pub max_repair_rounds : ℕ
max_repair_rounds = 2

abbrev pub at_most_rounds : ℤ → ℤ
at_most_rounds n = if ltb_ℤ (pos max_repair_rounds) n then pos max_repair_rounds else n

-- The defaults that New fills in.
unfoldable pub normalize : Config → Config
normalize cfg = record cfg {
  queue_size = or_default cfg.queue_size 128;
  verification_timeout = or_default cfg.verification_timeout (15 * second);
  default_max_attempts = at_most_rounds (or_default cfg.default_max_attempts max_repair_rounds);
  dedupe_window = or_default cfg.dedupe_window (5 * second);
}

-- The budget that process hands to the store.
unfoldable pub effective_budget : Config → Budget → Budget
effective_budget cfg budget = record {
  max_attempts = at_most_rounds (
      if pos_part budget.max_attempts == 0 && neg_part budget.max_attempts == 0
      then cfg.default_max_attempts
      else budget.max_attempts);
  window = or_default budget.window (300 * second);
  cooldown = or_default budget.cooldown (600 * second);
}

abbrev step_of : ℕ → ℕ
step_of index =
    if index == 0
    then second
    else if index == 1
    then 2 * second
    else if index == 2
    then 5 * second
    else if index == 3
    then 10 * second
    else 30 * second

-- backoff; `random` is what rand.Int64N gives for a bound.
unfoldable pub backoff : (ℕ → ℕ) → ℕ → ℕ
backoff random attempt =
    let index = if leb attempt 1 then 0 else if leb 5 (attempt - 1) then 4 else attempt - 1 in
    let base = step_of index in base + random (base / 5 + 1)

pub data Act : Type 0 where
  emits : String → Act
  checks : Act
  sleeps : ℕ → Act
  repairs : Act
  verifies rolls_back : RepairAction → Act

-- What the world answers while one event is processed.
pub record Answers : Type 0 where
  pub began : ℕ
  pub began_written : Bool
  pub random : ℕ → ℕ
  pub slept : Bool
  pub released_written : Bool
  pub completed : ℕ
  pub completed_written : Bool

-- The repair proper: Repair, Verify and, on an error after a mutation, Rollback. The flag is
-- `repairErr == nil`.
unfoldable pub attempt_repair : Policy → ErrorEvent → Bool × List Act
attempt_repair policy event =
    let (action, failed) = policy.repair event in
    let (result, unverified) = policy.verify event action in
    let success = not failed && not unverified && result.recovered in
    let verified = if failed then [] else verifies action ∷ [] in
    let undone = if not success && action.mutated then rolls_back action ∷ [] else [] in
    (success, repairs ∷ verified ++ undone)

abbrev is_state : Circuit → Circuit → Bool
is_state opened opened = true
is_state half_open half_open = true
is_state _ _ = false

-- The messages after complete. A result that was not persisted counts as a failure.
unfoldable pub report : Bool → Circuit → List Act
report success state =
    emits (if success then "SELFHEAL_REPAIR_SUCCEEDED" else "SELFHEAL_REPAIR_FAILED")
    ∷ (if is_state opened state
        then emits "SELFHEAL_CIRCUIT_OPENED" ∷ []
        else if success
        then emits "SELFHEAL_CIRCUIT_CLOSED" ∷ []
        else [])

module _ (digest : String → String) where
  -- process, once begin has admitted an attempt.
  unfoldable pub run_attempt :
      Policy → ErrorEvent → Budget → Answers → Grant → BudgetStore → BudgetStore × List Act
  unfolding attempt_repair report
  run_attempt policy event budget answers g b =
      let probing = is_state half_open g.state in
      let announced = if probing then emits "SELFHEAL_CIRCUIT_HALF_OPEN" ∷ [] else [] in
      let pause = sleeps (backoff answers.random g.attempt) ∷ [] in
      if not answers.slept
      then (if probing
          then (let (b', error) = cancel_half_open digest event answers.released_written b in
              (
                b',
                announced
                    ++ pause
                    ++ (if error then emits "SELFHEAL_HALF_OPEN_RELEASE_FAILED" ∷ [] else []),
              ))
          else (b, announced ++ pause))
      else (let (success, acts) = attempt_repair policy event in
          let (b', state, error) =
            complete digest event budget answers.completed success answers.completed_written b in
          (
            b',
            announced
                ++ pause
                ++ emits "SELFHEAL_REPAIR_STARTED" ∷ acts
                ++ report (success && not error) state,
          ))

  -- process, once the fault is known to be present.
  unfoldable pub repair_within_budget :
      Config → Policy → ErrorEvent → Answers → BudgetStore → BudgetStore × List Act
  unfolding run_attempt effective_budget
  repair_within_budget cfg policy event answers b =
      let budget = effective_budget cfg policy.definition.budget in
      let (b', g) = begin digest event budget answers.began answers.began_written b in
      if g.error || not g.allowed
      then (b', if is_state opened g.state then emits "SELFHEAL_CIRCUIT_OPENED" ∷ [] else [])
      else run_attempt policy event budget answers g b'

  unfoldable pub process_policy :
      Config → Policy → ErrorEvent → Answers → BudgetStore → BudgetStore × List Act
  unfolding repair_within_budget
  process_policy cfg policy event answers b =
      let def = policy.definition in
      let detected = emits "SELFHEAL_DETECTED" in
      if not def.auto_repair || not def.retryable || is_security def.category
      then (b, detected ∷ [])
      else elim (policy.fault_present event) [
        | none ↦ (b, detected ∷ checks ∷ [])
        | some false ↦ (b, detected ∷ checks ∷ [])
        | some true ↦
            if cfg.observe_only
            then (b, detected ∷ checks ∷ emits "SELFHEAL_REPAIR_OBSERVED" ∷ [])
            else let (b', acts) = repair_within_budget cfg policy event answers b in
              (b', detected ∷ checks ∷ acts)
      ]

  unfoldable pub process :
      Config → Dict Policy → ErrorEvent → Answers → BudgetStore → BudgetStore × List Act
  unfolding process_policy lookup
  process cfg policies event answers b = elim (lookup event.code policies) [
    | none ↦ (b, [])
    | some policy ↦ process_policy cfg policy event answers b
  ]
