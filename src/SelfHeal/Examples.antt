-- ===== src/SelfHeal/Examples.antt =====
-- The theorems about internal/selfheal at concrete values.
use navo.Base.{
  ◌≤◌, ◌≡◌, ◌≢◌, ◌⊎◌, inl, refl, String, true, false, none, some, List, [], ◌∷◌, arith, eq_iff,
}
use navo.Base.Int.{pos}
use navo.Base.Dict.{Dict, lookup}
use navo.SelfHeal.Event.{ErrorEvent, Budget, Category, event_key}
use navo.SelfHeal.Budget.{
  CircuitRecord, Circuit, BudgetStore, Grant, half_open, half_open_busy, blank, refresh, decide,
  begin, complete, cancel_half_open,
}
use navo.SelfHeal.Budget.Window.{Span, attempts_over, attempts_over-le-max_attempts}
use navo.SelfHeal.Budget.HalfOpen.{unknown, half_open_unreachable}
use navo.SelfHeal.Budget.Store.{other_circuits}
use navo.SelfHeal.Registry.{Policy}
use navo.SelfHeal.Engine.{Config, Answers, process}
use navo.SelfHeal.Engine.Repair.{IsWarranted, repairs_in, rollbacks_in, to_undo, process-repairs}
use navo.SelfHeal.Intake.{Engine, start, stop, send, take}
use navo.SelfHeal.Intake.Accepted.{take-send_after_stop}

-- The two attempts in 5 minutes of the defaults, and 10 minutes of cool-down.
abbrev default_budget : Budget
default_budget = record { max_attempts = pos 2; window = pos 300; cooldown = pos 600 }

abbrev default_IsBudget : navo.SelfHeal.Budget.Window.IsBudget default_budget
default_IsBudget = record {
  some_attempts = omega arith;
  some_window = omega arith;
  some_cooldown = omega arith;
}

-- The second repair ends after the window, and the last fault finds the circuit open.
abbrev later_spans : List Span
later_spans = record { begun = 1298; over = 1304 } ∷ record { begun = 1299; over = 1299 } ∷ []

attempts_over-le-max_attempts_example :
    attempts_over "NAVO_CORE_CRASH" "ab" default_budget
      (record { begun = 1000; over = 1007 } ∷ later_spans)
      blank
    ≤ 2
attempts_over-le-max_attempts_example =
    attempts_over-le-max_attempts "NAVO_CORE_CRASH" "ab" default_budget 1000 1007 later_spans blank
      default_IsBudget (omega arith) (omega arith) (omega arith) (inl refl)
      ((omega arith, omega arith, omega arith), ((omega arith, omega arith, omega arith), tt))

half_open_unreachable_example :
    let g = (decide default_budget 1700 (refresh "NAVO_CORE_CRASH" "ab" (pos 300) 1700 blank)).0 in
    (g.state ≢ half_open) × (g.state ≢ half_open_busy)
half_open_unreachable_example =
    half_open_unreachable "NAVO_CORE_CRASH" "ab" default_budget 0 1700 blank default_IsBudget
      (omega arith) unknown (omega arith)

abbrev plain : String → String
plain text = text

abbrev crash : ErrorEvent
crash = record {
  code = "NAVO_CORE_CRASH";
  occurred_at = 1000;
  source_service = "core";
  resource_id = "";
  core_id = "sing-box";
  outbound_id = "";
  correlation_id = "";
  transition_id = "";
  count = 1;
}

abbrev empty_store : BudgetStore
empty_store = record { path = ""; records = []; disk = none }

crash_key-ne : (event_key plain crash).0 ≢ "x"
unfolding event_key
crash_key-ne e = ground (arith, eq_iff (event_key plain crash).0 "x")

other_circuits_example :
    (lookup "x" (begin plain crash default_budget 1000 true empty_store).0.records ≡ lookup "x" [])
    × (lookup "x" (complete plain crash default_budget 1000 true true empty_store).0.records
        ≡ lookup "x" [])
    × (lookup "x" (cancel_half_open plain crash true empty_store).0.records ≡ lookup "x" [])
other_circuits_example =
    other_circuits plain crash default_budget 1000 true true empty_store "x" crash_key-ne

abbrev restart : Policy
restart = record {
  name = "restart";
  definition = record {
    code = "NAVO_CORE_CRASH";
    category = Category.core;
    fault_domain = "core";
    severity = "error";
    retryable = true;
    auto_repair = true;
    requires_admin = false;
    transition_owned = false;
    budget = default_budget;
  };
  fault_present = λ event. some true;
  repair = λ event. (record { name = "restart"; mutated = true; rollback_ref = "" }, false);
  verify = λ event action. (record { recovered = false; evidence = "" }, false);
  rollback = λ event action. false;
}

abbrev config : Config
config = record {
  enabled = true;
  observe_only = false;
  queue_size = pos 1;
  verification_timeout = pos 15;
  default_max_attempts = pos 2;
  state_file = "";
  dedupe_window = pos 5;
}

abbrev answers : Answers
answers = record {
  began = 1000;
  began_written = true;
  random = λ bound. 0;
  slept = true;
  released_written = true;
  completed = 1002;
  completed_written = true;
}

abbrev policies : Dict Policy
policies = ("NAVO_CORE_CRASH", restart) ∷ []

process-repairs_example :
    let acts = (process plain config policies crash answers empty_store).1 in
    ((repairs_in acts ≡ 0) × (rollbacks_in acts ≡ 0))
    ⊎ ((policy : Policy) × (lookup "NAVO_CORE_CRASH" policies ≡ some policy)
        × (repairs_in acts ≡ 1)
        × (rollbacks_in acts ≡ to_undo policy crash)
        × IsWarranted plain policy crash config answers empty_store)
process-repairs_example = process-repairs plain config policies crash answers empty_store

abbrev engine : Engine
engine = record {
  cfg = config;
  policies = policies;
  started = true;
  stopping = false;
  pending = [];
  queue = [];
}

take-send_after_stop_example :
    let restarted = (start (send plain crash (stop engine)).0).0 in
    take plain restarted ≡ some (crash, record restarted { queue = [] })
take-send_after_stop_example = take-send_after_stop plain crash engine refl refl refl (omega arith)
