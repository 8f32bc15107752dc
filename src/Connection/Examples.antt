-- ===== src/Connection/Examples.antt =====
-- The theorems about internal/connection at concrete states, and tests of its policies.
use navo.Base.{◌≡◌, refl, ◌⊎◌, map, true, false, none, some, List, [], ◌∷◌, arith, length, All}
use navo.Connection.Policy.{Operation, Origin, Intent, Domain, Request, policy_for, same_domain}
use navo.Connection.Coordinator.{
  Waiter, idle, begin, try_begin, enqueue, pop_next_locked, finish, validate, refused, Error,
}
use navo.Connection.Queue.{IsLater, IsOrdered, Picks, pop_next_locked-IsLater}
use navo.Connection.System.{System, here, next, finishes, finished}
use navo.Connection.Invariant.{IsSafe}
use navo.Connection.Safety.{Reach-IsSafe}
use navo.Connection.Admission.{IsOwned, Supersedes, try_begin_cases, enqueue-Supersedes}
use navo.Connection.Drain.{IsIdle, drain, drain_lem}

abbrev click : Request
click = record {
  id = "click";
  operation = Operation.node_switch;
  origin = Origin.user;
  fault_domain = "";
}

abbrev repair : Request
repair = record {
  id = "repair";
  operation = Operation.self_heal;
  origin = Origin.self_heal;
  fault_domain = " Node_Probe ";
}

abbrev update : Request
update = record {
  id = "update";
  operation = Operation.core_update;
  origin = Origin.scheduler;
  fault_domain = "";
}

-- A repair of the node domain is routing work, below a click and above the scheduler.
repair_policy :
    policy_for repair ≡ record { intent = Intent.recovery; domain = Domain.routing; rank = 300 }
unfolding policy_for
repair_policy = refl

abbrev waiting_repair : Waiter
waiting_repair = record { request = repair; policy = policy_for repair; sequence = 1 }

abbrev waiting_update : Waiter
waiting_update = record { request = update; policy = policy_for update; sequence = 2 }

abbrev queue : List Waiter
queue = waiting_repair ∷ waiting_update ∷ []

-- One owner; a repair and an update wait.
abbrev contended : System
contended = record {
  coordinator = record {
    seq = 2;
    snapshot = record idle { busy = true; id = "owner"; queued = 2 };
    waiters = queue;
  };
  live = record { id = "owner" } ∷ [];
}

queue-IsOrdered : IsOrdered queue
unfolding policy_for
queue-IsOrdered = (((omega arith, (λ e. omega arith)), tt), (tt, tt))

contended-IsSafe : IsSafe contended
contended-IsSafe = record {
  queue = record {
    ordered = queue-IsOrdered;
    numbered = omega arith;
    resolved = (refl, (refl, tt));
  };
  counted = refl;
  owner = (refl, refl);
  waited_for = λ e. cc;
}

pop_next_locked-IsLater_example :
    All (IsLater waiting_repair) (waiting_update ∷ [])
    × IsOrdered (waiting_update ∷ [])
    × (length queue ≡ 2)
    × Picks queue waiting_repair (waiting_update ∷ [])
pop_next_locked-IsLater_example =
    pop_next_locked-IsLater queue waiting_repair (waiting_update ∷ []) queue-IsOrdered
      (unfold pop_next_locked policy_for in refl)

Reach-IsSafe_example : IsSafe (
    finished contended 0
      (finish 7 (some "broken") (some (record { id = "owner" })) contended.coordinator))
Reach-IsSafe_example =
    Reach-IsSafe contended-IsSafe
      (next here (omega arith) (finishes 7 (some "broken") 0 (record { id = "owner" }) refl refl))

try_begin_cases_example :
    ((e : Error) × (validate click ≡ some e)
      × (try_begin 5 click contended.coordinator ≡ (contended.coordinator, refused e)))
    ⊎ ((validate click ≡ none)
        × (contended.coordinator.snapshot.busy ≡ false)
        × ((try_begin 5 click contended.coordinator).0.waiters ≡ contended.coordinator.waiters)
        × IsOwned click
            (try_begin 5 click contended.coordinator).0
            (try_begin 5 click contended.coordinator).1)
    ⊎ ((validate click ≡ none)
        × (contended.coordinator.snapshot.busy ≡ true)
        × (try_begin 5 click contended.coordinator
            ≡ (contended.coordinator, refused (Error.busy contended.coordinator.snapshot))))
try_begin_cases_example = try_begin_cases 5 click contended contended-IsSafe

-- The click supersedes the repair, and the update stays.
enqueue-Supersedes_example :
    Supersedes click
      (policy_for click)
      queue
      (enqueue click (policy_for click) contended.coordinator).0.waiters
      (enqueue click (policy_for click) contended.coordinator).1
enqueue-Supersedes_example = enqueue-Supersedes click (policy_for click) contended.coordinator

click_supersedes_repair :
    map
      (λ (w : Waiter). w.sequence)
      (enqueue click (policy_for click) contended.coordinator).0.waiters
    ≡ 2 ∷ 3 ∷ []
unfolding enqueue policy_for same_domain
click_supersedes_repair = refl

drain_lem_example : IsIdle (drain 3 9 contended)
drain_lem_example = drain_lem 3 9 contended (omega arith) (omega arith) contended-IsSafe

-- A context that is missing, and a request of an unknown kind, change nothing.
begin_refusals :
    (begin false 5 click contended.coordinator
      ≡ (contended.coordinator, refused Error.context_required))
    × ((begin true 5 (record click { origin = Origin.unknown "cli" }) contended.coordinator).1
        ≡ refused (Error.invalid_origin (Origin.unknown "cli")))
unfolding begin
begin_refusals = (refl, refl)
