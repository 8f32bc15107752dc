-- ===== src/Connection/Coordinator.antt =====
-- internal/connection/coordinator.go: the one transaction that may change the connection, and the
-- queue of those who wait for it. Every function is one critical section under `c.mu`; `now` is
-- time.Now() in nanoseconds. A waiter is a pointer in Go; its ticket number stands for the pointer.

use navo.Base.{
  ℕ, suc, ◌+◌, ◌%◌, ◌^◌, String, Bool, true, false, ◌&&◌, ◌||◌, not, Option, none, some, List, [],
  ◌∷◌, ◌++◌, map, ltb, ◌==◌, str_eq, if◌then◌else◌, length, select, remove_at,
}
use navo.Base.Text.{trim_space, concat, decimal}
use navo.Connection.Policy.{
  Operation, Origin, Intent, Domain, same_domain, Policy, Request, policy_for,
}

pub data Phase : Type 0 where
  queued preparing applying verifying committing rolling_back completed failed : Phase
  unknown : String → Phase

unfoldable pub is_valid_operation : Operation → Bool
is_valid_operation (Operation.unknown name) = false
is_valid_operation _ = true

unfoldable pub is_valid_origin : Origin → Bool
is_valid_origin (Origin.unknown name) = false
is_valid_origin _ = true

unfoldable pub is_valid_phase : Phase → Bool
is_valid_phase (Phase.unknown name) = false
is_valid_phase _ = true

pub record Snapshot : Type 0 where
  pub busy : Bool
  pub id : String
  pub operation : Operation
  pub origin : Origin
  pub intent : Intent
  pub domain : Domain
  pub priority : ℕ
  pub phase : Phase
  pub fault_domain : String
  pub started_at : ℕ
  pub queued : ℕ
  pub last_id : String
  pub last_operation : Operation
  pub last_phase : Phase
  pub last_error : String
  pub completed_at : ℕ

-- The zero value of Snapshot.
abbrev pub idle : Snapshot
idle = record {
  busy = false;
  id = "";
  operation = Operation.unknown "";
  origin = Origin.unknown "";
  intent = Intent.unset;
  domain = Domain.unset;
  priority = 0;
  phase = Phase.unknown "";
  fault_domain = "";
  started_at = 0;
  queued = 0;
  last_id = "";
  last_operation = Operation.unknown "";
  last_phase = Phase.unknown "";
  last_error = "";
  completed_at = 0;
}

pub record Waiter : Type 0 where
  pub request : Request
  pub policy : Policy
  pub sequence : ℕ

pub record Coordinator : Type 0 where
  pub seq : ℕ  -- uint64
  pub snapshot : Snapshot
  pub waiters : List Waiter

pub record Transaction : Type 0 where
  pub id : String

pub data Error : Type 0 where
  context_required not_active : Error
  invalid_operation : Operation → Error
  invalid_origin : Origin → Error
  invalid_phase : Phase → Error
  not_owner : String → Error
  busy : Snapshot → Error
  superseded : Policy → Policy → Error
  wait_canceled : Error

unfoldable pub new_coordinator : Coordinator
new_coordinator = record { seq = 0; snapshot = idle; waiters = [] }

unfoldable pub validate : Request → Option Error
unfolding is_valid_operation is_valid_origin
validate request =
    if not (is_valid_operation request.operation)
    then some (invalid_operation request.operation)
    else if not (is_valid_origin request.origin)
    then some (invalid_origin request.origin)
    else none

-- atomic.Uint64.Add(1)
abbrev pub next_seq : ℕ → ℕ
next_seq n = (n + 1) % 2 ^ 64

unfoldable pub generated_id : ℕ → ℕ → String
unfolding concat decimal
generated_id now ticket = concat ("connection-" ∷ decimal now ∷ "-" ∷ decimal ticket ∷ [])

-- Makes the transaction the owner; the `Last…` fields are kept. The second result is its handle.
unfoldable pub start_locked : ℕ → Request → Policy → Coordinator → Coordinator × Transaction
unfolding generated_id
start_locked now request policy c =
    let given = trim_space request.id in
    let blank = str_eq given "" in
    let ticket = next_seq c.seq in
    let id = if blank then generated_id now ticket else given in
    (
      record {
        seq = if blank then ticket else c.seq;
        snapshot = record c.snapshot {
          busy = true;
          id = id;
          operation = request.operation;
          origin = request.origin;
          intent = policy.intent;
          domain = policy.domain;
          priority = policy.rank;
          phase = Phase.preparing;
          fault_domain = trim_space request.fault_domain;
          started_at = now;
          queued = length c.waiters;
        };
        waiters = c.waiters;
      },
      record { id = id },
    )

-- `current` gives way to `next`: the same domain, and a lower rank.
unfoldable pub gives_way : Waiter → Waiter → Bool
gives_way next current =
    same_domain current.policy.domain next.policy.domain && ltb current.policy.rank next.policy.rank

-- Those who stay, and those who are superseded.
unfoldable pub supersede_lower_priority_locked : Waiter → List Waiter → List Waiter × List Waiter
unfolding gives_way select
supersede_lower_priority_locked next waiters =
    (select (λ w. not (gives_way next w)) waiters, select (gives_way next) waiters)

pub data Entry : Type 0 where
  refused : Error → Entry
  granted : Transaction → Entry
  -- The caller waits; each of the others is sent its error.
  waiting : Waiter → List (Waiter × Error) → Entry

abbrev pub superseded_by : Waiter → Waiter → Waiter × Error
superseded_by next previous = (previous, superseded next.policy previous.policy)

-- The rest of Begin's first critical section, when it cannot start at once.
unfoldable pub enqueue : Request → Policy → Coordinator → Coordinator × Entry
unfolding supersede_lower_priority_locked
enqueue request policy c =
    let ticket = next_seq c.seq in
    let wait : Waiter = record { request = request; policy = policy; sequence = ticket } in
    let (kept, out) = supersede_lower_priority_locked wait c.waiters in
    let waiters = kept ++ wait ∷ [] in
    (
      record {
        seq = ticket;
        snapshot = record c.snapshot { queued = length waiters };
        waiters = waiters;
      },
      waiting wait (map (superseded_by wait) out),
    )

-- Begin's test for an immediate start, and TryBegin's for a refusal.
unfoldable pub is_free : Coordinator → Bool
is_free c = not c.snapshot.busy && length c.waiters == 0

unfoldable pub is_occupied : Coordinator → Bool
is_occupied c = c.snapshot.busy || ltb 0 (length c.waiters)

unfoldable pub admit : ℕ → Request → Policy → Coordinator → Coordinator × Entry
unfolding start_locked enqueue is_free
admit now request policy c =
    if is_free c
    then (let (c', t) = start_locked now request policy c in (c', granted t))
    else enqueue request policy c

-- Begin, up to its `select`. `has_context` is `ctx != nil`.
unfoldable pub begin : Bool → ℕ → Request → Coordinator → Coordinator × Entry
unfolding admit validate
begin has_context now request c =
    if not has_context then (c, refused context_required) else elim (validate request) [
      | some e ↦ (c, refused e)
      | none ↦ admit now request (policy_for request) c
    ]

unfoldable pub try_begin : ℕ → Request → Coordinator → Coordinator × Entry
unfolding start_locked validate is_occupied
try_begin now request c = elim (validate request) [
  | some e ↦ (c, refused e)
  | none ↦
      if is_occupied c
      then (c, refused (busy c.snapshot))
      else let (c', t) = start_locked now request (policy_for request) c in (c', granted t)
]

-- Where the ticket stands in the queue.
unfoldable pub position : ℕ → List Waiter → Option ℕ
position ticket [] = none
position ticket (w ∷ ws) =
    let rest = position ticket ws in
    if w.sequence == ticket then some 0 else elim rest [ none ↦ none | some i ↦ some (suc i) ]

-- The `ctx.Done()` branch of Begin: true if the waiter was still queued and has left. If it is false
-- then the transaction was already granted, and Begin finishes it at once.
unfoldable pub remove_waiter : ℕ → Coordinator → Coordinator × Bool
unfolding position remove_at
remove_waiter ticket c = elim (position ticket c.waiters) [
  | none ↦ (c, false)
  | some i ↦
      let waiters = remove_at i c.waiters in
      (
        record c { waiters = waiters; snapshot = record c.snapshot { queued = length waiters } },
        true,
      )
]

-- The test of the loop in popNextLocked.
unfoldable pub is_better : Waiter → Waiter → Bool
is_better candidate current =
    ltb current.policy.rank candidate.policy.rank
    || (candidate.policy.rank == current.policy.rank && ltb candidate.sequence current.sequence)

-- The loop: `index` is the head's place in the queue, `best` the place of `current`.
unfoldable pub scan : ℕ → List Waiter → ℕ × Waiter → ℕ × Waiter
unfolding is_better
scan index [] best = best
scan index (candidate ∷ rest) (best, current) =
    scan (suc index) rest
      (if is_better candidate current then (index, candidate) else (best, current))

unfoldable pub pop_next_locked : List Waiter → Option (Waiter × List Waiter)
unfolding scan remove_at
pop_next_locked [] = none
pop_next_locked (w ∷ ws) =
    let (best, next) = scan 1 ws (0, w) in some (next, remove_at best (w ∷ ws))

unfoldable pub set_phase : Option Transaction → Phase → Coordinator → Coordinator × Option Error
unfolding is_valid_phase
set_phase none phase c = (c, some not_active)
set_phase (some t) phase c =
    if not (is_valid_phase phase)
    then (c, some (invalid_phase phase))
    else if not c.snapshot.busy || not (str_eq c.snapshot.id t.id)
    then (c, some (not_owner t.id))
    else (record c { snapshot = record c.snapshot { phase = phase } }, none)

-- The owner's snapshot makes place for the `Last…` fields. `result` is the error's text, if any.
unfoldable pub release : ℕ → Option String → Transaction → Coordinator → Coordinator
release now result t c =
    if c.snapshot.busy && str_eq c.snapshot.id t.id
    then record c {
      snapshot = record idle {
        queued = length c.waiters;
        last_id = t.id;
        last_operation = c.snapshot.operation;
        last_phase = elim result [ none ↦ Phase.completed | some e ↦ Phase.failed ];
        last_error = elim result [ none ↦ "" | some e ↦ e ];
        completed_at = now;
      };
    }
    else c

unfoldable pub hand_over : ℕ → Coordinator → Coordinator × Option (Waiter × Transaction)
unfolding pop_next_locked start_locked
hand_over now c = elim (pop_next_locked c.waiters) [
  | none ↦ (c, none)
  | some (next, rest) ↦
      let (c', t) = start_locked now next.request next.policy (record c { waiters = rest }) in
      (c', some (next, t))
]

-- The body that `t.once` runs at most once; a nil transaction does nothing. The second result is what
-- is sent to a waiter.
unfoldable pub finish :
    ℕ
    → Option String
    → Option Transaction
    → Coordinator
    → Coordinator × Option (Waiter × Transaction)
unfolding release hand_over
finish now result none c = (c, none)
finish now result (some t) c = hand_over now (release now result t c)
