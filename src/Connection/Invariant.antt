-- ===== src/Connection/Invariant.antt =====
-- When the coordinator of internal/connection/coordinator.go is safe between two critical sections, and what a
-- start and a wait leave.
use navo.Base.{
  ℕ, ◌+◌, ◌^◌, ◌≤◌, ◌<◌, String, ◌≡◌, refl, ◌⊎◌, inl, inr, Bool, true, false, List, [], ◌∷◌, arith,
  length, All, All-map, All-append, Bool-cases,
}
use navo.Connection.Policy.{Request, Policy, policy_for}
use navo.Connection.Coordinator.{
  Coordinator, Waiter, Transaction, granted, next_seq, start_locked, enqueue, is_free, is_occupied,
  supersede_lower_priority_locked,
}
use navo.Connection.Queue.{IsOrdered}
use navo.Connection.Supersession.{supersede-IsOrdered, supersede-All}
use navo.Connection.System.{System, initial, entered}

abbrev pub IsResolved : Waiter → Type 0
IsResolved w = w.policy ≡ policy_for w.request

-- The queue is in order, its tickets were drawn, and its policies are those of its requests.
pub record IsQueue (seq : ℕ) (ws : List Waiter) : Type 0 where
  pub ordered : IsOrdered ws
  pub numbered : All (λ w. w.sequence ≤ seq) ws
  pub resolved : All IsResolved ws

-- The snapshot (its `busy` and `id`) names the one live transaction, or is idle when there is none.
abbrev pub Owns : Bool → String → List Transaction → Type 0
Owns is_busy id [] = is_busy ≡ false
Owns is_busy id (t ∷ []) = (is_busy ≡ true) × (id ≡ t.id)
Owns is_busy id (t ∷ u ∷ ts) = ⊥

pub record IsSafe (s : System) : Type 0 where
  pub queue : IsQueue s.coordinator.seq s.coordinator.waiters
  pub counted : s.coordinator.snapshot.queued ≡ length s.coordinator.waiters
  pub owner : Owns s.coordinator.snapshot.busy s.coordinator.snapshot.id s.live
  pub waited_for : s.coordinator.snapshot.busy ≡ false → s.coordinator.waiters ≡ []

pub IsSafe-initial : IsSafe initial
unfolding initial
IsSafe-initial = record {
  queue = record { ordered = tt; numbered = tt; resolved = tt };
  counted = refl;
  owner = refl;
  waited_for = λ e. refl;
}

IsQueue-raise : (n m : ℕ) (ws : List Waiter) → n ≤ m → IsQueue n ws → IsQueue m ws
IsQueue-raise n m ws h q = record {
  ordered = q.ordered;
  numbered = All-map (λ w k. omega arith) ws q.numbered;
  resolved = q.resolved;
}

-- What a start leaves, whoever it is for.
pub record IsStarted (c : Coordinator) (c' : Coordinator) (t : Transaction) : Type 0 where
  pub busy : c'.snapshot.busy ≡ true
  pub named : c'.snapshot.id ≡ t.id
  pub kept : c'.waiters ≡ c.waiters
  pub counted : c'.snapshot.queued ≡ length c.waiters
  pub raised : c.seq ≤ c'.seq

pub start_locked_lem :
    (now : ℕ) (request : Request) (policy : Policy) (c : Coordinator)
    → c.seq + 1 < 2 ^ 64
    → IsStarted c (start_locked now request policy c).0 (start_locked now request policy c).1
unfolding start_locked
start_locked_lem now request policy c h = ground arith

-- A coordinator with no live transaction, before a start.
pub start-IsSafe :
    (now : ℕ) (request : Request) (policy : Policy) (c : Coordinator)
    → c.seq + 1 < 2 ^ 64
    → IsQueue c.seq c.waiters
    → IsSafe (record {
      coordinator = (start_locked now request policy c).0;
      live = (start_locked now request policy c).1 ∷ [];
    })
start-IsSafe now request policy c h q =
    let started = start_locked_lem now request policy c h in
    let c' = (start_locked now request policy c).0 in
    record {
      queue = rw (started.kept) (IsQueue-raise c.seq c'.seq c.waiters started.raised q);
      counted = rw (started.kept) started.counted;
      owner = (started.busy, started.named);
      waited_for = λ e. cc (started.busy);
    }

pub enqueue-IsSafe :
    (request : Request) (s : System)
    → s.coordinator.seq + 1 < 2 ^ 64
    → s.coordinator.snapshot.busy ≡ true
    → IsSafe s
    → IsSafe (entered s (enqueue request (policy_for request) s.coordinator))
unfolding enqueue
enqueue-IsSafe request s h b v =
    let c = s.coordinator in
    let wait : Waiter = record {
      request = request;
      policy = policy_for request;
      sequence = next_seq c.seq;
    } in
    let kept = (supersede_lower_priority_locked wait c.waiters).0 in
    let low = All-map (λ w k. omega arith) c.waiters v.queue.numbered in
    record {
      queue = record {
        ordered = supersede-IsOrdered wait c.waiters v.queue.ordered low;
        numbered =
            All-append (λ w. w.sequence ≤ next_seq c.seq) kept (wait ∷ [])
              (supersede-All (λ w. w.sequence ≤ next_seq c.seq) wait c.waiters
                (All-map (λ w k. omega arith) c.waiters v.queue.numbered))
              (omega arith);
        resolved =
            All-append IsResolved kept (wait ∷ [])
              (supersede-All IsResolved wait c.waiters v.queue.resolved) (refl, tt);
      };
      counted = refl;
      owner = v.owner;
      waited_for = λ e. cc;
    }

-- With a free coordinator nothing is live.
free-live : (s : System) → IsSafe s → s.coordinator.snapshot.busy ≡ false → s.live ≡ []
free-live s v e = go s.live v.owner
  where
    go :
        (live : List Transaction)
        → Owns s.coordinator.snapshot.busy s.coordinator.snapshot.id live
        → live ≡ []
    go [] o = refl
    go (t ∷ []) o = cc
    go (t ∷ u ∷ ts) o = absurd o

pub start_entry-IsSafe :
    (now : ℕ) (request : Request) (s : System)
    → s.coordinator.seq + 1 < 2 ^ 64
    → s.coordinator.snapshot.busy ≡ false
    → IsSafe s
    → let (c', t) = start_locked now request (policy_for request) s.coordinator in
      IsSafe (entered s (c', granted t))
start_entry-IsSafe now request s h e v =
    rw (free-live s v e) (start-IsSafe now request (policy_for request) s.coordinator h v.queue)

-- A safe coordinator is free for Begin exactly when it is not occupied for TryBegin.
pub record IsOpen (c : Coordinator) : Type 0 where
  pub quiet : c.snapshot.busy ≡ false
  pub free : is_free c ≡ true
  pub unoccupied : is_occupied c ≡ false

pub record IsTaken (c : Coordinator) : Type 0 where
  pub busy : c.snapshot.busy ≡ true
  pub not_free : is_free c ≡ false
  pub occupied : is_occupied c ≡ true

pub IsOpen-or_IsTaken : (s : System) → IsSafe s → IsOpen s.coordinator ⊎ IsTaken s.coordinator
unfolding is_free is_occupied
IsOpen-or_IsTaken s v = elim (Bool-cases s.coordinator.snapshot.busy) [
  | inl e ↦ inr (ground arith)
  | inr e ↦ inl (ground (arith, v.waited_for e))
]
