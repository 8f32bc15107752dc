-- ===== src/Connection/Safety.antt =====
-- Every critical section of internal/connection/coordinator.go keeps the coordinator safe.
use navo.Base.{
  ℕ, zero, suc, ◌+◌, ◌^◌, ◌≤◌, ◌<◌, String, ◌≡◌, refl, sym, ap, subst, ◌∙◌, inl, inr, Bool, true,
  false, Option, none, some, List, [], ◌∷◌, arith, length, get_elem?, remove_at, Option-cases,
  eq_iff, All-remove_at,
}
use navo.Connection.Policy.{Request, policy_for}
use navo.Connection.Coordinator.{
  Coordinator, Waiter, Transaction, Phase, begin, try_begin, remove_waiter, set_phase, release,
  hand_over, finish, pop_next_locked, validate, position, admit,
}
use navo.Connection.Queue.{
  IsOrdered-remove_at, pop_next_locked-IsLater, pop_next_locked-none, pop_next_locked-All,
}
use navo.Connection.System.{
  System, Step, Reach, here, next, begins, tries, withdraws, sets_phase, finishes, entered,
  finished,
}
use navo.Connection.Invariant.{
  IsQueue, Owns, IsSafe, start-IsSafe, enqueue-IsSafe, start_entry-IsSafe, IsOpen-or_IsTaken,
  IsResolved,
}

admit-IsSafe :
    (now : ℕ) (request : Request) (s : System)
    → s.coordinator.seq + 1 < 2 ^ 64
    → IsSafe s
    → IsSafe (entered s (admit now request (policy_for request) s.coordinator))
unfolding admit
admit-IsSafe now request s h v = elim (IsOpen-or_IsTaken s v) [
  | inl o ↦ rw (admit, o.free) (start_entry-IsSafe now request s h o.quiet v)
  | inr t ↦ rw (admit, t.not_free) (enqueue-IsSafe request s h t.busy v)
]

begin-IsSafe :
    (has_context : Bool) (now : ℕ) (request : Request) (s : System)
    → s.coordinator.seq + 1 < 2 ^ 64
    → IsSafe s
    → IsSafe (entered s (begin has_context now request s.coordinator))
unfolding begin
begin-IsSafe false now request s h v = v
begin-IsSafe true now request s h v = elim (Option-cases (validate request)) [
  | inl e ↦ rw (begin, e) (admit-IsSafe now request s h v)
  | inr (x, e) ↦ rw (begin, e) v
]

try_begin-IsSafe :
    (now : ℕ) (request : Request) (s : System)
    → s.coordinator.seq + 1 < 2 ^ 64
    → IsSafe s
    → IsSafe (entered s (try_begin now request s.coordinator))
unfolding try_begin
try_begin-IsSafe now request s h v = elim (Option-cases (validate request)) [
  | inr (x, e) ↦ rw (try_begin, e) v
  | inl e ↦ elim (IsOpen-or_IsTaken s v) [
    | inl o ↦ rw (try_begin, e, o.unoccupied) (start_entry-IsSafe now request s h o.quiet v)
    | inr t ↦ rw (try_begin, e, t.occupied) v
  ]
]

shrunk : (xs : List Waiter) (i : ℕ) → xs ≡ [] → remove_at i xs ≡ []
unfolding remove_at
shrunk [] i e = refl
shrunk (x ∷ xs) i e = cc

remove_waiter-IsSafe :
    (ticket : ℕ) (s : System)
    → IsSafe s
    → IsSafe (record s { coordinator = (remove_waiter ticket s.coordinator).0 })
unfolding remove_waiter
remove_waiter-IsSafe ticket s v = elim (Option-cases (position ticket s.coordinator.waiters)) [
  | inl e ↦ rw (remove_waiter, e) v
  | inr (i, e) ↦
      let ws = s.coordinator.waiters in
      rw (remove_waiter, e)
        (record {
          queue = record {
            ordered = IsOrdered-remove_at ws i v.queue.ordered;
            numbered = All-remove_at (λ w. w.sequence ≤ s.coordinator.seq) ws i v.queue.numbered;
            resolved = All-remove_at IsResolved ws i v.queue.resolved;
          };
          counted = refl;
          owner = v.owner;
          waited_for = λ q. shrunk ws i (v.waited_for q);
        })
]

-- SetPhase writes nothing but the phase.
pub set_phase_lem :
    (t : Option Transaction) (phase : Phase) (c : Coordinator)
    → (set_phase t phase c).0
      ≡ record c { snapshot = record c.snapshot { phase = (set_phase t phase c).0.snapshot.phase } }
unfolding set_phase
set_phase_lem none phase c = refl
set_phase_lem (some t) phase c = ground arith

set_phase-IsSafe :
    (t : Option Transaction) (phase : Phase) (s : System)
    → IsSafe s
    → IsSafe (record s { coordinator = (set_phase t phase s.coordinator).0 })
set_phase-IsSafe t phase s v =
    subst (λ c. IsSafe (record s { coordinator = c })) (sym (set_phase_lem t phase s.coordinator))
      (record { queue = v.queue; counted = v.counted; owner = v.owner; waited_for = v.waited_for })

-- What the owner's release leaves.
pub record IsReleased (c : Coordinator) (c' : Coordinator) : Type 0 where
  pub quiet : c'.snapshot.busy ≡ false
  pub kept : c'.waiters ≡ c.waiters
  pub same_seq : c'.seq ≡ c.seq
  pub counted : c'.snapshot.queued ≡ length c.waiters

pub release_lem :
    (now : ℕ) (result : Option String) (t : Transaction) (c : Coordinator)
    → c.snapshot.busy ≡ true
    → c.snapshot.id ≡ t.id
    → IsReleased c (release now result t c)
unfolding release
release_lem now result t c b e = ground (arith, (eq_iff c.snapshot.id t.id).1 e)

hand_over-IsSafe :
    (now : ℕ) (c : Coordinator)
    → c.seq + 1 < 2 ^ 64
    → c.snapshot.busy ≡ false
    → c.snapshot.queued ≡ length c.waiters
    → IsQueue c.seq c.waiters
    → IsSafe (finished (record { coordinator = c; live = [] }) 0 (hand_over now c))
unfolding hand_over remove_at
hand_over-IsSafe now c h quiet counted q = elim (Option-cases (pop_next_locked c.waiters)) [
  | inl e ↦
      rw (hand_over, e)
        (record {
          queue = q;
          counted = counted;
          owner = quiet;
          waited_for = λ _. pop_next_locked-none c.waiters e;
        })
  | inr ((w, rest), e) ↦
      rw (hand_over, e)
        (start-IsSafe now w.request w.policy (record c { waiters = rest }) h
          (record {
            ordered = (pop_next_locked-IsLater c.waiters w rest q.ordered e).1;
            numbered =
                (pop_next_locked-All (λ w. w.sequence ≤ c.seq) c.waiters w rest q.numbered e).1;
            resolved = (pop_next_locked-All IsResolved c.waiters w rest q.resolved e).1;
          }))
]

-- The live transaction is alone and owns the coordinator.
pub alone :
    (is_busy : Bool) (id : String) (live : List Transaction) (i : ℕ) (t : Transaction)
    → Owns is_busy id live
    → get_elem? live i ≡ some t
    → (live ≡ t ∷ []) × (i ≡ 0) × (is_busy ≡ true) × (id ≡ t.id)
alone is_busy id [] i t o e = cc
alone is_busy id (u ∷ []) zero t o e = ground arith
alone is_busy id (u ∷ []) (suc i) t o e = cc
alone is_busy id (u ∷ v ∷ ts) i t o e = absurd o

pub finish-IsSafe :
    (now : ℕ) (result : Option String) (i : ℕ) (t : Transaction) (s : System)
    → s.coordinator.seq + 1 < 2 ^ 64
    → get_elem? s.live i ≡ some t
    → IsSafe s
    → IsSafe (finished s i (finish now result (some t) s.coordinator))
unfolding finish
finish-IsSafe now result i t s h e v =
    let c = s.coordinator in
    let (single, first, b, same) = alone c.snapshot.busy c.snapshot.id s.live i t v.owner e in
    let r = release_lem now result t c b same in
    let c' = release now result t c in
    rw (single, first)
      (hand_over-IsSafe now c' (omega (arith, r.same_seq)) r.quiet
        (r.counted ∙ ap length (sym r.kept)) (rw (r.same_seq, r.kept) v.queue))

-- Every critical section keeps the coordinator safe: at most one transaction is live, the snapshot
-- is busy exactly while there is one and carries its id, its count of the queue is right, nobody
-- waits for an idle coordinator, and the queue is in order with the policies of its requests.
pub Step-IsSafe : (s u : System) → s.coordinator.seq + 1 < 2 ^ 64 → Step s u → IsSafe s → IsSafe u
Step-IsSafe s u h (begins has_context now request e) v =
    subst IsSafe (sym e) (begin-IsSafe has_context now request s h v)
Step-IsSafe s u h (tries now request e) v =
    subst IsSafe (sym e) (try_begin-IsSafe now request s h v)
Step-IsSafe s u h (withdraws ticket e) v = subst IsSafe (sym e) (remove_waiter-IsSafe ticket s v)
Step-IsSafe s u h (sets_phase t phase e) v = subst IsSafe (sym e) (set_phase-IsSafe t phase s v)
Step-IsSafe s u h (finishes now result i t held e) v =
    subst IsSafe (sym e) (finish-IsSafe now result i t s h held v)

-- Whatever callers do in any interleaving, as long as the 64-bit ticket counter does not wrap round, a
-- safe state stays safe: at most one transaction is live and the snapshot names it as its owner, it is
-- idle only when there is none and nobody waits, its `queued` is the length of the queue, and the queue is
-- in the order of its tickets, with the policy of its origin for each request and, of two waiters of one
-- domain, no later one with a higher rank.
pub Reach-IsSafe : {s u : System} → IsSafe s → Reach s u → IsSafe u
Reach-IsSafe v here = v
Reach-IsSafe v (next {t = t} {u = u} r h st) = Step-IsSafe t u h st (Reach-IsSafe v r)
