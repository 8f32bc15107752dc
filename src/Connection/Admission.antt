-- ===== src/Connection/Admission.antt =====
-- Who is admitted, who waits and who gives way in internal/connection/coordinator.go.
use navo.Base.{
  ℕ, zero, suc, ◌≤◌, ◌<◌, ◌≡◌, refl, ◌≢◌, ◌↔◌, ◌⊎◌, inl, inr, true, false, not, none, some, List,
  [], ◌∷◌, ◌++◌, map, arith, select, All, All-map, Option-cases, Bool-cases, remove_at, Bool, ap,
  sym, subst,
}
use navo.Connection.Policy.{Request, Policy, policy_for, same_domain_iff}
use navo.Connection.Coordinator.{
  Coordinator, Waiter, Error, Entry, refused, granted, waiting, superseded, superseded_by,
  gives_way, validate, begin, try_begin, admit, enqueue, supersede_lower_priority_locked,
  remove_waiter, position, next_seq, start_locked,
}
use navo.Connection.Queue.{IsOrdered}
use navo.Connection.Supersession.{gives_way-false, select-passes}
use navo.Connection.System.{System}
use navo.Connection.Invariant.{IsSafe, IsOpen-or_IsTaken}

abbrev pub IsGranted : Entry → Type 0
IsGranted (granted t) = Unit
IsGranted _ = ⊥

-- The request stands last in the queue, with its own policy.
abbrev pub IsQueued : Request → List Waiter → Entry → Type 0
IsQueued request ws (waiting w out) =
    (w.request ≡ request)
    × (w.policy ≡ policy_for request)
    × (kept : List Waiter) × (ws ≡ kept ++ w ∷ [])
IsQueued request ws _ = ⊥

-- In a safe state Begin with a context and a valid request grants a transaction at once if nobody is
-- busy, and otherwise puts the request at the end of the queue with the policy of its origin.
pub begin_cases :
    (now : ℕ) (request : Request) (s : System)
    → IsSafe s
    → validate request ≡ none
    → ((s.coordinator.snapshot.busy ≡ false) × IsGranted (begin true now request s.coordinator).1)
      ⊎ ((s.coordinator.snapshot.busy ≡ true)
          × IsQueued request
              (begin true now request s.coordinator).0.waiters
              (begin true now request s.coordinator).1)
unfolding begin admit enqueue
begin_cases now request s v e = elim (IsOpen-or_IsTaken s v) [
  | inl o ↦ inl (o.quiet, rw (begin, e, admit, o.free) tt)
  | inr t ↦ inr (t.busy, rw (begin, e, admit, t.not_free) (refl, refl, _, refl))
]

-- The transaction stands in the snapshot as the owner's, with what the request and its policy say.
abbrev pub IsOwned : Request → Coordinator → Entry → Type 0
IsOwned request c (granted t) =
    (c.snapshot.busy ≡ true)
    × (c.snapshot.id ≡ t.id)
    × (c.snapshot.operation ≡ request.operation)
    × (c.snapshot.origin ≡ request.origin)
    × (c.snapshot.priority ≡ (policy_for request).rank)
IsOwned request c _ = ⊥

-- In a safe state TryBegin never waits. It refuses a request that is not valid with what is wrong, and a valid
-- one while somebody is busy with the owner's snapshot, and changes nothing then. If nobody is busy it grants a
-- valid request at once: the queue stays, and the snapshot names the transaction as the owner, with the request's
-- operation, origin and rank.
pub try_begin_cases :
    (now : ℕ) (request : Request) (s : System)
    → IsSafe s
    → ((e : Error) × (validate request ≡ some e)
        × (try_begin now request s.coordinator ≡ (s.coordinator, refused e)))
      ⊎ ((validate request ≡ none)
          × (s.coordinator.snapshot.busy ≡ false)
          × ((try_begin now request s.coordinator).0.waiters ≡ s.coordinator.waiters)
          × IsOwned request
              (try_begin now request s.coordinator).0
              (try_begin now request s.coordinator).1)
      ⊎ ((validate request ≡ none)
          × (s.coordinator.snapshot.busy ≡ true)
          × (try_begin now request s.coordinator
              ≡ (s.coordinator, refused (Error.busy s.coordinator.snapshot))))
unfolding try_begin start_locked
try_begin_cases now request s v = elim (Option-cases (validate request)) [
  | inr (e, wrong) ↦ inl (e, wrong, rw (try_begin, wrong) refl)
  | inl e ↦ elim (IsOpen-or_IsTaken s v) [
    | inl o ↦ inr (
        inl (
          e,
          o.quiet,
          rw (try_begin, e, o.unoccupied) refl,
          rw (try_begin, e, o.unoccupied) (refl, refl, refl, refl, refl),
        ))
    | inr t ↦ inr (inr (e, t.busy, rw (try_begin, e, t.occupied) refl))
  ]
]

-- `x` gave way to `w`, and is told so.
abbrev pub IsDisplaced : Waiter → Waiter × Error → Type 0
IsDisplaced w (x, e) =
    (x.policy.domain ≡ w.policy.domain)
    × (x.policy.rank < w.policy.rank)
    × (e ≡ superseded w.policy x.policy)

-- Each entry is in one of the two lists, which keep the order.
pub data Splits : List Waiter → List Waiter → List Waiter → Type 0 where
  nothing_left : Splits [] [] []
  goes :
      {gone kept : List Waiter} (x : Waiter) (xs : List Waiter)
      → Splits xs gone kept
      → Splits (x ∷ xs) (x ∷ gone) kept
  remains :
      {gone kept : List Waiter} (x : Waiter) (xs : List Waiter)
      → Splits xs gone kept
      → Splits (x ∷ xs) gone (x ∷ kept)

abbrev pub Supersedes : Request → Policy → List Waiter → List Waiter → Entry → Type 0
Supersedes request policy before after (waiting w out) =
    (w.request ≡ request)
    × (w.policy ≡ policy)
    × (kept : List Waiter) × (after ≡ kept ++ w ∷ [])
    × Splits before (map (λ (told : Waiter × Error). told.0) out) kept
    × All (IsDisplaced w) out
    × All (λ x. x.policy.domain ≡ w.policy.domain → w.policy.rank ≤ x.policy.rank) kept
Supersedes request policy before after _ = ⊥

select-Splits :
    (p : Waiter → Bool) (xs : List Waiter) → Splits xs (select p xs) (select (λ x. not (p x)) xs)
unfolding select
select-Splits p [] = nothing_left
select-Splits p (x ∷ xs) = elim (Bool-cases (p x)) [
  | inl leaves ↦ rw leaves (goes x xs (select-Splits p xs))
  | inr stays ↦ rw stays (remains x xs (select-Splits p xs))
]

map-superseded_by :
    (w : Waiter) (xs : List Waiter)
    → map (λ (told : Waiter × Error). told.0) (map (superseded_by w) xs) ≡ xs
map-superseded_by w [] = refl
map-superseded_by w (x ∷ xs) = ap (λ rest. x ∷ rest) (map-superseded_by w xs)

gives_way-true : (w x : Waiter) → gives_way w x ≡ true → IsDisplaced w (superseded_by w x)
unfolding gives_way
gives_way-true w x h = ground (arith, same_domain_iff x.policy.domain w.policy.domain)

All-IsDisplaced :
    (w : Waiter) (xs : List Waiter)
    → All (λ x. gives_way w x ≡ true) xs
    → All (IsDisplaced w) (map (superseded_by w) xs)
All-IsDisplaced w [] h = tt
All-IsDisplaced w (x ∷ xs) h = (gives_way-true w x h.0, All-IsDisplaced w xs h.1)

-- A new waiter with the given request and policy goes to the end of the queue. The entries before it are each
-- either told, once, or kept, in their order: those told are of its domain and of a lower rank, and are told with
-- the error that says so, and of those kept none of its domain has a lower rank.
pub enqueue-Supersedes :
    (request : Request) (policy : Policy) (c : Coordinator)
    → let (c', entry) = enqueue request policy c in
      Supersedes request policy c.waiters c'.waiters entry
unfolding enqueue supersede_lower_priority_locked
enqueue-Supersedes request policy c =
    let w : Waiter = record { request = request; policy = policy; sequence = next_seq c.seq } in
    let stays = λ (x : Waiter). not (gives_way w x) in
    let told = select (gives_way w) c.waiters in
    (
      refl,
      refl,
      select stays c.waiters,
      refl,
      subst (λ gone. Splits c.waiters gone (select stays c.waiters))
          (sym (map-superseded_by w told)) (select-Splits (gives_way w) c.waiters),
      All-IsDisplaced w told (select-passes (gives_way w) c.waiters),
      All-map (λ x h. gives_way-false w x h) (select stays c.waiters)
          (select-passes stays c.waiters),
    )

position_above :
    (ticket : ℕ) (ws : List Waiter) → All (λ w. ticket < w.sequence) ws → position ticket ws ≡ none
unfolding position
position_above ticket [] h = refl
position_above ticket (w ∷ ws) h = ground (arith, position_above ticket ws h.1)

position-remove_at :
    (ticket : ℕ) (ws : List Waiter) (i : ℕ)
    → IsOrdered ws
    → position ticket ws ≡ some i
    → position ticket (remove_at i ws) ≡ none
unfolding position remove_at
position-remove_at ticket [] i o h = cc
position-remove_at ticket (w ∷ ws) zero o h = ground (arith, gone)
  where
    gone : w.sequence ≡ ticket → position ticket ws ≡ none
    gone e = position_above ticket ws (All-map (λ x b. omega arith) ws o.0)
position-remove_at ticket (w ∷ ws) (suc i) o h = ground (arith, position-remove_at ticket ws i o.1)

-- A caller whose context ends leaves the queue of a safe coordinator: its ticket is gone afterwards,
-- and removeWaiter says truly whether it was still queued.
pub remove_waiter-position :
    (ticket : ℕ) (s : System)
    → IsSafe s
    → (position ticket (remove_waiter ticket s.coordinator).0.waiters ≡ none)
      × (((remove_waiter ticket s.coordinator).1 ≡ true)
          ↔ (position ticket s.coordinator.waiters ≢ none))
unfolding remove_waiter
remove_waiter-position ticket s v = elim (Option-cases (position ticket s.coordinator.waiters)) [
  | inl e ↦ rw (remove_waiter, e) (e, ((λ h. cc), (λ h. absurd (h refl))))
  | inr (i, e) ↦
      rw (remove_waiter, e)
        (
          position-remove_at ticket s.coordinator.waiters i v.queue.ordered e,
          ((λ h k. cc), (λ h. refl)),
        )
]
