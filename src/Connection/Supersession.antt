-- ===== src/Connection/Supersession.antt =====
-- supersedeLowerPriorityLocked of internal/connection/coordinator.go: who stays in the queue before a new waiter.
use navo.Base.{
  ◌≤◌, ◌<◌, ◌≡◌, refl, Bool, true, false, not, List, [], ◌∷◌, ◌++◌, arith, select, All, All-select,
  if◌then◌else◌,
}
use navo.Connection.Policy.{same_domain_iff}
use navo.Connection.Coordinator.{Waiter, gives_way, supersede_lower_priority_locked}
use navo.Connection.Queue.{IsOrdered, IsOrdered-append, IsOrdered-select}

-- After the supersession nobody of the new waiter's domain has a lower rank than it.
pub gives_way-false :
    (next w : Waiter)
    → not (gives_way next w) ≡ true
    → w.policy.domain ≡ next.policy.domain
    → next.policy.rank ≤ w.policy.rank
unfolding gives_way
gives_way-false next w h e =
    ground (arith, (same_domain_iff w.policy.domain next.policy.domain).1 e)

All-if :
    (P : Waiter → Type 0) (b : Bool) (x : Waiter) (xs : List Waiter)
    → (b ≡ true → P x)
    → All P xs
    → All P (if b then x ∷ xs else xs)
All-if P true x xs h rest = (h refl, rest)
All-if P false x xs h rest = rest

pub select-passes : (p : Waiter → Bool) (xs : List Waiter) → All (λ x. p x ≡ true) (select p xs)
unfolding select
select-passes p [] = tt
select-passes p (x ∷ xs) =
    All-if (λ x. p x ≡ true) (p x) x (select p xs) (λ e. e) (select-passes p xs)

All-both :
    {P Q R : Waiter → Type 0} (f : (x : Waiter) → P x → Q x → R x) (xs : List Waiter)
    → All P xs
    → All Q xs
    → All R xs
All-both f [] h k = tt
All-both f (x ∷ xs) h k = (f x h.0 k.0, All-both f xs h.1 k.1)

-- A new waiter goes behind those that it does not supersede, and the queue stays ordered.
pub supersede-IsOrdered :
    (wait : Waiter) (ws : List Waiter)
    → IsOrdered ws
    → All (λ x. x.sequence < wait.sequence) ws
    → IsOrdered ((supersede_lower_priority_locked wait ws).0 ++ wait ∷ [])
unfolding supersede_lower_priority_locked
supersede-IsOrdered wait ws o h =
    let kept = λ (w : Waiter). not (gives_way wait w) in
    IsOrdered-append (select kept ws) wait (IsOrdered-select kept ws o) (
      All-both (λ x low stays. (low, gives_way-false wait x stays)) (select kept ws)
        (All-select (λ x. x.sequence < wait.sequence) kept ws h) (select-passes kept ws))

pub supersede-All :
    (P : Waiter → Type 0) (wait : Waiter) (ws : List Waiter)
    → All P ws
    → All P (supersede_lower_priority_locked wait ws).0
unfolding supersede_lower_priority_locked
supersede-All P wait ws h = All-select P (λ w. not (gives_way wait w)) ws h
