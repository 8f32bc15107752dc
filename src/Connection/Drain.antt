-- ===== src/Connection/Drain.antt =====
-- Progress of internal/connection/coordinator.go: when every owner finishes, the queue runs empty.
use navo.Base.{
  ℕ, zero, suc, ◌+◌, ◌^◌, ◌≤◌, ◌<◌, ◌≡◌, refl, sym, ap, subst, ◌∙◌, ◌⊎◌, inl, inr, false, none,
  some, List, [], ◌∷◌, arith, length, get_elem?, Option-cases, remove_at,
}
use navo.Connection.Policy.{Request, Policy}
use navo.Connection.Coordinator.{
  Coordinator, Transaction, start_locked, finish, release, hand_over, pop_next_locked,
}
use navo.Connection.Queue.{pop_next_locked-IsLater, pop_next_locked-none}
use navo.Connection.System.{System, finished}
use navo.Connection.Invariant.{IsSafe, IsQueue, Owns, start_locked_lem}
use navo.Connection.Safety.{alone, release_lem, finish-IsSafe}

-- The owner, if there is one, finishes without an error.
finish_owner : ℕ → List Transaction → System → System
finish_owner now [] s = s
finish_owner now (t ∷ rest) s = finished s 0 (finish now none (some t) s.coordinator)

abbrev finish_next : ℕ → System → System
finish_next now s = finish_owner now s.live s

-- So many owners finish, one after another.
pub drain : ℕ → ℕ → System → System
unfolding finish_owner
drain zero now s = s
drain (suc k) now s = drain k now (finish_next now s)

-- One finish: the queue is one shorter, or nothing is left.
abbrev Progress : System → System → Type 0
Progress s u =
    (u.coordinator.seq ≤ s.coordinator.seq + 1)
    × (((u.live ≡ []) × (u.coordinator.waiters ≡ []))
        ⊎ (length s.coordinator.waiters ≡ suc (length u.coordinator.waiters)))

start_locked-seq :
    (now : ℕ) (request : Request) (policy : Policy) (c : Coordinator)
    → c.seq + 1 < 2 ^ 64
    → (start_locked now request policy c).0.seq ≤ c.seq + 1
unfolding start_locked
start_locked-seq now request policy c h = ground arith

hand_over-Progress :
    (now : ℕ) (c : Coordinator)
    → c.seq + 1 < 2 ^ 64
    → IsQueue c.seq c.waiters
    → Progress
        (record { coordinator = c; live = [] })
        (finished (record { coordinator = c; live = [] }) 0 (hand_over now c))
unfolding hand_over remove_at
hand_over-Progress now c h q = elim (Option-cases (pop_next_locked c.waiters)) [
  | inl e ↦ rw (hand_over, e) (omega arith, inl (refl, pop_next_locked-none c.waiters e))
  | inr ((w, rest), e) ↦
      let c' : Coordinator = record c { waiters = rest } in
      rw (hand_over, e)
        (
          start_locked-seq now w.request w.policy c' h,
          inr (
              (pop_next_locked-IsLater c.waiters w rest q.ordered e).2
              ∙ ap (λ ws. suc (length ws))
                  (sym (start_locked_lem now w.request w.policy c' h).kept)),
        )
]

finish-Progress :
    (now : ℕ) (t : Transaction) (s : System)
    → s.coordinator.seq + 1 < 2 ^ 64
    → get_elem? s.live 0 ≡ some t
    → IsSafe s
    → Progress s (finished s 0 (finish now none (some t) s.coordinator))
unfolding finish
finish-Progress now t s h e v =
    let c = s.coordinator in
    let (single, first, b, same) = alone c.snapshot.busy c.snapshot.id s.live 0 t v.owner e in
    let r = release_lem now none t c b same in
    let c' = release now none t c in
    let moved =
      hand_over-Progress now c' (omega (arith, r.same_seq)) (rw (r.same_seq, r.kept) v.queue) in
    rw single (
      omega (arith, moved, r.same_seq),
      elim moved.1 [ inl gone ↦ inl gone | inr shorter ↦ inr (ap length (sym r.kept) ∙ shorter) ],
    )

finish_owner-Progress :
    (now : ℕ) (live : List Transaction) (s : System)
    → s.coordinator.seq + 1 < 2 ^ 64
    → s.live ≡ live
    → IsSafe s
    → IsSafe (finish_owner now live s) × Progress s (finish_owner now live s)
unfolding finish_owner
finish_owner-Progress now [] s h e v =
    let quiet = subst (Owns s.coordinator.snapshot.busy s.coordinator.snapshot.id) e v.owner in
    (v, (omega arith, inl (e, v.waited_for quiet)))
finish_owner-Progress now (t ∷ rest) s h e v =
    let held = ap (λ live. get_elem? live 0) e in
    (finish-IsSafe now none 0 t s h held v, finish-Progress now t s h held v)

drain_idle : (k now : ℕ) (s : System) → s.live ≡ [] → drain k now s ≡ s
unfolding drain finish_owner
drain_idle zero now s e = refl
drain_idle (suc k) now s e =
    ap (λ (live : List Transaction). drain k now (finish_owner now live s)) e ∙ drain_idle k now s e

abbrev pub IsIdle : System → Type 0
IsIdle s = (s.live ≡ []) × (s.coordinator.waiters ≡ []) × (s.coordinator.snapshot.busy ≡ false)

drained :
    (k now : ℕ) (s : System)
    → IsSafe s
    → s.live ≡ []
    → s.coordinator.waiters ≡ []
    → IsIdle (drain k now s)
drained k now s v e w =
    subst IsIdle (sym (drain_idle k now s e))
      (e, w, subst (Owns s.coordinator.snapshot.busy s.coordinator.snapshot.id) e v.owner)

-- From any safe state whose ticket counter does not wrap round in the meantime, more finishes in a row
-- than there are waiters leave the coordinator idle with an empty queue and no live transaction.
pub drain_lem :
    (k now : ℕ) (s : System)
    → s.coordinator.seq + k < 2 ^ 64
    → length s.coordinator.waiters < k
    → IsSafe s
    → IsIdle (drain k now s)
unfolding drain
drain_lem zero now s h short v = absurd (omega arith)
drain_lem (suc k) now s h short v =
    let (safe, moved) = finish_owner-Progress now s.live s (omega arith) refl v in
    elim moved.1 [
      | inl (gone, none_left) ↦ drained k now (finish_next now s) safe gone none_left
      | inr shorter ↦ drain_lem k now (finish_next now s) (omega arith) (omega arith) safe
    ]
