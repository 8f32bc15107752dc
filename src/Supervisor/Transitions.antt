-- ===== src/Supervisor/Transitions.antt =====
-- internal/supervisor/supervisor.go: transition only announces.
use navo.Base.{◌≡◌, inl, inr, refl, ap, Option-cases}
use navo.Supervisor.State.{Event, next_state}
use navo.Supervisor.Lifecycle.{Supervisor, transition}

-- A transition is only announced.
abbrev pub Announces : Supervisor → Supervisor → Type 0
Announces s r = r ≡ record s { events = r.events }

pub transition-Announces : (event : Event) (s : Supervisor) → Announces s (transition event s).0
unfolding transition
transition-Announces event s = elim (Option-cases (next_state s.state event)) [
  | inl e ↦ rw (transition, e) refl
  | inr (to, e) ↦ rw (transition, e) refl
]

pub calls-transition : (event : Event) (s : Supervisor) → (transition event s).0.calls ≡ s.calls
calls-transition event s = ap (λ (r : Supervisor). r.calls) (transition-Announces event s)

pub canceled-transition :
    (event : Event) (s : Supervisor) → (transition event s).0.canceled ≡ s.canceled
canceled-transition event s = ap (λ (r : Supervisor). r.canceled) (transition-Announces event s)

pub contexts-transition :
    (event : Event) (s : Supervisor) → (transition event s).0.contexts ≡ s.contexts
contexts-transition event s = ap (λ (r : Supervisor). r.contexts) (transition-Announces event s)
