-- ===== src/Supervisor/Starting.antt =====
-- internal/supervisor/supervisor.go: what Start and startCore bring about.
use navo.Base.{
  ℕ, suc, ◌≡◌, ◌⊎◌, inl, inr, refl, ap, ◌∙◌, subst, String, Bool, true, false, ◌||◌, Option, none,
  some, arith, Bool-cases, Option-cases, List, [], ◌∷◌, ◌++◌,
}
use navo.Supervisor.State.{State, Event, next_state, last_row, valid_transitions}
use navo.Supervisor.Lifecycle.{
  Supervisor, Call, host_starts, reconciles, Reconciled, transition, start_core, reconciled,
  StartAnswers, start, in_state,
}
use navo.Supervisor.Transitions.{transition-Announces, contexts-transition, calls-transition}

-- After the calls of `before` the host was asked to start the core on the given config in the given context, and
-- was asked nothing since; the supervisor has it as running there.
pub record IsRunning (ctx : ℕ) (before : List Call) (config : String) (s : Supervisor)
    : Type 0 where
  pub asked : s.calls ≡ before ++ host_starts ctx config ∷ []
  pub state : s.state ≡ State.running
  pub path : s.active_config_path ≡ config
  pub context : s.cancel ≡ some ctx
  pub fresh : s.contexts ≡ suc ctx

-- The core as `p` prepares it, once its start is announced.
running-transition :
    (event : Event) (ctx : ℕ) (before : List Call) (path : String) (p : Supervisor)
    → p.calls ≡ before ++ host_starts ctx path ∷ []
    → p.active_config_path ≡ path
    → p.cancel ≡ some ctx
    → p.contexts ≡ suc ctx
    → IsRunning ctx before path (record (transition event p).0 { state = State.running })
running-transition event ctx before path p asked a c n =
    let same = transition-Announces event p in
    record {
      asked = calls-transition event p ∙ asked;
      state = refl;
      path = ap (λ (r : Supervisor). r.active_config_path) same ∙ a;
      context = ap (λ (r : Supervisor). r.cancel) same ∙ c;
      fresh = ap (λ (r : Supervisor). r.contexts) same ∙ n;
    }

start_core-IsRunning :
    (error : Option String) (path : String) (s : Supervisor)
    → (start_core error path s).1 ≡ true
    → (error ≡ none) × IsRunning s.contexts s.calls path (start_core error path s).0
unfolding start_core
start_core-IsRunning none path s ok = elim (Bool-cases (transition Event.start s).1) [
  | inl e ↦ (
    refl,
    rw e (
        running-transition Event.started s.contexts s.calls path _
          (ap (λ calls. calls ++ host_starts s.contexts path ∷ []) (calls-transition Event.start s))
          refl refl refl),
  )
  | inr e ↦ absurd (ground arith)
]
start_core-IsRunning (some message) path s ok = absurd (ground arith)

transition-ready : (s : Supervisor) → s.state ≡ State.ready → (transition Event.start s).1 ≡ true
unfolding transition next_state last_row valid_transitions
transition-ready s e = rw e refl

start_core-failed :
    (error : Option String) (path : String) (s : Supervisor)
    → s.state ≡ State.ready
    → (start_core error path s).1 ≡ false
    → (start_core error path s).0.state ≡ State.failed
unfolding start_core
start_core-failed none path s ready h = absurd (ground (arith, transition-ready s ready))
start_core-failed (some message) path s ready h = rw (transition-ready s ready) refl

contexts-reconciled :
    (answer : Reconciled) (s : Supervisor) → (reconciled answer s).0.contexts ≡ s.contexts
unfolding reconciled
contexts-reconciled answer s = ground arith

-- A start that is over: the core runs in the next context, or the supervisor has failed.
abbrev pub Started : ℕ → List Call → String → Supervisor × Bool → Type 0
Started ctx before path (s, ok) =
    ((ok ≡ true) × IsRunning ctx before path s) ⊎ ((ok ≡ false) × (s.state ≡ State.failed))

start_core-Started :
    (error : Option String) (path : String) (s : Supervisor)
    → s.state ≡ State.ready
    → Started s.contexts s.calls path (start_core error path s)
start_core-Started error path s ready = elim (Bool-cases (start_core error path s).1) [
  | inl ok ↦ inl (ok, (start_core-IsRunning error path s ok).1)
  | inr refused ↦ inr (refused, start_core-failed error path s ready refused)
]

-- What is asked before the core is started: the network is reconciled, if there is a reconciler.
abbrev pub looks : Bool → List Call
looks true = reconciles ∷ []
looks false = []

append_nil : (calls : List Call) → calls ≡ calls ++ []
append_nil [] = refl
append_nil (c ∷ calls) = ap (λ rest. c ∷ rest) (append_nil calls)

calls-reconciled :
    (answer : Reconciled) (s : Supervisor)
    → (reconciled answer s).0.calls ≡ s.calls ++ looks s.has_reconciler
unfolding reconciled
calls-reconciled answer s = elim (Bool-cases s.has_reconciler) [
  | inl there ↦ rw (reconciled, there) refl
  | inr missing ↦ rw (reconciled, missing) (append_nil s.calls)
]

-- The supervisor as Start hands it to startCore.
abbrev looked : StartAnswers → Supervisor → Supervisor
looked answers s =
    (reconciled answers.reconciliation
      (record (transition Event.start (record s { restart_count = 0; warm_idle = false })).0 {
        state = State.reconcile;
      })).0

abbrev readied : StartAnswers → Supervisor → Supervisor
readied answers s = record (transition Event.reconcile_done (looked answers s)).0 {
  state = State.ready;
}

contexts-readied :
    (answers : StartAnswers) (s : Supervisor) → (readied answers s).contexts ≡ s.contexts
contexts-readied answers s =
    contexts-transition Event.reconcile_done (looked answers s)
    ∙ contexts-reconciled answers.reconciliation _
    ∙ contexts-transition Event.start (record s { restart_count = 0; warm_idle = false })

calls-readied :
    (answers : StartAnswers) (s : Supervisor)
    → (readied answers s).calls ≡ s.calls ++ looks s.has_reconciler
calls-readied answers s =
    let cleared : Supervisor = record s { restart_count = 0; warm_idle = false } in
    let announced = transition-Announces Event.start cleared in
    calls-transition Event.reconcile_done (looked answers s)
    ∙ calls-reconciled answers.reconciliation _
    ∙ ap (λ (r : Supervisor). r.calls ++ looks r.has_reconciler) announced

readied-Started :
    (answers : StartAnswers) (path : String) (s : Supervisor)
    → Started s.contexts
        (s.calls ++ looks s.has_reconciler)
        path
        (start_core answers.host_error path (readied answers s))
readied-Started answers path s =
    let run = start_core answers.host_error path (readied answers s) in
    subst (λ n. Started n (s.calls ++ looks s.has_reconciler) path run) (contexts-readied answers s)
      (subst (λ calls. Started (readied answers s).contexts calls path run)
        (calls-readied answers s)
        (start_core-Started answers.host_error path (readied answers s) refl))

-- Why Start may refuse.
abbrev Refuses : Supervisor → Type 0
Refuses s =
    ((in_state State.running s || in_state State.starting s) ≡ true)
    ⊎ ((transition Event.start (record s { restart_count = 0; warm_idle = false })).1 ≡ false)

start_cases :
    (answers : StartAnswers) (path : String) (s : Supervisor)
    → Started s.contexts (s.calls ++ looks s.has_reconciler) path (start answers path s)
      ⊎ (Refuses s
          × ((start answers path s).1 ≡ false)
          × ((start answers path s).0.state ≡ s.state))
unfolding start
start_cases answers path s =
    let cleared = record s { restart_count = 0; warm_idle = false } in
    let after =
      reconciled answers.reconciliation
        (record (transition Event.start cleared).0 { state = State.reconcile }) in
    elim (Bool-cases (in_state State.running s || in_state State.starting s)) [
      | inl busy ↦ inr (inl busy, rw busy refl, rw busy refl)
      | inr free ↦ elim (Bool-cases (transition Event.start cleared).1) [
        | inr refused ↦ inr (inr refused, rw (free, refused) refl, rw (free, refused) refl)
        | inl allowed ↦ elim (Option-cases after.1) [
          | inl fine ↦ inl (rw (free, allowed, fine) (readied-Started answers path s))
          | inr (message, broken) ↦ inl (inr (rw (free, allowed, broken) (refl, refl)))
        ]
      ]
    ]

-- Start does one of three things. It reconciles the network, if there is a reconciler, and then asks the host to
-- start the core on the given config in a context of its own, which is the last thing it asks, and leaves the
-- supervisor running on that config; or it leaves the supervisor failed; or it refuses and leaves its state as it
-- was.
pub start-Started :
    (answers : StartAnswers) (path : String) (s : Supervisor)
    → Started s.contexts (s.calls ++ looks s.has_reconciler) path (start answers path s)
      ⊎ ((start answers path s).1 ≡ false) × ((start answers path s).0.state ≡ s.state)
start-Started answers path s = elim (start_cases answers path s) [
  | inl over ↦ inl over
  | inr (why, refused, same) ↦ inr (refused, same)
]

abbrev pub IsDown : Supervisor → Type 0
IsDown s = (s.state ≡ State.stopped) ⊎ (s.state ≡ State.failed)

transition-IsDown : (s : Supervisor) → IsDown s → (transition Event.start s).1 ≡ true
unfolding transition next_state last_row valid_transitions
transition-IsDown s (inl e) = rw e refl
transition-IsDown s (inr e) = rw e refl

IsDown-accepts : (s : Supervisor) → IsDown s → Refuses s → ⊥
IsDown-accepts s (inl e) (inl busy) = ground arith
IsDown-accepts s (inr e) (inl busy) = ground arith
IsDown-accepts s down (inr refused) =
    ground (arith, transition-IsDown (record s { restart_count = 0; warm_idle = false }) down)

-- From `stopped` and `failed` Start never refuses.
pub start-down :
    (answers : StartAnswers) (path : String) (s : Supervisor)
    → IsDown s
    → Started s.contexts (s.calls ++ looks s.has_reconciler) path (start answers path s)
start-down answers path s down = elim (start_cases answers path s) [
  | inl over ↦ over
  | inr (why, refused, same) ↦ absurd (IsDown-accepts s down why)
]
