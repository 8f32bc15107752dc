-- ===== src/Service/Capture/Moves.antt =====
-- internal/service/capture_transition.go: what stopping and starting the core bring about.
use navo.Base.{
  ℕ, List, ◌++◌, ◌≡◌, inl, inr, refl, sym, subst, String, Bool, true, false, arith, Bool-cases,
  str_eq,
}
use navo.Supervisor.State.{State}
use navo.Supervisor.Lifecycle.{Supervisor, Call, StartAnswers, start, stop}
use navo.Supervisor.Starting.{IsRunning, looks, start-Started}
use navo.Supervisor.Replacement.{stop-stopped}
use navo.Service.Lease.{is_running}
use navo.Service.Capture.Action.{plain, Action, Outcome, continue, Succeeds, require}
use navo.Service.Capture.State.{Service, Machine}
use navo.Service.Capture.Steps.{done-Succeeds, fails-Succeeds, after, required-last}
use navo.Service.Capture.Core.{
  stop_supervisor, stop_from, stop_core_for_capture, start_supervisor, start_core_for_capture,
}

pub is_running-running : (state : State) → is_running state ≡ true → state ≡ State.running
is_running-running State.running h = refl
is_running-running State.stopped h = ground arith
is_running-running State.reconcile h = ground arith
is_running-running State.ready h = ground arith
is_running-running State.starting h = ground arith
is_running-running State.stopping h = ground arith
is_running-running State.failed h = ground arith
is_running-running State.degraded h = ground arith
is_running-running State.dirty h = ground arith

pub running-is_running : (state : State) → state ≡ State.running → is_running state ≡ true
running-is_running state h = rw h refl

pub stopped-is_running : (state : State) → state ≡ State.stopped → is_running state ≡ false
stopped-is_running state h = rw h refl

-- The last thing that the host was asked is to start the core on the given config, and it runs.
abbrev pub Launched : String → Supervisor → Type 0
Launched path supervisor = (ctx : ℕ) × (before : List Call) × IsRunning ctx before path supervisor

start-Launched :
    (answers : StartAnswers) (path : String) (s : Supervisor)
    → (start answers path s).1 ≡ true
    → Launched path (start answers path s).0
start-Launched answers path s done = elim (start-Started answers path s) [
  | inl (inl (started, up)) ↦ (s.contexts, s.calls ++ looks s.has_reconciler, up)
  | inl (inr (not_started, failed)) ↦ absurd (ground (arith, done, not_started))
  | inr (refused, same) ↦ absurd (ground (arith, done, refused))
]

-- The supervisor's flags do not count.
pub Launched-flags :
    (path : String) (warm_idle suppressed : Bool) (s : Supervisor)
    → Launched path s
    → Launched path (record s { warm_idle = warm_idle; restart_suppressed = suppressed })
Launched-flags path warm_idle suppressed s (ctx, before, up) = (
  ctx,
  before,
  record {
    asked = up.asked;
    state = up.state;
    path = up.path;
    context = up.context;
    fresh = up.fresh;
  },
)

start-running :
    (answers : StartAnswers) (path : String) (s : Supervisor)
    → (start answers path s).1 ≡ true
    → (start answers path s).0.state ≡ State.running
start-running answers path s done = elim (start-Started answers path s) [
  | inl (inl (started, up)) ↦ up.state
  | inl (inr (not_started, failed)) ↦ absurd (ground (arith, done, not_started))
  | inr (refused, same) ↦ absurd (ground (arith, done, refused))
]

module _ {E M V W : Type 0} where
  -- The machine and the supervisor alone have changed, and the core is in the given state.
  abbrev pub InState : {A : Type 0} → State → Service E M V W → Service E M V W → A → Type 0
  InState state s s' a =
      (env : E) × (supervisor : Supervisor) × (supervisor.state ≡ state)
      × (s' ≡ record s { env = env; supervisor = supervisor })

  pub after-InState :
      {A B : Type 0} {Q : Service E M V W → B → Type 0} (state : State) (s : Service E M V W)
      (f : A → Action (Service E M V W) B) (x : Service E M V W × Outcome A)
      → Succeeds (InState state s) x
      → ((env : E) (supervisor : Supervisor) (a : A)
          → supervisor.state ≡ state
          → Succeeds Q (f a (record s { env = env; supervisor = supervisor })))
      → Succeeds Q (continue f x)
  after-InState {Q} state s f x h k =
      after (InState state s) f x h
        (λ s' a i. subst (λ now. Succeeds Q (f a now)) (sym i.3) (k i.0 i.1 a i.2))

  -- The same where the core was launched on the service's config.
  abbrev pub IsLaunched : {A : Type 0} → Service E M V W → Service E M V W → A → Type 0
  IsLaunched s s' a =
      (env : E) × (supervisor : Supervisor) × Launched s.config_path supervisor
      × (s' ≡ record s { env = env; supervisor = supervisor })

  pub after-IsLaunched :
      {A B : Type 0} {Q : Service E M V W → B → Type 0} (s : Service E M V W)
      (f : A → Action (Service E M V W) B) (x : Service E M V W × Outcome A)
      → Succeeds (IsLaunched s) x
      → ((env : E) (supervisor : Supervisor) (a : A)
          → Launched s.config_path supervisor
          → Succeeds Q (f a (record s { env = env; supervisor = supervisor })))
      → Succeeds Q (continue f x)
  after-IsLaunched {Q} s f x h k =
      after (IsLaunched s) f x h
        (λ s' a i. subst (λ now. Succeeds Q (f a now)) (sym i.3) (k i.0 i.1 a i.2))

  require-InState :
      (state : State) (s : Service E M V W) (env : E) (x : Supervisor × Bool)
      → (x.1 ≡ true → x.0.state ≡ state)
      → Succeeds (InState state s) (require plain x.1 (record s { env = env; supervisor = x.0 }))
  require-InState state s env x h = required-last _ plain x.1 (λ yes. (env, x.0, h yes, refl))

module _ {E M V W : Type 0} (machine : Machine E M V W) where
  stop_supervisor-InState :
      (s : Service E M V W) → Succeeds (InState State.stopped s) (stop_supervisor machine s)
  unfolding stop_supervisor
  stop_supervisor-InState s =
      let answer = machine.stop_core s.env in
      require-InState State.stopped s answer.0 (stop answer.1 s.supervisor)
        (stop-stopped answer.1 s.supervisor)

  -- A core that is stopped without an error is stopped.
  pub stop_core_for_capture-InState :
      (s : Service E M V W) → Succeeds (InState State.stopped s) (stop_core_for_capture machine s)
  unfolding stop_from
  stop_core_for_capture-InState s = go s.supervisor.state refl
    where
      go :
          (state : State)
          → s.supervisor.state ≡ state
          → Succeeds (InState State.stopped s) (stop_from machine state s)
      go State.stopped e = done-Succeeds _ _ (s.env, s.supervisor, e, refl)
      go State.running e = stop_supervisor-InState s
      go State.degraded e = stop_supervisor-InState s
      go State.failed e = stop_supervisor-InState s
      go State.starting e = stop_supervisor-InState s
      go State.reconcile e = fails-Succeeds _ _
      go State.ready e = fails-Succeeds _ _
      go State.stopping e = fails-Succeeds _ _
      go State.dirty e = fails-Succeeds _ _

  -- A core that is started without an error runs.
  pub start_core_for_capture-InState :
      (s : Service E M V W) → Succeeds (InState State.running s) (start_core_for_capture machine s)
  unfolding start_core_for_capture start_supervisor
  start_core_for_capture-InState s =
      let answer = machine.start_core s.config_path s.env in
      elim (Bool-cases (is_running s.supervisor.state)) [
        | inl up ↦ rw up (
            done-Succeeds s tt
              (s.env, s.supervisor, is_running-running s.supervisor.state up, refl))
        | inr down ↦ elim (Bool-cases (str_eq s.config_path "")) [
          | inl empty ↦ rw (down, empty) (fails-Succeeds s plain)
          | inr there ↦
              rw (down, there)
                (require-InState State.running s answer.0
                  (start answer.1 s.config_path s.supervisor)
                  (start-running answer.1 s.config_path s.supervisor))
        ]
      ]

  -- A core that is stopped and is started without an error was launched on the service's config.
  pub start_core_for_capture-IsLaunched :
      (s : Service E M V W)
      → s.supervisor.state ≡ State.stopped
      → Succeeds (IsLaunched s) (start_core_for_capture machine s)
  unfolding start_core_for_capture start_supervisor
  start_core_for_capture-IsLaunched s down =
      let answer = machine.start_core s.config_path s.env in
      let idle = stopped-is_running s.supervisor.state down in
      elim (Bool-cases (str_eq s.config_path "")) [
        | inl empty ↦ rw (idle, empty) (fails-Succeeds s plain)
        | inr there ↦
            let ran = start answer.1 s.config_path s.supervisor in
            rw (idle, there)
              (required-last _ plain ran.1 (λ done.
                (answer.0, ran.0, start-Launched answer.1 s.config_path s.supervisor done, refl)))
      ]
