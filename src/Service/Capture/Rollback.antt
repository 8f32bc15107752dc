-- ===== src/Service/Capture/Rollback.antt =====
-- internal/service/capture_transition.go: rollbackCaptureLocked, and a switch that fails.
use navo.Base.{◌≡◌, inl, inr, refl, sym, ap, ◌∙◌, subst, false, Option, none, some, Option-cases}
use navo.Supervisor.State.{State}
use navo.Service.Capture.Action.{
  Error, Outcome, ok, fails, Succeeds, failed_with, join_errors, check, ◌>>=◌,
}
use navo.Service.Capture.State.{Service, Machine, no_result}
use navo.Service.Capture.Core.{ask, set_env, stop_supervisor, stop_from, stop_core_for_capture}
use navo.Service.Capture.Prepare.{
  deactivate_with, deactivate_tun_network, destroy_tun_adapter, settle_rollback, rollback_capture,
}
use navo.Service.Capture.Steps.{
  done-Succeeds, fails-Succeeds, step, either-Succeeds, required-last, checked-last,
}
use navo.Service.Capture.Moves.{stop_core_for_capture-InState}
use navo.Service.Capture.Committed.{deactivate_tun_network-Released, destroy_tun_adapter-Untouched}

module _ {E M V W : Type 0} where
  -- What the service relies on, for what it means that the network's resources are released and that the adapter
  -- is missing: a manager that deactivates without an error has released them, and only an activation takes them
  -- again; a wait for a missing adapter ends without an error when it is missing.
  pub record IsMachine (Released Missing : E → Type 0) (machine : Machine E M V W) : Type 0 where
    pub deactivates :
        (m : M) (e : E)
        → (machine.network.deactivate m e).2 ≡ none
        → Released (machine.network.deactivate m e).1
    pub stops : (e : E) → Released e → Released (machine.stop_core e).0
    pub inspects : (e : E) → Released e → Released (machine.inspect_adapter e).0
    pub creates : (e : E) → Released e → Released (machine.create_adapter e).0
    pub destroys : (e : E) → Released e → Released (machine.destroy_adapter e).0
    pub waits : (e : E) → Released e → Released (machine.wait_missing e).0
    pub finds_missing :
        (e : E) → (machine.wait_missing e).1 ≡ none → Missing (machine.wait_missing e).0

  -- Nothing runs and nothing of TUN is left, in the service or on the machine.
  pub record IsDown (Released Missing : E → Type 0) (s : Service E M V W) : Type 0 where
    pub core : s.supervisor.state ≡ State.stopped
    pub no_manager : s.manager ≡ none
    pub released : Released s.env
    pub adapter : Missing s.env
    pub not_enabled : s.runtime.tun_enabled ≡ false
    pub no_plan : s.tun_plan ≡ none
    pub no_result : s.tun ≡ no_result

pub join_errors-none : (a b : Option Error) → join_errors a b ≡ none → (a ≡ none) × (b ≡ none)
unfolding join_errors
join_errors-none none b h = (refl, h)
join_errors-none (some a) none h = cc
join_errors-none (some a) (some b) h = cc

failed_with-Succeeds :
    {S A : Type 0} (P : S → A → Type 0) (x : S × Outcome A)
    → Succeeds P x
    → (failed_with x).1 ≡ none
    → (a : A) × P (failed_with x).0 a
failed_with-Succeeds P (s, ok a) h none_is = (a, h.holds)
failed_with-Succeeds P (s, fails e) h none_is = cc

module _ {E M V W : Type 0} (machine : Machine E M V W) (Released Missing : E → Type 0)
    (laws : IsMachine Released Missing machine) where
  abbrev Freed : {A : Type 0} → Service E M V W → A → Type 0
  Freed s a = Released s.env

  deactivate-Freed :
      (s : Service E M V W)
      → (s.manager ≡ none → Released s.env)
      → Succeeds Freed (deactivate_tun_network machine s)
  unfolding deactivate_with
  deactivate-Freed s held = go s.manager refl
    where
      go : (m : Option M) → s.manager ≡ m → Succeeds Freed (deactivate_with machine m s)
      go none e = done-Succeeds _ _ (held e)
      go (some m) e = elim (Option-cases (machine.network.deactivate m s.env).2) [
        | inl fine ↦ rw (deactivate_with, fine) (done-Succeeds _ _ (laws.deactivates m s.env fine))
        | inr (cause, stuck) ↦ rw (deactivate_with, stuck) (fails-Succeeds _ _)
      ]

  stop_supervisor-Freed :
      (s : Service E M V W) → Released s.env → Succeeds Freed (stop_supervisor machine s)
  unfolding stop_supervisor
  stop_supervisor-Freed s h = required-last _ _ _ (λ _. laws.stops s.env h)

  stop-Freed :
      (s : Service E M V W) → Released s.env → Succeeds Freed (stop_core_for_capture machine s)
  unfolding stop_from
  stop-Freed s h = go s.supervisor.state
    where
      go : (state : State) → Succeeds Freed (stop_from machine state s)
      go State.stopped = done-Succeeds _ _ h
      go State.running = stop_supervisor-Freed s h
      go State.degraded = stop_supervisor-Freed s h
      go State.failed = stop_supervisor-Freed s h
      go State.starting = stop_supervisor-Freed s h
      go State.reconcile = fails-Succeeds _ _
      go State.ready = fails-Succeeds _ _
      go State.stopping = fails-Succeeds _ _
      go State.dirty = fails-Succeeds _ _

  destroy-Freed :
      (s : Service E M V W) → Released s.env → Succeeds Freed (destroy_tun_adapter machine s)
  unfolding destroy_tun_adapter
  destroy-Freed s h =
      let seen = laws.inspects s.env h in
      let opened = laws.creates _ seen in
      step _ _ _ (
        either-Succeeds _ _ _ _ (step _ _ _ (checked-last _ _ (λ _. laws.destroys _ seen))) (
          step _ _ _ (
            either-Succeeds _ _ _ _ (step _ _ _ (required-last _ _ _ (λ _. laws.waits _ opened)))
              (step _ _ _ (checked-last _ _ (λ _. laws.destroys _ opened))))))

  wait-Freed :
      (s : Service E M V W)
      → Released s.env
      → Succeeds
          (λ s' _. (s' ≡ set_env s'.env s) × Released s'.env × Missing s'.env)
          ((ask machine.wait_missing >>= check) s)
  wait-Freed s h =
      step _ _ _
        (checked-last _ _ (λ gone. (refl, laws.waits s.env h, laws.finds_missing s.env gone)))

  settle-done :
      (s : Service E M V W) (e : Option Error) → (settle_rollback machine s e).1 ≡ none → e ≡ none
  unfolding settle_rollback
  settle-done s none h = refl
  settle-done s (some e) h = cc

  IsDown-settle :
      (s : Service E M V W)
      → s.supervisor.state ≡ State.stopped
      → s.manager ≡ none
      → Released s.env
      → Missing s.env
      → IsDown Released Missing (settle_rollback machine s none).0
  unfolding settle_rollback
  IsDown-settle s core free released missing = record {
    core = core;
    no_manager = free;
    released = released;
    adapter = missing;
    not_enabled = refl;
    no_plan = refl;
    no_result = refl;
  }

  -- A rollback that reports no error has stopped the core, released the network and the adapter, and cleared what
  -- the service knows of TUN, whatever state it starts from, if the network is released where no manager is there.
  pub rollback_capture-IsDown :
      (s : Service E M V W)
      → (s.manager ≡ none → Released s.env)
      → (rollback_capture machine s).1 ≡ none
      → IsDown Released Missing (rollback_capture machine s).0
  unfolding rollback_capture
  rollback_capture-IsDown s held done =
      let x1 = deactivate_tun_network machine s in
      let s1 = (failed_with x1).0 in
      let x2 = stop_core_for_capture machine s1 in
      let s2 = (failed_with x2).0 in
      let x3 = destroy_tun_adapter machine s2 in
      let s3 = (failed_with x3).0 in
      let x4 = (ask machine.wait_missing >>= check) s3 in
      let all = settle-done (failed_with x4).0 _ done in
      let e123 = join_errors-none _ (failed_with x4).1 all in
      let e12 = join_errors-none _ (failed_with x3).1 e123.0 in
      let e1 = join_errors-none (failed_with x1).1 (failed_with x2).1 e12.0 in
      let released = failed_with-Succeeds _ x1 (deactivate_tun_network-Released machine s) e1.0 in
      let freed = failed_with-Succeeds _ x1 (deactivate-Freed s held) e1.0 in
      let halted = failed_with-Succeeds _ x2 (stop_core_for_capture-InState machine s1) e1.1 in
      let free = failed_with-Succeeds _ x2 (stop-Freed s1 freed.1) e1.1 in
      let destroyed = failed_with-Succeeds _ x3 (destroy_tun_adapter-Untouched machine s2) e12.1 in
      let clean = failed_with-Succeeds _ x3 (destroy-Freed s2 free.1) e12.1 in
      let gone = failed_with-Succeeds _ x4 (wait-Freed s3 clean.1) e123.1 in
      let s4 = (failed_with x4).0 in
      let state = λ (now : Service E M V W). now.supervisor.state in
      let manager = λ (now : Service E M V W). now.manager in
      subst (λ e. IsDown Released Missing (settle_rollback machine s4 e).0) (sym all)
        (IsDown-settle s4
          (ap state gone.1.0 ∙ (ap state destroyed.1.1 ∙ (ap state halted.1.3 ∙ halted.1.2)))
          (ap manager gone.1.0
            ∙ (ap manager destroyed.1.1 ∙ (ap manager halted.1.3 ∙ ap manager released.1.1)))
          gone.1.1 gone.1.2)
