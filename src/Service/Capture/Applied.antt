-- ===== src/Service/Capture/Applied.antt =====
-- internal/service/runtime.go, applyRuntimeConfigLocked, where the core is stopped.
use navo.Base.{
  ◌≡◌, refl, sym, ◌∙◌, subst, String, Bool, true, false, Option, none, some, List, arith,
}
use navo.Supervisor.State.{State}
use navo.Supervisor.Lifecycle.{Supervisor}
use navo.Service.Outbound.{Outbound}
use navo.Service.Lease.{is_running}
use navo.Service.Capture.Action.{Action, ok, continue, Succeeds, when, branch, update, ◌>>◌}
use navo.Service.Capture.State.{Service, Machine, TunPlan, TunResult, RuntimeState, Compiled}
use navo.Service.Capture.Core.{set_env, invalidate_warm, stop_core_for_capture}
use navo.Service.Capture.Runtime.{
  choose, prepare_candidate, reload, apply_runtime_config, apply_chosen, candidate_runtime,
  with_route, applying,
}
use navo.Service.Capture.Steps.{
  done-Succeeds, step, after, expected, either, required, Succeeds-map, recovering-Succeeds,
  undoing-Succeeds, required-last, Untouched, after-Untouched,
}
use navo.Service.Capture.Moves.{InState, stop_core_for_capture-InState, stopped-is_running}

tun_enabled-choose :
    (selected_id mode : String) (outbounds : List Outbound) (r : RuntimeState)
    {chosen : RuntimeState × Option Outbound}
    → choose selected_id mode outbounds r ≡ some chosen
    → chosen.0.tun_enabled ≡ r.tun_enabled
unfolding choose
tun_enabled-choose selected_id mode outbounds r h = ground arith

with_route-enabled :
    (route : Option String) (r : RuntimeState) → (with_route route r).tun_enabled ≡ r.tun_enabled
with_route-enabled none r = refl
with_route-enabled (some alias) r = refl

module _ {E M V W : Type 0} where
  -- The core is stopped, and the network's part of the service is the given one.
  abbrev pub IsStill :
      {A : Type 0} → Option M → TunResult W → Option TunPlan → Bool → Service E M V W → A → Type 0
  IsStill m t p is_enabled s a =
      (s.supervisor.state ≡ State.stopped)
      × (s.manager ≡ m)
      × (s.tun ≡ t)
      × (s.tun_plan ≡ p)
      × (s.runtime.tun_enabled ≡ is_enabled)

module _ {E M V W : Type 0} (machine : Machine E M V W) (blank : V) where
  prepare_candidate-Untouched :
      (next : RuntimeState) (selected : Option Outbound) (usable : List Outbound)
      (s : Service E M V W)
      → Succeeds (Untouched s) (prepare_candidate machine next selected usable s)
  unfolding prepare_candidate
  prepare_candidate-Untouched next selected usable s = required _ _ _ _ (λ _. step _ _ _ (
      expected _ _ _ _ (λ compiled _.
        after (Untouched s) _ _
          (undoing-Succeeds _ _ _ (
            step _ _ _ (required _ _ _ _ (λ _. step _ _ _ (required-last _ _ _ (λ _. (_, refl)))))))
          (λ s' a h. done-Succeeds _ _ h))))

  -- A core that does not run is not restarted, and nothing is rebound.
  reload-stopped :
      (compiled : Compiled) (was_running : Bool) (next : RuntimeState) (path : String)
      (s : Service E M V W)
      → was_running ≡ false
      → reload machine compiled was_running next path s ≡ (s, ok none)
  unfolding reload when continue branch
  reload-stopped compiled was_running next path s stopped = rw stopped refl

  module _ (m : Option M) (t : TunResult W) (p : Option TunPlan) (is_enabled : Bool) where
    abbrev Still : {A : Type 0} → Service E M V W → A → Type 0
    Still s a = IsStill m t p is_enabled s a

    stop_core_for_capture-IsStill :
        (s : Service E M V W) → Still s tt → Succeeds Still (stop_core_for_capture machine s)
    stop_core_for_capture-IsStill s i =
        Succeeds-map (InState State.stopped s) _
          (λ s' a there. subst (λ now. Still now a) (sym there.3) (there.2, i.1, i.2, i.3, i.4))
          (stop_core_for_capture-InState machine s)

    set_warm_idle-Still : (s : Service E M V W) → Still s tt → Still (invalidate_warm blank s) tt
    unfolding invalidate_warm navo.Supervisor.Lifecycle.set_warm_idle
    set_warm_idle-Still s i = i

    -- A lease is given up at most.
    give_up-Still :
        (warm_idle : Bool) (s : Service E M V W)
        → Still s tt
        → Succeeds Still
            (when warm_idle (update (invalidate_warm blank) >> stop_core_for_capture machine) s)
    unfolding when
    give_up-Still false s i = done-Succeeds _ _ i
    give_up-Still true s i =
        step _ _ _
          (stop_core_for_capture-IsStill (invalidate_warm blank s) (set_warm_idle-Still s i))

    apply_chosen-IsStill :
        (path : String) (previous : RuntimeState) (usable : List Outbound)
        (selected : Option Outbound) (next : RuntimeState) (s : Service E M V W)
        → next.tun_enabled ≡ is_enabled
        → Still s tt
        → Succeeds Still (apply_chosen machine path previous usable selected next s)
    unfolding apply_chosen candidate_runtime
    apply_chosen-IsStill path previous usable selected next s e i =
        after-Untouched s _ _ (prepare_candidate-Untouched next selected usable s) (λ env compiled.
          step _ _ _ (
            let reloaded =
              reload-stopped compiled (is_running s.supervisor.state) next path (set_env env s)
                (stopped-is_running s.supervisor.state i.0) in
            rw reloaded (
              step _ _ _ (
                step _ _ _ (
                  after Still _ _
                    (recovering-Succeeds _ _ _ (
                      step _ _ _ (step _ _ _ (required-last _ _ _ (λ _. (i.0, i.1, i.2, i.3, e))))))
                    (λ s' _ still. done-Succeeds _ _ still))))))

    -- A config is applied while the core is stopped: the core and the network's part stay as they are.
    pub apply_runtime_config-IsStill :
        (outbounds : List Outbound) (selected_id mode : String) (s : Service E M V W)
        → Still s tt
        → Succeeds Still (apply_runtime_config machine blank outbounds selected_id mode s)
    unfolding apply_runtime_config
    apply_runtime_config-IsStill outbounds selected_id mode s i = step _ _ _ (
        after Still _ _ (give_up-Still s.supervisor.warm_idle s i) (λ s1 _ still. step _ _ _ (
          step _ _ _ (
            expected _ _ _ _ (λ chosen chosen_eq.
              let same =
                tun_enabled-choose selected_id mode outbounds s1.runtime chosen_eq ∙ still.4 in
              either _ _ _ _ _
                (step _ _ _ (
                  apply_chosen-IsStill _ _ _ _ _ _ (with_route-enabled none chosen.0 ∙ same) still))
                (step _ _ _ (
                  apply_chosen-IsStill _ _ _ _ _ _ (with_route-enabled _ chosen.0 ∙ same)
                    still)))))))

    -- The same with other TUN fields and another plan.
    pub applying-IsStill :
        (before : Bool) (change : RuntimeState → RuntimeState) (plan : Option TunPlan)
        (pin : List Outbound → Action (Service E M V W) (List Outbound)) (s : Service E M V W)
        → ((r : RuntimeState) → (change r).tun_enabled ≡ is_enabled)
        → ((outbounds : List Outbound) (s' : Service E M V W)
            → Succeeds (Untouched s') (pin outbounds s'))
        → IsStill m t p before s tt
        → Succeeds (IsStill m t plan is_enabled) (applying machine blank change plan pin s)
    unfolding applying
    applying-IsStill before change plan pin s changes pins i =
        let asked = machine.outbounds s.env in
        let changed = record s { env = asked.0; runtime = change s.runtime } in
        step _ _ _ (
          after Still _ _
            (undoing-Succeeds _ _ _ (
              step _ _ _ (
                step _ _ _ (
                  after-Untouched changed _ _ (pins asked.1 changed) (λ env pinned.
                    apply_runtime_config-IsStill pinned "" "" _ (i.0, i.1, i.2, i.3, changes _))))))
            (λ s' _ still. done-Succeeds _ _ (still.0, still.1, still.2, refl, still.4)))
