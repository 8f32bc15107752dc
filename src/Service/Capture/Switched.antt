-- ===== src/Service/Capture/Switched.antt =====
-- internal/service/capture_transition.go: the service after a switch to TUN, to the system proxy or to off that
-- starts with a core that is stopped.
use navo.Base.{
  ℕ, ◌≡◌, inl, inr, refl, sym, ap, ◌∙◌, subst, String, Bool, true, false, Option, none, some,
  Bool-cases, is_some,
}
use navo.Supervisor.State.{State}
use navo.Supervisor.Lifecycle.{set_warm_idle}
use navo.Network.Activation.{Stage}
use navo.Service.Lease.{current_identity}
use navo.Service.Capture.Action.{Succeeds}
use navo.Service.Capture.State.{Service, Machine, TunPlan, TunResult, no_result}
use navo.Service.Capture.Core.{lease_world, remember_system_proxy_warm, invalidate_warm}
use navo.Service.Capture.Runtime.{
  set_tun_runtime, set_tun_runtime_with_plan, set_system_proxy_runtime,
}
use navo.Service.Capture.Prepare.{
  stopped, proxy_running, tun_running, TunPreparation, prepare_off, prepare_system_proxy, run_tun,
  prepare_tun, tunnel,
}
use navo.Service.Capture.Steps.{
  done-Succeeds, step, after, lifted, expected, checked, recoding-Succeeds, expected-last,
  after-Untouched,
}
use navo.Service.Capture.Moves.{
  Launched, Launched-flags, after-IsLaunched, start_core_for_capture-IsLaunched,
}
use navo.Service.Capture.Applied.{IsStill, applying-IsStill}
use navo.Service.Capture.Committed.{
  commit_healthy_runtime-Committed, verify_selected_outbound_reachable-Untouched,
  pin_system_proxy_endpoint-Untouched, gather_tun_preparation-Untouched, activate_network-Activated,
}

module _ {E M V W : Type 0} where
  -- The runtime's config is the one that was last known good.
  abbrev pub IsCommitted : Service E M V W → Type 0
  IsCommitted s =
      (s.runtime.revision_status ≡ "active")
      × (s.runtime.active_outbound ≡ s.runtime.selected_outbound)
      × (s.runtime.last_known_good ≡ s.config_path)

  -- Nothing of TUN is left in the service.
  abbrev pub HasNoTun : Service E M V W → Type 0
  HasNoTun s = (s.manager ≡ none) × (s.tun ≡ no_result) × (s.runtime.tun_enabled ≡ false)

  pub record IsOff (s : Service E M V W) : Type 0 where
    pub core : s.supervisor.state ≡ State.stopped
    pub no_tun : HasNoTun s
    pub no_plan : s.tun_plan ≡ none

  pub record IsProxied (s : Service E M V W) : Type 0 where
    pub launched : Launched s.config_path s.supervisor
    pub no_tun : HasNoTun s
    pub committed : IsCommitted s

  -- TUN is up for the session of the plan, with a manager to take the network back.
  pub record IsTunnelled (verification : W) (s : Service E M V W) : Type 0 where
    pub launched : Launched s.config_path s.supervisor
    pub manager : M
    pub managed : s.manager ≡ some manager
    pub enabled : s.runtime.tun_enabled ≡ true
    pub plan : TunPlan
    pub planned : s.tun_plan ≡ some plan
    pub session : s.tun.session_id ≡ plan.network.session_id
    pub stage : s.tun.stage ≡ some Stage.health_committed
    pub verified : s.tun.verification ≡ some verification
    pub committed : IsCommitted s

module _ {E M V W : Type 0} (machine : Machine E M V W) (blank : V) where
  set_tun_runtime_with_plan-IsStill :
      (m : Option M) (t : TunResult W) (p : Option TunPlan) (before : Bool) (name : String)
      (mtu : ℕ) (plan : TunPlan) (s : Service E M V W)
      → IsStill m t p before s tt
      → Succeeds
          (IsStill m t (some plan) true)
          (set_tun_runtime_with_plan machine blank true name mtu plan s)
  unfolding set_tun_runtime_with_plan
  set_tun_runtime_with_plan-IsStill m t p before name mtu plan s i = expected _ _ _ _ (λ owned _.
      applying-IsStill machine blank m t p true before _ (some plan) _ s (λ r. refl)
        (λ outbounds s'. expected-last _ _ _ (λ _. (s'.env, refl))) i)

  set_system_proxy_runtime-IsStill :
      (m : Option M) (t : TunResult W) (p : Option TunPlan) (before : Bool) (name : String)
      (mtu : ℕ) (s : Service E M V W)
      → IsStill m t p before s tt
      → Succeeds (IsStill m t none false) (set_system_proxy_runtime machine blank name mtu s)
  unfolding set_system_proxy_runtime
  set_system_proxy_runtime-IsStill m t p before name mtu s i = expected _ _ _ _ (λ owned _.
      step _ _ _ (
        applying-IsStill machine blank m t p false before _ none _ s (λ r. refl)
          (λ outbounds s'. pin_system_proxy_endpoint-Untouched machine _ outbounds s') i))

  set_tun_runtime-IsStill :
      (m : Option M) (t : TunResult W) (p : Option TunPlan) (before : Bool) (name : String)
      (mtu : ℕ) (s : Service E M V W)
      → IsStill m t p before s tt
      → Succeeds (IsStill m t none false) (set_tun_runtime machine blank false name mtu s)
  unfolding set_tun_runtime
  set_tun_runtime-IsStill m t p before name mtu s i = expected _ _ _ _ (λ owned _.
      applying-IsStill machine blank m t p false before _ none _ s (λ r. refl)
        (λ outbounds s'. done-Succeeds _ _ (s'.env, refl)) i)

  -- Switching off.
  pub prepare_off-IsOff :
      (s : Service E M V W)
      → s.supervisor.state ≡ State.stopped
      → s.manager ≡ none
      → s.tun ≡ no_result
      → Succeeds (λ s' p. (p ≡ stopped) × IsOff s') (prepare_off machine blank s)
  unfolding prepare_off
  prepare_off-IsOff s down free clear = step _ _ _ (
      after (IsStill none no_result none false) _ _
        (set_tun_runtime-IsStill none no_result s.tun_plan s.runtime.tun_enabled _ _ s
          (down, free, clear, refl, refl))
        (λ s' _ i.
          done-Succeeds _ _ (refl, record { core = i.0; no_tun = (i.1, i.2, i.4); no_plan = i.3 })))

  -- A lease that is remembered changes nothing that is told here.
  remember-IsProxied :
      (verification : V) (s : Service E M V W)
      → IsProxied s
      → IsProxied (remember_system_proxy_warm machine blank verification s)
  unfolding remember_system_proxy_warm invalidate_warm set_warm_idle
  remember-IsProxied verification s i =
      let world = lease_world machine false s in
      elim (Bool-cases (is_some (current_identity world.status world.runtime))) [
        | inl known ↦
            rw (remember_system_proxy_warm, known)
              (record { launched = i.launched; no_tun = i.no_tun; committed = i.committed })
        | inr other ↦
            rw (remember_system_proxy_warm, other)
              (record {
                launched =
                    Launched-flags s.config_path false s.supervisor.restart_suppressed s.supervisor
                      i.launched;
                no_tun = i.no_tun;
                committed = i.committed;
              })
      ]

  -- The system proxy.
  pub prepare_system_proxy-IsProxied :
      (s : Service E M V W)
      → s.supervisor.state ≡ State.stopped
      → s.manager ≡ none
      → s.tun ≡ no_result
      → Succeeds
          (λ s' p. (v : V) × (p ≡ proxy_running v) × IsProxied s')
          (prepare_system_proxy machine blank s)
  unfolding prepare_system_proxy
  prepare_system_proxy-IsProxied s down free clear =
      after-Untouched s _ _ (verify_selected_outbound_reachable-Untouched machine s) (λ env _.
        let reached = record s { env = env } in
        step _ _ _ (
          after (IsStill none no_result none false) _ _
            (set_system_proxy_runtime-IsStill none no_result s.tun_plan s.runtime.tun_enabled _ _
              reached (down, free, clear, refl, refl))
            (λ s1 _ i.
              after-IsLaunched s1 _ _ (start_core_for_capture-IsLaunched machine s1 i.0)
                (λ env1 sup _ up. step _ _ _ (
                  step _ _ _ (
                    lifted _ _ _ (λ v.
                      after _ _ _ (commit_healthy_runtime-Committed machine _) (λ s2 _ c.
                        step _ _ _ (
                          done-Succeeds _ _ (
                            v,
                            refl,
                            remember-IsProxied v s2 (
                                subst IsProxied (sym c.1) (record {
                                  launched = up;
                                  no_tun = (i.1, i.2, i.4);
                                  committed = (refl, refl, refl);
                                })),
                          ))))))))))

  abbrev staged : Stage → Service E M V W → Service E M V W
  staged stage s = record s { tun = record s.tun { stage = some stage } }

  -- TUN, from the planned manager on.
  run_tun-IsTunnelled :
      (p : TunPreparation) (s : Service E M V W)
      → s.supervisor.state ≡ State.stopped
      → Succeeds
          (λ s' q. (w : W) × (q ≡ tun_running w) × IsTunnelled w s')
          (run_tun machine blank p s)
  unfolding run_tun
  run_tun-IsTunnelled p s down = lifted _ _ _ (λ m. step _ _ _ (
      step _ _ _ (
        after (IsStill (some m) s.tun (some p.plan) true) _ _
          (set_tun_runtime_with_plan-IsStill (some m) s.tun s.tun_plan s.runtime.tun_enabled _ _
            p.plan (record s { manager = some m }) (down, refl, refl, refl, refl))
          (λ s1 _ i. step _ _ _ (
            after-IsLaunched (staged Stage.config_compiled s1) _ _
              (recoding-Succeeds _ _ _
                (start_core_for_capture-IsLaunched machine (staged Stage.config_compiled s1) i.0))
              (λ env1 sup _ up. step _ _ _ (
                after _ _ _
                  (activate_network-Activated machine m
                    (staged Stage.core_started (record s1 { env = env1; supervisor = sup })))
                  (λ s2 adapter a. step _ _ _ (
                    step _ _ _ (
                      lifted _ _ _ (λ w. step _ _ _ (
                        after _ _ _ (commit_healthy_runtime-Committed machine _) (λ s3 _ c.
                          step _ _ _ (
                            done-Succeeds _ _ (
                              w,
                              refl,
                              subst
                                  (λ (now : Service E M V W).
                                    IsTunnelled w (record now { tun = tunnel p adapter w }))
                                  (sym c.1)
                                  (record {
                                    launched =
                                        subst
                                          (λ (now : Service E M V W).
                                            Launched now.config_path now.supervisor)
                                          (sym a.3) up;
                                    manager = a.1;
                                    managed = ap (λ (now : Service E M V W). now.manager) a.3;
                                    enabled =
                                        ap (λ (now : Service E M V W). now.runtime.tun_enabled) a.3
                                        ∙ i.4;
                                    plan = p.plan;
                                    planned =
                                        ap (λ (now : Service E M V W). now.tun_plan) a.3 ∙ i.3;
                                    session = refl;
                                    stage = refl;
                                    verified = refl;
                                    committed = (refl, refl, refl);
                                  }),
                            )))))))))))))))

  abbrev checking : M → Service E M V W → Service E M V W
  checking m s =
      staged Stage.preflight
        (record s { env = (machine.network.preflight m s.env).0; manager = some m })

  -- TUN.
  pub prepare_tun-IsTunnelled :
      (s : Service E M V W)
      → s.supervisor.state ≡ State.stopped
      → Succeeds
          (λ s' q. (w : W) × (q ≡ tun_running w) × IsTunnelled w s')
          (prepare_tun machine blank s)
  unfolding prepare_tun
  prepare_tun-IsTunnelled s down = lifted _ _ _ (λ m. step _ _ _ (
      step _ _ _ (
        step _ _ _ (
          checked _ _ _ (
            after-Untouched (checking m s) _ _
              (gather_tun_preparation-Untouched machine (checking m s))
              (λ env p. step _ _ _ (run_tun-IsTunnelled p _ down)))))))
