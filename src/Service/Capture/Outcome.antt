-- ===== src/Service/Capture/Outcome.antt =====
-- internal/service/capture_transition.go: the service after a switch that succeeds.
use navo.Base.{
  ℕ, ◌≡◌, inl, inr, refl, sym, ap, ◌∙◌, subst, Bool, true, false, Option, none, some, Option-cases,
  is_some, arith,
}
use navo.Base.Int.{ℤ}
use navo.Supervisor.State.{State}
use navo.Supervisor.Lifecycle.{set_warm_idle}
use navo.Service.Lease.{
  World, Warm, Status, Runtime, current_identity, is_running, resume_warm, retain_warm,
}
use navo.Service.Capture.Action.{Action, Outcome, ok, fails, Succeeds, branch, return}
use navo.Service.Capture.State.{Mode, off, is_system_proxy, Service, Machine, no_result}
use navo.Service.Capture.Core.{
  ask_health, lease_world, lease_status, resume_system_proxy_warm, retain_system_proxy_warm,
  invalidate_warm,
}
use navo.Service.Capture.Prepare.{
  Prepared, warm_reused, warm_retained, stopped, proxy_running, tun_running, served, prepare_mode,
  switch_mode, keep_warm, prepare_cold, prepare_capture,
}
use navo.Service.Capture.Steps.{
  done-Succeeds, step, after, required, either-Succeeds, Succeeds-map, Untouched, after-Untouched,
}
use navo.Service.Capture.Moves.{after-InState, stop_core_for_capture-InState, is_running-running}
use navo.Service.Capture.Committed.{cleanup_tun_for_capture-Clean}
use navo.Service.Capture.Switched.{
  HasNoTun, IsOff, IsProxied, IsTunnelled, prepare_off-IsOff, prepare_system_proxy-IsProxied,
  prepare_tun-IsTunnelled,
}

current_identity-running :
    (status : Status) (r : Runtime)
    → is_some (current_identity status r) ≡ true
    → (is_running status.state ≡ true) × (r.tun_enabled ≡ false)
unfolding current_identity
current_identity-running status r h = ground arith

module _ {V : Type 0} (blank : V) where
  resume_warm-known :
      (world : World) (w : Warm V)
      → is_some (resume_warm blank world w).1 ≡ true
      → is_some (current_identity world.status world.runtime) ≡ true
  unfolding resume_warm
  resume_warm-known world w h = elim (Option-cases (current_identity world.status world.runtime)) [
    | inl none_is ↦ absurd (ground (arith, none_is))
    | inr (identity, known) ↦ rw known refl
  ]

  retain_warm-known :
      (ttl : ℤ) (world : World) (w : Warm V)
      → is_some (retain_warm blank ttl world w).1 ≡ true
      → is_some (current_identity world.status world.runtime) ≡ true
  unfolding retain_warm
  retain_warm-known ttl world w h =
      elim (Option-cases (current_identity world.status world.runtime)) [
        | inl none_is ↦ absurd (ground (arith, none_is))
        | inr (identity, known) ↦ rw known refl
      ]

module _ {E M V W : Type 0} where
  -- A core that runs without TUN; the flag says whether it idles.
  abbrev pub RunsIdle : Bool → Service E M V W → Type 0
  RunsIdle idle s =
      (s.supervisor.state ≡ State.running)
      × (s.runtime.tun_enabled ≡ false)
      × (s.supervisor.warm_idle ≡ idle)

  -- What a switch to a mode that ends this way leaves.
  abbrev pub IsIn : Mode → Service E M V W → Prepared V W → Type 0
  IsIn off s stopped = IsOff s
  IsIn off s (warm_retained lease) = HasNoTun s × RunsIdle true s
  IsIn Mode.system_proxy s (proxy_running verification) = IsProxied s
  IsIn Mode.system_proxy s (warm_reused lease) = RunsIdle false s
  IsIn Mode.tun s (tun_running verification) = IsTunnelled verification s
  IsIn _ s _ = ⊥

module _ {E M V W : Type 0} (machine : Machine E M V W) (blank : V) where
  ask_health-Untouched : (s : Service E M V W) → Succeeds (Untouched s) (ask_health machine s)
  unfolding ask_health
  ask_health-Untouched s =
      either-Succeeds _ _ _ _ (done-Succeeds _ _ (_, refl)) (done-Succeeds _ _ (s.env, refl))

  -- A lease that is used again serves a core that runs without TUN.
  resume-RunsIdle :
      (s : Service E M V W)
      → Succeeds
          (λ s' resumed. is_some resumed ≡ true → RunsIdle false s')
          (resume_system_proxy_warm machine blank s)
  unfolding resume_system_proxy_warm lease_world lease_status set_warm_idle
  resume-RunsIdle s = after-Untouched s _ _ (ask_health-Untouched s) (λ env healthy.
      let world = lease_world machine healthy (record s { env = env }) in
      step _ _ _ (
        step _ _ _ (
          step _ _ _ (
            done-Succeeds _ _ (λ used.
              let known =
                current_identity-running world.status world.runtime
                  (resume_warm-known blank world s.warm used) in
              let up = is_running-running s.supervisor.state known.0 in
              rw used (up, known.1, refl))))))

  retain-RunsIdle :
      (ttl : ℤ) (s : Service E M V W)
      → Succeeds
          (λ s' kept.
            (is_some kept ≡ true → RunsIdle true s') × (s'.manager ≡ s.manager) × (s'.tun ≡ s.tun))
          (retain_system_proxy_warm machine blank ttl s)
  unfolding retain_system_proxy_warm lease_world lease_status set_warm_idle
  retain-RunsIdle ttl s =
      after-Untouched s _ _
        (either-Succeeds _ _ _ _ (done-Succeeds _ _ (s.env, refl)) (ask_health-Untouched s))
        (λ env healthy.
          let world = lease_world machine healthy (record s { env = env }) in
          step _ _ _ (
            step _ _ _ (
              step _ _ _ (
                done-Succeeds _ _ (
                  λ kept.
                      let known =
                        current_identity-running world.status world.runtime
                          (retain_warm-known blank ttl world s.warm kept) in
                      let up = is_running-running s.supervisor.state known.0 in
                      rw kept (up, known.1, known.0),
                  refl,
                  refl,
                )))))

  -- Past a warm core that serves the mode, or not.
  served-Succeeds :
      (P : Service E M V W → Prepared V W → Type 0) (s : Service E M V W) (o : Option (V × ℕ))
      (answer : V × ℕ → Prepared V W) (rest : Action (Service E M V W) (Prepared V W))
      → ((lease : V × ℕ) → o ≡ some lease → P s (answer lease))
      → Succeeds P (rest s)
      → Succeeds P (served machine o answer rest s)
  unfolding served
  served-Succeeds P s none answer rest hs hn = hn
  served-Succeeds P s (some lease) answer rest hs hn = done-Succeeds s _ (hs lease refl)

  prepare_mode-IsIn :
      (mode : Mode) (s : Service E M V W)
      → s.supervisor.state ≡ State.stopped
      → s.manager ≡ none
      → s.tun ≡ no_result
      → Succeeds (IsIn mode) (prepare_mode machine blank mode s)
  prepare_mode-IsIn off s down free clear =
      Succeeds-map _ _ (λ s' p h. subst (IsIn off s') (sym h.0) h.1)
        (prepare_off-IsOff machine blank s down free clear)
  prepare_mode-IsIn Mode.system_proxy s down free clear =
      Succeeds-map _ _ (λ s' p h. subst (IsIn Mode.system_proxy s') (sym h.1) h.2)
        (prepare_system_proxy-IsProxied machine blank s down free clear)
  prepare_mode-IsIn Mode.tun s down free clear =
      Succeeds-map _ _ (λ s' p h. subst (IsIn Mode.tun s') (sym h.1) h.2)
        (prepare_tun-IsTunnelled machine blank s down)

  switch_mode-IsIn :
      (mode : Mode) (s : Service E M V W) → Succeeds (IsIn mode) (switch_mode machine blank mode s)
  unfolding switch_mode
  switch_mode-IsIn mode s = step _ _ _ (
      after-InState State.stopped (invalidate_warm blank s) _ _
        (stop_core_for_capture-InState machine (invalidate_warm blank s))
        (λ env sup _ down. after _ _ _ (cleanup_tun_for_capture-Clean machine _) (λ s1 _ c.
          prepare_mode-IsIn mode s1
            (ap (λ (now : Service E M V W). now.supervisor.state) c.1 ∙ down)
            (ap (λ (now : Service E M V W). now.manager) c.1)
            (ap (λ (now : Service E M V W). now.tun) c.1))))

  keep_warm-Kept :
      (ttl : ℤ) (mode : Mode) (retain : Bool) (s : Service E M V W)
      → Succeeds
          (λ s' kept. (lease : V × ℕ) → kept ≡ some lease → IsIn mode s' (warm_retained lease))
          (keep_warm machine blank ttl mode retain s)
  unfolding keep_warm branch
  keep_warm-Kept ttl off true s = after _ _ _ (cleanup_tun_for_capture-Clean machine s) (λ s1 _ c.
      Succeeds-map _ _
        (λ s2 kept h lease same.
          let idle = h.0 (rw same refl) in
          (
            (
              h.1 ∙ ap (λ (now : Service E M V W). now.manager) c.1,
              h.2 ∙ ap (λ (now : Service E M V W). now.tun) c.1,
              idle.1,
            ),
            idle,
          ))
        (retain-RunsIdle ttl s1))
  keep_warm-Kept ttl off false s = done-Succeeds _ _ (λ lease same. cc)
  keep_warm-Kept ttl Mode.system_proxy retain s = done-Succeeds _ _ (λ lease same. cc)
  keep_warm-Kept ttl Mode.tun retain s = done-Succeeds _ _ (λ lease same. cc)

  prepare_cold-IsIn :
      (ttl : ℤ) (mode : Mode) (retain : Bool) (s : Service E M V W)
      → Succeeds (IsIn mode) (prepare_cold machine blank ttl mode retain s)
  unfolding prepare_cold
  prepare_cold-IsIn ttl mode retain s = step _ _ _ (
      after (λ _ _. Unit) _ _ (anything _)
        (λ s1 _ _. after _ _ _ (keep_warm-Kept ttl mode retain s1) (λ s2 kept h.
          served-Succeeds (IsIn mode) s2 kept warm_retained _ h (switch_mode-IsIn mode s2))))
    where
      anything : {A : Type 0} (x : Service E M V W × Outcome A) → Succeeds (λ _ _. Unit) x
      anything (s', ok a) = record { holds = tt }
      anything (s', fails e) = record { holds = tt }

  resumed-IsIn :
      (mode : Mode) (s : Service E M V W)
      → Succeeds
          (λ s' used. (lease : V × ℕ) → used ≡ some lease → IsIn mode s' (warm_reused lease))
          (branch (is_system_proxy mode) (resume_system_proxy_warm machine blank) (return none) s)
  unfolding branch
  resumed-IsIn off s = done-Succeeds _ _ (λ lease same. cc)
  resumed-IsIn Mode.tun s = done-Succeeds _ _ (λ lease same. cc)
  resumed-IsIn Mode.system_proxy s =
      Succeeds-map _ _ (λ s' used h lease same. h (rw same refl)) (resume-RunsIdle s)

  -- A switch that succeeds leaves the service in the mode.
  pub prepare_capture-IsIn :
      (ttl : ℤ) (mode : Mode) (retain : Bool) (s : Service E M V W)
      → Succeeds (IsIn mode) (prepare_capture machine blank ttl mode retain s)
  unfolding prepare_capture
  prepare_capture-IsIn ttl mode retain s = required _ _ _ _ (λ _.
      after _ _ _ (resumed-IsIn mode s) (λ s1 used h.
        served-Succeeds (IsIn mode) s1 used warm_reused _ h (prepare_cold-IsIn ttl mode retain s1)))
