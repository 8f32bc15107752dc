-- ===== src/Service/Capture/Handled.antt =====
-- internal/service/capture_transition.go, handleCapturePrepare: what its answer tells of the service.
use navo.Base.{
  ℕ, ◌≡◌, inl, inr, refl, subst, String, Bool, true, false, Option, none, Option-cases, is_some,
}
use navo.Base.Int.{ℤ}
use navo.Supervisor.Lifecycle.{set_restart_suppressed}
use navo.Service.Capture.Action.{Error, Outcome, ok, fails, Succeeds, join_errors}
use navo.Service.Capture.State.{Mode, off, is_tun, parse_mode, Fault, Service, Machine}
use navo.Service.Capture.Core.{clear_tun_fault}
use navo.Service.Capture.Prepare.{
  Prepared, warm_reused, warm_retained, stopped, proxy_running, tun_running, prepare_capture,
  rollback_capture,
}
use navo.Service.Capture.Handler.{
  PrepareMessage, Response, refused, prepared, error_code, combined, tun_options, suppress,
  report_fault, finish_switch, switch_capture, handle_capture_prepare,
}
use navo.Service.Capture.Moves.{Launched-flags}
use navo.Service.Capture.Outcome.{IsIn, prepare_capture-IsIn}
use navo.Service.Capture.Rollback.{IsMachine, IsDown, rollback_capture-IsDown}

module _ {E M V W : Type 0} (machine : Machine E M V W) (blank : V) (ttl : ℤ) where
  abbrev settled : Service E M V W → Service E M V W
  settled s = suppress machine blank ttl false (clear_tun_fault s)

  IsIn-settled :
      (mode : Mode) (s : Service E M V W) (p : Prepared V W)
      → IsIn mode s p
      → IsIn mode (settled s) p
  unfolding set_restart_suppressed
  IsIn-settled off s stopped i = record { core = i.core; no_tun = i.no_tun; no_plan = i.no_plan }
  IsIn-settled off s (warm_retained lease) i = i
  IsIn-settled Mode.system_proxy s (proxy_running v) i = record {
    launched = Launched-flags s.config_path s.supervisor.warm_idle false s.supervisor i.launched;
    no_tun = i.no_tun;
    committed = i.committed;
  }
  IsIn-settled Mode.system_proxy s (warm_reused lease) i = i
  IsIn-settled Mode.tun s (tun_running w) i = record {
    launched = Launched-flags s.config_path s.supervisor.warm_idle false s.supervisor i.launched;
    manager = i.manager;
    managed = i.managed;
    enabled = i.enabled;
    plan = i.plan;
    planned = i.planned;
    session = i.session;
    stage = i.stage;
    verified = i.verified;
    committed = i.committed;
  }
  IsIn-settled off s (warm_reused lease) i = elim i [ ]
  IsIn-settled off s (proxy_running v) i = elim i [ ]
  IsIn-settled off s (tun_running w) i = elim i [ ]
  IsIn-settled Mode.system_proxy s stopped i = elim i [ ]
  IsIn-settled Mode.system_proxy s (warm_retained lease) i = elim i [ ]
  IsIn-settled Mode.system_proxy s (tun_running w) i = elim i [ ]
  IsIn-settled Mode.tun s stopped i = elim i [ ]
  IsIn-settled Mode.tun s (warm_reused lease) i = elim i [ ]
  IsIn-settled Mode.tun s (warm_retained lease) i = elim i [ ]
  IsIn-settled Mode.tun s (proxy_running v) i = elim i [ ]

  -- What an answer tells.
  abbrev Tells : Service E M V W × Response V W → Type 0
  Tells (s, refused code) = Unit
  Tells (s, prepared mode runtime_mode p) =
      IsIn mode s p
      × (s.fault ≡ none)
      × (runtime_mode ≡ s.runtime.mode)
      × (s.supervisor.restart_suppressed ≡ false)

  finish_switch-Tells :
      (mode : Mode) (x : Service E M V W × Outcome (Prepared V W))
      → Succeeds (IsIn mode) x
      → Tells (finish_switch machine blank ttl mode x)
  unfolding finish_switch set_restart_suppressed
  finish_switch-Tells mode (s, ok p) h = (IsIn-settled mode s p h.holds, refl, refl, refl)
  finish_switch-Tells mode (s, fails e) h = tt

  switch_capture-Tells :
      (mode : Mode) (retain : Bool) (s : Service E M V W)
      → Tells (switch_capture machine blank ttl mode retain s)
  unfolding switch_capture
  switch_capture-Tells mode retain s =
      finish_switch-Tells mode _ (prepare_capture-IsIn machine blank ttl mode retain _)

  handle_capture_prepare-Tells :
      (msg : PrepareMessage) (s : Service E M V W)
      → Tells (handle_capture_prepare machine blank ttl msg s)
  unfolding handle_capture_prepare
  handle_capture_prepare-Tells msg s = elim (Option-cases (parse_mode msg.mode)) [
    | inl bad ↦ rw (handle_capture_prepare, bad) tt
    | inr (mode, good) ↦ elim (Option-cases (tun_options msg mode s.runtime).0) [
      | inr (code, wrong) ↦ rw (handle_capture_prepare, good, wrong) tt
      | inl fine ↦ rw (handle_capture_prepare, good, fine) (switch_capture-Tells mode _ _)
    ]
  ]

  -- An answer without an error: the service is in the mode that the answer names, without a fault, in the routing
  -- mode that the answer names, and the supervisor may restart the core again. Switched off, nothing of TUN is left
  -- and the core is stopped, or runs on as a warm core. With the system proxy, the core goes on as the warm core, or
  -- it runs without TUN. With TUN, a network manager is there to take the network back, and the session of the plan is
  -- committed with the verification in the answer. In these two, unless the core was warm, the last thing that the
  -- host was asked is to start it on the service's config, it runs on that, and that config is committed as the one
  -- last known to be good.
  pub handle_capture_prepare-IsIn :
      (msg : PrepareMessage) (s : Service E M V W) {mode : Mode} {runtime_mode : String}
      {p : Prepared V W}
      → (handle_capture_prepare machine blank ttl msg s).1 ≡ prepared mode runtime_mode p
      → IsIn mode (handle_capture_prepare machine blank ttl msg s).0 p
        × ((handle_capture_prepare machine blank ttl msg s).0.fault ≡ none)
        × (runtime_mode ≡ (handle_capture_prepare machine blank ttl msg s).0.runtime.mode)
        × ((handle_capture_prepare machine blank ttl msg s).0.supervisor.restart_suppressed ≡ false)
  handle_capture_prepare-IsIn msg s answered =
      subst (λ answer. Tells ((handle_capture_prepare machine blank ttl msg s).0, answer)) answered
        (handle_capture_prepare-Tells msg s)

module _ {E M V W : Type 0} (machine : Machine E M V W) (blank : V) (ttl : ℤ)
    (Released Missing : E → Type 0) (laws : IsMachine Released Missing machine) where
  -- The fault and the supervisor's flag do not count.
  again :
      (fault : Option (ℕ × Fault)) (s : Service E M V W)
      → IsDown Released Missing s
      → IsDown Released Missing (suppress machine blank ttl false (record s { fault = fault }))
  unfolding set_restart_suppressed
  again fault s i = record {
    core = i.core;
    no_manager = i.no_manager;
    released = i.released;
    adapter = i.adapter;
    not_enabled = i.not_enabled;
    no_plan = i.no_plan;
    no_result = i.no_result;
  }

  reported :
      (mode : Mode) (e : Error) (s : Service E M V W)
      → IsDown Released Missing s
      → IsDown Released Missing
          (suppress machine blank ttl false (report_fault machine blank ttl mode e s))
        × (is_some (report_fault machine blank ttl mode e s).fault ≡ is_tun mode)
  reported off e s i = (again _ s i, refl)
  reported Mode.system_proxy e s i = (again _ s i, refl)
  reported Mode.tun e s i = (again _ s i, refl)

  -- On a machine that keeps its laws: a switch whose preparation fails, with the network released where it left no
  -- manager, and that is rolled back without an error leaves the service down: the core is stopped, the network and
  -- the adapter are released and no TUN result is left. The answer has the error's code, a fault is set if the mode
  -- is TUN and cleared otherwise, and the supervisor may restart the core again.
  pub switch_capture-failed :
      (mode : Mode) (retain : Bool) (s failed : Service E M V W) (e : Error)
      → prepare_capture machine blank ttl mode retain (suppress machine blank ttl true s)
        ≡ (failed, fails e)
      → (failed.manager ≡ none → Released failed.env)
      → (rollback_capture machine failed).1 ≡ none
      → IsDown Released Missing (switch_capture machine blank ttl mode retain s).0
        × ((switch_capture machine blank ttl mode retain s).1 ≡ refused (error_code e))
        × (is_some (switch_capture machine blank ttl mode retain s).0.fault ≡ is_tun mode)
        × ((switch_capture machine blank ttl mode retain s).0.supervisor.restart_suppressed ≡ false)
  unfolding switch_capture finish_switch combined join_errors set_restart_suppressed
  switch_capture-failed mode retain s failed e run held back =
      let down = rollback_capture-IsDown machine Released Missing laws failed held back in
      let told = reported mode e (rollback_capture machine failed).0 down in
      rw (run, back) (told.0, refl, told.1, refl)
