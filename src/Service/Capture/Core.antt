-- ===== src/Service/Capture/Core.antt =====
-- The small steps of internal/service/capture_transition.go and runtime.go: the core, the warm lease, the
-- stage, the fault and the runtime's TUN fields. Locks are left out: a transition holds captureMu.
use navo.Base.{
  ℕ, String, Bool, true, false, ◌||◌, Option, none, some, List, [], ◌∷◌, str_eq, ◌==◌,
  if◌then◌else◌, is_some,
}
use navo.Base.Int.{ℤ, pos, leb_ℤ}
use navo.Base.Text.{codes, trim_space, to_lower, same_codes}
use navo.Supervisor.Lifecycle.{Supervisor, start, stop, swap_config, set_warm_idle}
use navo.Supervisor.State.{State}
use navo.Network.Activation.{Stage}
use navo.Service.Lease.{
  Status, World, is_running, current_identity, invalidate, remember_warm, retain_warm, resume_warm,
}
use navo.Service.Capture.Action.{
  plain, Action, ok, ◌>>=◌, ◌>>◌, throw, get, update, require, return, branch,
}
use navo.Service.Capture.State.{RuntimeState, no_result, Fault, Service, Machine}

abbrev pub owned_tun_adapter_name : String
owned_tun_adapter_name = "Navo"

-- normalizeOwnedTUNName
unfoldable pub normalize_owned_tun_name : String → Option String
normalize_owned_tun_name name =
    let owned : String = "navo" in
    if str_eq (trim_space name) "" || same_codes (to_lower (trim_space name)) (codes owned)
    then some owned_tun_adapter_name
    else none

-- runtimeTUNConfig; runtimeTUNName is its first part.
unfoldable pub runtime_tun_config : RuntimeState → String × ℕ
runtime_tun_config r = (owned_tun_adapter_name, if r.tun_mtu == 0 then 1500 else r.tun_mtu)

abbrev fault_id : ℕ → Option (ℕ × Fault) → ℕ
fault_id now none = now
fault_id now (some old) = old.0

module _ {E M V W : Type 0} where
  abbrev pub set_env : E → Service E M V W → Service E M V W
  set_env env s = record s { env = env }

  -- An operation of the machine.
  abbrev pub ask : {A : Type 0} → (E → E × A) → Action (Service E M V W) A
  ask f s = let (env, answer) = f s.env in (record s { env = env }, ok answer)

  abbrev pub act : (E → E) → Action (Service E M V W) (Unit {0})
  act f s = (record s { env = f s.env }, ok tt)

  -- setTUNStage
  abbrev pub set_tun_stage : Stage → Service E M V W → Service E M V W
  set_tun_stage stage s = record s { tun = record s.tun { stage = some stage } }

  abbrev pub set_tun_stages : List Stage → Service E M V W → Service E M V W
  set_tun_stages [] s = s
  set_tun_stages (stage ∷ stages) s = set_tun_stages stages (set_tun_stage stage s)

  -- clearTUNRuntimeResult
  abbrev pub clear_tun_runtime_result : Service E M V W → Service E M V W
  clear_tun_runtime_result s = record s { tun = no_result }

  -- setTUNFault and clearTUNFault; a fault keeps the id of the one before.
  abbrev pub set_tun_fault : ℕ → Fault → Service E M V W → Service E M V W
  set_tun_fault now fault s = record s { fault = some (fault_id now s.fault, fault) }

  abbrev pub clear_tun_fault : Service E M V W → Service E M V W
  clear_tun_fault s = record s { fault = none }

  -- resetTUNRuntimeAfterRollback
  abbrev pub reset_tun_runtime_after_rollback : Service E M V W → Service E M V W
  reset_tun_runtime_after_rollback s = record s {
    runtime = record s.runtime { tun_enabled = false; tun_outbound_interface = "" };
    tun_plan = none;
  }

  -- s.sup.Start, s.sup.Stop and s.sup.SwapConfig; the text of an error is left out.
  unfoldable pub start_supervisor : Machine E M V W → String → Action (Service E M V W) (Unit {0})
  start_supervisor machine path s =
      let (env, answers) = machine.start_core path s.env in
      let (supervisor, done) = start answers path s.supervisor in
      require plain done (record s { env = env; supervisor = supervisor })

  unfoldable pub stop_supervisor : Machine E M V W → Action (Service E M V W) (Unit {0})
  stop_supervisor machine s =
      let (env, error) = machine.stop_core s.env in
      let (supervisor, done) = stop error s.supervisor in
      require plain done (record s { env = env; supervisor = supervisor })

  unfoldable pub swap_supervisor : Machine E M V W → String → Action (Service E M V W) (Unit {0})
  swap_supervisor machine path s =
      let (env, answers) = machine.swap_core path s.env in
      let (supervisor, done) = swap_config answers path s.supervisor in
      require plain done (record s { env = env; supervisor = supervisor })

  -- stopCoreForCapture, in the state that the core is in.
  unfoldable pub stop_from : Machine E M V W → State → Action (Service E M V W) (Unit {0})
  stop_from machine State.stopped s = (s, ok tt)
  stop_from machine State.running s = stop_supervisor machine s
  stop_from machine State.degraded s = stop_supervisor machine s
  stop_from machine State.failed s = stop_supervisor machine s
  stop_from machine State.starting s = stop_supervisor machine s
  stop_from machine _ s = throw plain s

  abbrev pub stop_core_for_capture : Machine E M V W → Action (Service E M V W) (Unit {0})
  stop_core_for_capture machine s = stop_from machine s.supervisor.state s

  -- startCoreForCapture
  unfoldable pub start_core_for_capture : Machine E M V W → Action (Service E M V W) (Unit {0})
  start_core_for_capture machine s =
      if is_running s.supervisor.state
      then (s, ok tt)
      else if str_eq s.config_path ""
      then throw plain s
      else start_supervisor machine s.config_path s

  -- What the warm lease reads of the service.
  unfoldable pub lease_status : Machine E M V W → Service E M V W → Status
  lease_status machine s =
      let (pid, hash) = machine.core_status s.env in
      record { state = s.supervisor.state; pid = pid; config_hash = hash }

  unfoldable pub lease_world : Machine E M V W → Bool → Service E M V W → World
  lease_world machine healthy s = record {
    status = lease_status machine s;
    runtime = record {
      core_id = s.runtime.core_id;
      selected_outbound = s.runtime.selected_outbound;
      active_outbound = s.runtime.active_outbound;
      revision_id = s.runtime.revision_id;
      revision_status = s.runtime.revision_status;
      config_hash = s.runtime.config_hash;
      config_path = s.config_path;
      tun_enabled = s.runtime.tun_enabled;
    };
    healthy = healthy;
    now = machine.now s.env;
  }

  -- invalidateSystemProxyWarmLocked, with the supervisor's flag.
  unfoldable pub invalidate_warm : V → Service E M V W → Service E M V W
  invalidate_warm blank s = record s {
    warm = invalidate blank s.warm;
    supervisor = set_warm_idle false s.supervisor;
  }

  -- systemProxyCoreHealthy, asked when there is an identity to compare.
  unfoldable pub ask_health : Machine E M V W → Action (Service E M V W) Bool
  ask_health machine s =
      let world = lease_world machine false s in
      branch (is_some (current_identity world.status world.runtime)) (ask machine.healthy)
        (return false) s

  -- resumeSystemProxyWarmLocked, with the supervisor's flag.
  unfoldable pub resume_system_proxy_warm :
      Machine E M V W → V → Action (Service E M V W) (Option (V × ℕ))
  resume_system_proxy_warm machine blank = do
    healthy ← ask_health machine
    world ← get (lease_world machine healthy)
    resumed ← get (λ s. resume_warm blank world s.warm)
    let flag = λ (supervisor : Supervisor).
        if is_some resumed.1 then set_warm_idle false supervisor else supervisor
    update (λ s. record s { warm = resumed.0; supervisor = flag s.supervisor })
    return resumed.1

  -- retainSystemProxyWarmLocked, with the supervisor's flag.
  unfoldable pub retain_system_proxy_warm :
      Machine E M V W → V → ℤ → Action (Service E M V W) (Option (V × ℕ))
  retain_system_proxy_warm machine blank ttl = do
    healthy ← branch (leb_ℤ ttl (pos 0)) (return false) (ask_health machine)
    world ← get (lease_world machine healthy)
    retained ← get (λ s. retain_warm blank ttl world s.warm)
    let flag = λ (supervisor : Supervisor).
        if is_some retained.1 then set_warm_idle true supervisor else supervisor
    update (λ s. record s { warm = retained.0; supervisor = flag s.supervisor })
    return retained.1

  -- rememberSystemProxyWarmLocked; it clears the flag only where it invalidates the lease.
  unfoldable pub remember_system_proxy_warm :
      Machine E M V W → V → V → Service E M V W → Service E M V W
  remember_system_proxy_warm machine blank verification s =
      let world = lease_world machine false s in
      if is_some (current_identity world.status world.runtime)
      then record s { warm = remember_warm blank world verification s.warm }
      else invalidate_warm blank s
