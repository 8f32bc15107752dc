-- ===== src/Service/Capture/Prepare.antt =====
-- internal/service/capture_transition.go: a switch of the capture mode, its way back and the handler of
-- `capture.prepare`. The failure points of the tests are off; the response's texts are left out.
use navo.Base.{
  ℕ, String, Bool, true, false, not, ◌&&◌, ◌||◌, Option, none, some, List, str_eq, if◌then◌else◌,
  is_some,
}
use navo.Base.Int.{ℤ}
use navo.Base.Text.{trim_space}
use navo.Network.Manager.{AdapterSnapshot}
use navo.Network.Activation.{Stage}
use navo.Service.Outbound.{Outbound, find_outbound, is_direct_runtime, outbound_requires_udp}
use navo.Service.Capture.Action.{
  Error, plain, tun_error, transition_error, join_errors, Action, ok, fails, ◌>>=◌, ◌>>◌, return,
  throw, get, update, check, expect, lift, require, when, branch, failed_with, recoding,
}
use navo.Service.Capture.State.{
  Mode, off, is_off, is_system_proxy, AdapterState, TunResult, Service, Machine, TunPlan,
  VerifyRequest,
}
use navo.Service.Capture.Core.{
  ask, set_tun_stage, set_tun_stages, clear_tun_runtime_result, reset_tun_runtime_after_rollback,
  runtime_tun_config, stop_core_for_capture, start_core_for_capture, invalidate_warm,
  resume_system_proxy_warm, retain_system_proxy_warm, remember_system_proxy_warm,
}
use navo.Service.Capture.Runtime.{
  set_tun_runtime, set_tun_runtime_with_plan, set_system_proxy_runtime, commit_healthy_runtime,
}

abbrev is_missing : AdapterState → Bool
is_missing AdapterState.adapter_missing = true
is_missing _ = false

-- How a switch ends well: the lease's verification and its time where it is used or kept, and the fresh
-- verification of the routing or of TUN.
pub data Prepared (V W : Type 0) : Type 0 where
  warm_reused warm_retained : V × ℕ → Prepared V W
  stopped : Prepared V W
  proxy_running : V → Prepared V W
  tun_running : W → Prepared V W

pub record TunPreparation : Type 0 where
  pub direct_ip : String
  pub plan : TunPlan
  pub selected : Option Outbound
  pub direct_mode : Bool

-- setTUNRuntimeResult of a verified TUN.
abbrev pub tunnel : {W : Type 0} → TunPreparation → AdapterSnapshot → W → TunResult W
tunnel p adapter verification = record {
  stage = some Stage.health_committed;
  session_id = p.plan.network.session_id;
  adapter = adapter;
  verification = some verification;
}

module _ {E M V W : Type 0} (machine : Machine E M V W) where
  -- deactivateTUNNetwork, with the manager that is there.
  unfoldable pub deactivate_with : Option M → Action (Service E M V W) (Unit {0})
  deactivate_with none s = (s, ok tt)
  deactivate_with (some m) s =
      let (m', env, error) = machine.network.deactivate m s.env in
      elim error [
        | none ↦ (record s { env = env; manager = none }, ok tt)
        | some e ↦ (record s { env = env; manager = some m' }, fails e)
      ]

  abbrev pub deactivate_tun_network : Action (Service E M V W) (Unit {0})
  deactivate_tun_network s = deactivate_with s.manager s

  -- destroyTUNAdapter of the owned adapter's name.
  unfoldable pub destroy_tun_adapter : Action (Service E M V W) (Unit {0})
  destroy_tun_adapter = do
    existing ← ask machine.inspect_adapter
    branch (is_missing existing.state) (ask machine.destroy_adapter >>= check) (do
      not_opened ← ask machine.create_adapter
      branch (is_some not_opened)
          (ask machine.wait_missing >>= λ waited. require plain (not (is_some waited)))
          (ask machine.destroy_adapter >>= check))

  -- cleanupTUNForCaptureLocked
  unfoldable pub cleanup_tun_for_capture : Action (Service E M V W) (Unit {0})
  cleanup_tun_for_capture = do
    deactivate_tun_network
    destroy_tun_adapter
    waited ← ask machine.wait_missing
    check waited
    update clear_tun_runtime_result

  unfoldable pub verify_reachable : Option Outbound → Action (Service E M V W) (Unit {0})
  verify_reachable none = throw (transition_error "OUTBOUND_UNAVAILABLE")
  verify_reachable (some o) =
      ask (machine.probe_tcp o) >>= require (transition_error "OUTBOUND_UNREACHABLE")

  -- verifyOutboundReachability
  abbrev verify_outbound_reachability : String → List Outbound → Action (Service E M V W) (Unit {0})
  verify_outbound_reachability selected_id outbounds =
      verify_reachable (find_outbound selected_id outbounds)

  -- verifySelectedOutboundReachable
  unfoldable pub verify_selected_outbound_reachable : Action (Service E M V W) (Unit {0})
  verify_selected_outbound_reachable = do
    r ← get (λ s. s.runtime)
    let selected_id = trim_space r.selected_outbound
    branch (str_eq selected_id "")
        (require (transition_error "OUTBOUND_REQUIRED") (str_eq r.mode "direct"))
        (ask machine.outbounds >>= verify_outbound_reachability selected_id)

  -- gatherTUNPreparation with buildTUNActivationPlan: two readings, of which each may fail.
  unfoldable pub gather_tun_preparation : Action (Service E M V W) TunPreparation
  gather_tun_preparation = do
    r ← get (λ s. s.runtime)
    direct ← ask machine.capture_direct_ip
    outbounds ← ask machine.outbounds
    let selected = find_outbound r.selected_outbound outbounds
    let direct_mode = is_direct_runtime r.mode r.selected_outbound selected
    let host : String = elim selected [ none ↦ "" | some o ↦ if direct_mode then "" else o.server ]
    planned ←
        branch (not direct_mode && not (is_some selected))
          (return (fails (tun_error "TUN_ENDPOINT_RESOLVE_FAILED")))
          (ask (
            machine.build_plan (record {
              core_id = r.core_id;
              mtu = r.tun_mtu;
              selected_outbound_id = r.selected_outbound;
              original_server_host = host;
            })))
    interrupted ← ask machine.canceled
    require plain (not interrupted)
    direct_ip ← expect (tun_error "TUN_PREFLIGHT_FAILED") direct
    plan ← lift planned
    return (record {
      direct_ip = direct_ip;
      plan = plan;
      selected = selected;
      direct_mode = direct_mode;
    })

  -- manager.Activate, whose reports set the stage.
  unfoldable pub activate_network : M → Action (Service E M V W) AdapterSnapshot
  activate_network m s =
      let (m', env, stages, answer) = machine.network.activate m s.env in
      lift answer (set_tun_stages stages (record s { manager = some m'; env = env }))

  abbrev pub adopt : M → Action (Service E M V W) (Unit {0})
  adopt m = update (λ s. record s { manager = some m })

  abbrev stage : Stage → Action (Service E M V W) (Unit {0})
  stage value = update (set_tun_stage value)

  abbrev verify_request : TunPreparation → VerifyRequest
  verify_request p = record {
    session_id = p.plan.network.session_id;
    direct_ip = p.direct_ip;
    direct_mode = p.direct_mode;
    tun_dns_ipv4 = p.plan.network.tun_dns_ipv4;
    udp_required = p.direct_mode || outbound_requires_udp p.selected;
  }

  -- The second half of prepareTUNLocked, from the planned manager on.
  unfoldable pub run_tun : V → TunPreparation → Action (Service E M V W) (Prepared V W)
  run_tun blank p = do
    manager ← lift (machine.network.new_manager p.plan)
    adopt manager
    config ← get (λ s. runtime_tun_config s.runtime)
    set_tun_runtime_with_plan machine blank true config.0 config.1 p.plan
    stage Stage.config_compiled
    recoding (tun_error "TUN_CORE_START_FAILED") (start_core_for_capture machine)
    stage Stage.core_started
    adapter ← activate_network manager
    stage Stage.control_plane_verified
    answer ← ask (machine.verify_tun (verify_request p))
    verification ← lift answer
    stage Stage.data_plane_verified
    commit_healthy_runtime machine
    update (λ s. record s { tun = tunnel p adapter verification })
    return (tun_running verification)

  -- prepareTUNLocked
  unfoldable pub prepare_tun : V → Action (Service E M V W) (Prepared V W)
  prepare_tun blank = do
    recovery ← lift machine.network.recovery_manager
    adopt recovery
    stage Stage.preflight
    refused ← ask (machine.network.preflight recovery)
    check refused
    p ← gather_tun_preparation
    stage Stage.baseline_captured
    run_tun blank p

  unfoldable pub prepare_system_proxy : V → Action (Service E M V W) (Prepared V W)
  prepare_system_proxy blank = do
    verify_selected_outbound_reachable
    config ← get (λ s. runtime_tun_config s.runtime)
    set_system_proxy_runtime machine blank config.0 config.1
    start_core_for_capture machine
    mode ← get (λ s. s.runtime.mode)
    answer ← ask (machine.verify_routing mode)
    verification ← lift answer
    commit_healthy_runtime machine
    update (remember_system_proxy_warm machine blank verification)
    return (proxy_running verification)

  unfoldable pub prepare_off : V → Action (Service E M V W) (Prepared V W)
  prepare_off blank = do
    config ← get (λ s. runtime_tun_config s.runtime)
    set_tun_runtime machine blank false config.0 config.1
    return stopped

  abbrev pub prepare_mode : V → Mode → Action (Service E M V W) (Prepared V W)
  prepare_mode blank off = prepare_off blank
  prepare_mode blank Mode.system_proxy = prepare_system_proxy blank
  prepare_mode blank Mode.tun = prepare_tun blank

  -- The rest of prepareCaptureLockedWithOptions where no warm core serves the mode.
  unfoldable pub switch_mode : V → Mode → Action (Service E M V W) (Prepared V W)
  switch_mode blank mode = do
    update (invalidate_warm blank)
    stop_core_for_capture machine
    cleanup_tun_for_capture
    prepare_mode blank mode

  -- A core that is kept warm when capture is switched off.
  unfoldable pub keep_warm : V → ℤ → Mode → Bool → Action (Service E M V W) (Option (V × ℕ))
  keep_warm blank ttl mode retain =
      branch (is_off mode && retain)
        (cleanup_tun_for_capture >> retain_system_proxy_warm machine blank ttl) (return none)

  -- A warm core that serves the mode ends the switch.
  unfoldable pub served :
      Option (V × ℕ)
      → (V × ℕ → Prepared V W)
      → Action (Service E M V W) (Prepared V W)
      → Action (Service E M V W) (Prepared V W)
  served none answer rest = rest
  served (some lease) answer rest = return (answer lease)

  -- prepareCaptureLockedWithOptions, where no warm core is used again.
  unfoldable pub prepare_cold : V → ℤ → Mode → Bool → Action (Service E M V W) (Prepared V W)
  prepare_cold blank ttl mode retain = do
    present ← get (λ s. is_some s.manager)
    when (not present) (lift machine.network.recovery_manager >>= adopt)
    retained ← keep_warm blank ttl mode retain
    served retained warm_retained (switch_mode blank mode)

  -- prepareCaptureLockedWithOptions
  unfoldable pub prepare_capture : V → ℤ → Mode → Bool → Action (Service E M V W) (Prepared V W)
  prepare_capture blank ttl mode retain = do
    require plain (machine.supports machine.host_id mode)
    resumed ← branch (is_system_proxy mode) (resume_system_proxy_warm machine blank) (return none)
    served resumed warm_reused (prepare_cold blank ttl mode retain)

  -- The end of rollbackCaptureLocked.
  unfoldable pub settle_rollback : Service E M V W → Option Error → Service E M V W × Option Error
  settle_rollback s none = (clear_tun_runtime_result (reset_tun_runtime_after_rollback s), none)
  settle_rollback s (some e) = (s, some e)

  -- rollbackCaptureLocked: every part is run, and the errors are joined.
  unfoldable pub rollback_capture : Service E M V W → Service E M V W × Option Error
  rollback_capture s =
      let (s1, e1) = failed_with (deactivate_tun_network s) in
      let (s2, e2) = failed_with (stop_core_for_capture machine s1) in
      let (s3, e3) = failed_with (destroy_tun_adapter s2) in
      let (s4, e4) = failed_with ((ask machine.wait_missing >>= check) s3) in
      settle_rollback s4 (join_errors (join_errors (join_errors e1 e2) e3) e4)
