-- ===== src/Service/Capture/Examples.antt =====
-- internal/service/capture_transition.go at a machine that keeps its routes and its adapter, and answers as asked.
use navo.Base.{
  suc, ◌≡◌, ◌≤◌, ◌↔◌, eq_iff, refl, String, Bool, true, false, none, some, [], ◌∷◌, if◌then◌else◌,
  is_some, select, arith,
}
use navo.Base.Int.{pos}
use navo.Base.Text.{
  is_space, trim_left, trim_right, trim_space, to_lower_code, to_lower, same_codes, begins_with,
  contains, concat,
}
use navo.Supervisor.State.{State, valid_transitions, last_row, next_state, is_valid_transition}
use navo.Supervisor.Lifecycle.{
  new_supervisor, Reconciled, StartAnswers, transition, cancel_lifecycle, start_core, reconciled,
  start, stop, set_restart_suppressed, set_warm_idle,
}
use navo.Network.Journal.{
  Journal, applied, holds, absent, Checks, validate_recovery_journal, all_valid,
  validate_journal_resource, is_route, all_session_chars, is_session_char,
}
use navo.Network.Manager.{Ipv6Mode, no_adapter, Host, Run, prints, nrpt_operation, write_journal}
use navo.Network.Recovery.{
  undo_resource, undo_action, undo_all, remove_journal, rollback_locked, rollback_after_failure,
  recover_locked, migrate_v1, legacy_actions, cleanup_orphaned_firewall_rules,
  recover_network_state,
}
use navo.Network.Activation.{Stage, deactivate}
use navo.Service.Capture.Health.{
  Expectation, observe, tracked, current_expectation, actionable_tun_observation,
  tun_observation_healthy, confirm, watch_tick,
}
use navo.Service.Capture.Health.Threshold.{History, tracker_of, streak, observe-fires}
use navo.Service.Capture.Health.Watch.{watch_tick-reports}
use navo.Service.Capture.Managed.{Managed, manager_config, managed_network, kept}
use navo.Service.Capture.Composed.{with_managers, rollback_capture-NoJournal}
use navo.Service.Lease.{no_lease, invalidate}
use navo.Service.Outbound.{
  Outbound, one_of, compatible, find_outbound, is_direct_runtime, outbound_requires_udp, pinned,
  pin_first, pin_selected_outbound,
}
use navo.Service.Capture.Action.{
  plain, tun_error, ok, fails, continue, check, expect, require, when, branch, recovering, undoing,
  recoding, join_errors,
}
use navo.Service.Capture.State.{
  Mode, AdapterState, AdapterStatus, TunPlan, no_result, Service, NetworkManager, Machine,
  parse_mode,
}
use navo.Service.Capture.Core.{
  normalize_owned_tun_name, runtime_tun_config, start_supervisor, stop_supervisor, stop_from,
  start_core_for_capture, invalidate_warm,
}
use navo.Service.Capture.Runtime.{
  find_last, choose, all_compatible, active_outbound, candidate_runtime, prepare_candidate, reload,
  apply_chosen, apply_runtime_config, applying, set_tun_runtime_with_plan, save_selected,
  commit_healthy_runtime,
}
use navo.Service.Capture.Prepare.{
  deactivate_with, destroy_tun_adapter, cleanup_tun_for_capture, gather_tun_preparation,
  activate_network, run_tun, prepare_tun, switch_mode, keep_warm, served, prepare_cold,
  prepare_capture, settle_rollback, rollback_capture, tun_running,
}
use navo.Service.Capture.Handler.{
  PrepareMessage, refused, prepared, error_code, tun_options, suppress, finish_switch,
  switch_capture, handle_capture_prepare,
}
use navo.Service.Capture.Outcome.{IsIn}
use navo.Service.Capture.Handled.{handle_capture_prepare-IsIn, switch_capture-failed}
use navo.Service.Capture.Rollback.{IsMachine, IsDown}

-- `works` is whether data comes through the tunnel.
record Pc : Type 0 where
  routes : Bool
  adapter : Bool
  works : Bool

abbrev good_start : StartAnswers
good_start = record { reconciliation = Reconciled.clean; host_error = none }

abbrev plan : TunPlan
plan = record {
  network = record {
    session_id = "s1";
    adapter_name = "Navo";
    tun_ipv4_peer = "172.19.0.2";
    tun_dns_ipv4 = "172.19.0.2";
    endpoint_routes = [];
    ipv6_mode = Ipv6Mode.block;
  };
  pin = record {
    selected_outbound_id = "a";
    original_server_host = "example.org";
    pinned_server_ip = "192.0.2.1";
  };
  interface_alias = "Ethernet";
}

abbrev outbound : Outbound
outbound = record {
  id = "a";
  name = "A";
  kind = "vless";
  server = "example.org";
  port = 443;
  enabled = true;
  provider_id = "p";
  tls = true;
  sni = "";
}

abbrev status : Pc → AdapterStatus
status e = record {
  state = if e.adapter then AdapterState.enabled else AdapterState.adapter_missing;
  interface_guid = "";
  interface_index = 7;
}

abbrev network : NetworkManager Pc String
network = record {
  recovery_manager = ok "recovery";
  new_manager = λ p. ok p.network.session_id;
  preflight = λ m e. (e, none);
  activate = λ m e. (m, record e { routes = true }, Stage.adapter_ready ∷ [], ok no_adapter);
  rebind = λ m e. (m, e, ok no_adapter);
  deactivate = λ m e. (m, record e { routes = false }, none);
}

abbrev pc : Machine Pc String String String
pc = record {
  network = network;
  start_core = λ path e. (record e { adapter = true }, good_start);
  stop_core = λ e. (record e { adapter = false }, none);
  swap_core = λ path e. (
    e,
    record {
      stop_error = none;
      force_error = none;
      replacement = good_start;
      restoration = good_start;
    },
  );
  core_status = λ e. (12, "hash");
  healthy = λ e. (e, true);
  now = λ e. 1000;
  host_id = "sing-box";
  supports = λ id mode. true;
  inspect_adapter = λ e. (e, status e);
  wait_missing = λ e. (e, if e.adapter then some plain else none);
  create_adapter = λ e. (e, none);
  destroy_adapter = λ e. (record e { adapter = false }, none);
  outbounds = λ e. (e, outbound ∷ []);
  probe_tcp = λ o e. (e, true);
  resolve_ips = λ host e. (e, some (record { to4 = some "192.0.2.1"; to16 = none } ∷ []));
  is_ip = λ host. false;
  physical_route = λ e. (e, some "Ethernet");
  capture_direct_ip = λ e. (e, some "198.51.100.1");
  build_plan = λ request e. (e, ok plan);
  canceled = λ e. (e, false);
  verify_tun =
      λ request e. (e, if e.works then ok "seen" else fails (tun_error "TUN_HTTPS_VERIFY_FAILED"));
  verify_routing = λ mode e. (e, ok "routed");
  compile = λ request e. (
    e,
    some (record { revision_id = "r2"; content_hash = "h2"; main_config_path = "/c/r2.json" }),
  );
  validate_config = λ path e. (e, true);
  save_candidate = λ c e. (e, true);
  mark_failed = λ id e. e;
  mark_active = λ id e. (e, true);
  save_selection = λ o e. (e, true);
  save_runtime_state = λ r e. (e, true);
  remove_file = λ path e. e;
  clean_files = λ e. e;
}

-- The service before anything was captured.
abbrev idle : Bool → Service Pc String String String
idle works = record {
  env = record { routes = false; adapter = false; works = works };
  supervisor = new_supervisor true;
  manager = none;
  warm = record {
    lease = no_lease "";
    generation = 0;
    timer = none;
    callbacks = [];
    warm_idle = false;
  };
  runtime = record {
    core_id = "sing-box";
    selected_outbound = "a";
    active_outbound = "";
    candidate_outbound = "";
    mode = "global";
    routing_mode_configured = true;
    revision_id = "r1";
    config_hash = "h1";
    revision_status = "candidate";
    last_known_good = "";
    tun_enabled = false;
    tun_name = "Navo";
    tun_mtu = 1500;
    tun_outbound_interface = "";
  };
  config_path = "/c/r1.json";
  tun_plan = none;
  tun = no_result;
  fault = none;
}

abbrev Released : Pc → Type 0
Released e = e.routes ≡ false

abbrev Missing : Pc → Type 0
Missing e = e.adapter ≡ false

no_adapter_left : (b : Bool) → (if b then some plain else none) ≡ none → b ≡ false
no_adapter_left true h = cc
no_adapter_left false h = refl

pc-IsMachine : IsMachine Released Missing pc
pc-IsMachine = record {
  deactivates = λ m e h. refl;
  stops = λ e h. h;
  inspects = λ e h. h;
  creates = λ e h. h;
  destroys = λ e h. h;
  waits = λ e h. h;
  finds_missing = λ e h. no_adapter_left e.adapter h;
}

-- TUN that comes up but carries no data.
abbrev broken : Service Pc String String String
broken =
    (prepare_capture pc "" (pos 90) Mode.tun false (suppress pc "" (pos 90) true (idle false))).0

broken_lem :
    (prepare_capture pc "" (pos 90) Mode.tun false (suppress pc "" (pos 90) true (idle false))
      ≡ (broken, fails (tun_error "TUN_HTTPS_VERIFY_FAILED")))
    × (is_some broken.manager ≡ true)
    × ((rollback_capture pc broken).1 ≡ none)
unfolding continue check expect require when branch recovering undoing recoding join_errors
    normalize_owned_tun_name runtime_tun_config start_supervisor stop_from start_core_for_capture
    stop_supervisor invalidate_warm find_last choose all_compatible active_outbound
    candidate_runtime prepare_candidate reload apply_chosen apply_runtime_config applying
    set_tun_runtime_with_plan deactivate_with destroy_tun_adapter cleanup_tun_for_capture
    gather_tun_preparation activate_network run_tun prepare_tun switch_mode keep_warm served
    prepare_cold prepare_capture settle_rollback rollback_capture one_of compatible find_outbound
    is_direct_runtime outbound_requires_udp pinned pin_first pin_selected_outbound invalidate
    new_supervisor transition cancel_lifecycle start_core reconciled start stop
    set_restart_suppressed set_warm_idle valid_transitions last_row next_state is_valid_transition
    is_space trim_left trim_right trim_space to_lower_code to_lower same_codes select
broken_lem = (refl, refl, refl)

broken-managed : broken.manager ≡ none → Released broken.env
broken-managed h = ground (arith, broken_lem.1)

switch_capture-failed_example :
    IsDown Released Missing (switch_capture pc "" (pos 90) Mode.tun false (idle false)).0
    × ((switch_capture pc "" (pos 90) Mode.tun false (idle false)).1
        ≡ refused (error_code (tun_error "TUN_HTTPS_VERIFY_FAILED")))
    × (is_some (switch_capture pc "" (pos 90) Mode.tun false (idle false)).0.fault ≡ true)
    × ((switch_capture pc "" (pos 90) Mode.tun false (idle false)).0.supervisor.restart_suppressed
        ≡ false)
switch_capture-failed_example =
    switch_capture-failed pc "" (pos 90) Released Missing pc-IsMachine Mode.tun false (idle false)
      broken (tun_error "TUN_HTTPS_VERIFY_FAILED") broken_lem.0 broken-managed broken_lem.2

abbrev to_tun : PrepareMessage
to_tun = record { mode = "tun"; retain_warm = false; tun_name = "navo"; tun_mtu = 1400 }

prepares_tun :
    (handle_capture_prepare pc "" (pos 90) to_tun (idle true)).1
    ≡ prepared Mode.tun "global" (tun_running "seen")
unfolding continue check expect require when branch recovering undoing recoding
    normalize_owned_tun_name runtime_tun_config start_supervisor stop_from start_core_for_capture
    invalidate_warm find_last choose all_compatible active_outbound candidate_runtime
    prepare_candidate reload apply_chosen apply_runtime_config applying set_tun_runtime_with_plan
    deactivate_with destroy_tun_adapter cleanup_tun_for_capture gather_tun_preparation
    activate_network run_tun prepare_tun switch_mode keep_warm served prepare_cold prepare_capture
    one_of compatible find_outbound is_direct_runtime outbound_requires_udp pinned pin_first
    pin_selected_outbound invalidate new_supervisor transition start_core reconciled start
    set_restart_suppressed set_warm_idle valid_transitions last_row next_state is_space trim_left
    trim_right trim_space to_lower_code to_lower same_codes select parse_mode tun_options
    finish_switch switch_capture handle_capture_prepare save_selected commit_healthy_runtime
prepares_tun = refl

abbrev tun_service : Service Pc String String String
tun_service = (handle_capture_prepare pc "" (pos 90) to_tun (idle true)).0

abbrev global_mode : String
global_mode = "global"

handle_capture_prepare-IsIn_example :
    IsIn Mode.tun tun_service (tun_running "seen")
    × (tun_service.fault ≡ none)
    × (global_mode ≡ tun_service.runtime.mode)
    × (tun_service.supervisor.restart_suppressed ≡ false)
handle_capture_prepare-IsIn_example =
    handle_capture_prepare-IsIn pc "" (pos 90) to_tun (idle true) prepares_tun

-- A network manager of a session that has made its DNS rule, on the same machine.
abbrev pc_host : Host Pc
pc_host = record {
  inspect = λ r e. (e, prints "MISSING");
  apply = λ r e. (record e { routes = true }, none);
  undo = λ r e. (record e { routes = false }, none);
  scan_orphans = λ e. (e, prints "CLEAN");
  remove_orphans = λ e. (e, none);
  write = λ e. (e, none);
  remove = λ e. (e, none);
  wait_for_adapter = λ p e. (e, none, no_adapter);
  verify_control_plane = λ p a e. (e, none);
}

abbrev any_text : Checks
any_text = record { is_cidr = λ s. true; is_ip = λ s. true; is_adapter_name = λ s. true }

abbrev composed : Machine (Run Pc) Managed String String
composed =
    with_managers pc_host any_text "/c/journal.json" (λ cfg. true) (λ cfg run. (run, none))
      (λ r. []) pc

abbrev made : Journal
made = record {
  version = 2;
  adapter_name = "Navo";
  session_id = "s1";
  actions =
      record {
        name = "DNS leak protection";
        status = applied;
        resource = record {
          identity = (nrpt_operation plan.network).identity;
          created_by_navo = true;
        };
      }
      ∷ [];
}

abbrev managed : Managed
managed = record {
  manager = record {
    cfg = manager_config "/c/journal.json" plan.network;
    active = true;
    adapter = no_adapter;
  };
  enabled = refl;
}

abbrev half_up : Service (Run Pc) Managed String String
half_up = record {
  env = record {
    env = record { routes = true; adapter = true; works = true };
    disk = holds made;
    trail = [];
  };
  supervisor = new_supervisor true;
  manager = some managed;
  warm = (idle true).warm;
  runtime = (idle true).runtime;
  config_path = "/c/r1.json";
  tun_plan = some plan;
  tun = no_result;
  fault = none;
}

rolls_back : (rollback_capture composed half_up).1 ≡ none
unfolding rollback_capture with_managers managed_network deactivate recover_network_state
    recover_locked rollback_after_failure rollback_locked undo_all undo_action undo_resource
    remove_journal write_journal cleanup_orphaned_firewall_rules validate_recovery_journal all_valid
    validate_journal_resource is_route all_session_chars is_session_char begins_with trim_space
    trim_left trim_right is_space concat deactivate_with stop_from continue check require branch
    destroy_tun_adapter settle_rollback join_errors kept migrate_v1 legacy_actions contains
    new_supervisor
rolls_back = refl

rollback_capture-NoJournal_example :
    IsDown (λ run. run.disk ≡ absent) (λ run. Missing run.env) (rollback_capture composed half_up).0
rollback_capture-NoJournal_example =
    rollback_capture-NoJournal pc_host any_text "/c/journal.json" (λ cfg. true)
      (λ cfg run. (run, none)) (λ r. []) pc Missing (λ e. no_adapter_left e.adapter) half_up
      (λ h. cc) rolls_back

-- An adapter that is missing while TUN counts as committed.
abbrev lost : Service Pc String String String
lost = record (idle true) {
  supervisor = record (new_supervisor true) { state = State.running };
  runtime = record (idle true).runtime { tun_enabled = true };
  tun = record {
    stage = some Stage.health_committed;
    session_id = "s1";
    adapter = no_adapter;
    verification = some "seen";
  };
}

abbrev twice : History
twice = ("s1", true) ∷ ("s1", true) ∷ []

abbrev committed_session : Expectation
committed_session = record { session_id = "s1"; guid = ""; index = 0 }

fires_third : (watch_tick pc (tracker_of twice) lost).2 ≡ some committed_session
unfolding watch_tick tracker_of current_expectation observe tracked actionable_tun_observation
    tun_observation_healthy new_supervisor
fires_third = refl

told_third : is_some (confirm pc committed_session lost).fault ≡ true
unfolding confirm current_expectation actionable_tun_observation new_supervisor
told_third = refl

watch_tick-reports_example :
    (current : Expectation) × (current_expectation lost ≡ some committed_session)
    × (current_expectation lost ≡ some current)
    × ((current.session_id ≡ "s1") × (current.guid ≡ "") × (current.index ≡ 0))
    × (2 ≤ streak "s1" twice)
    × (actionable_tun_observation committed_session (status lost.env) ≡ true)
    × (actionable_tun_observation current (status lost.env) ≡ true)
watch_tick-reports_example = watch_tick-reports pc twice lost lost fires_third refl told_third

observe-fires_example :
    ((observe "s1" true (tracker_of (("s1", true) ∷ ("s1", true) ∷ ("s1", false) ∷ []))).1 ≡ true)
    ↔ ((true ≡ true) × (3 ≤ suc (streak "s1" (("s1", true) ∷ ("s1", true) ∷ ("s1", false) ∷ []))))
observe-fires_example =
    observe-fires "s1" true (("s1", true) ∷ ("s1", true) ∷ ("s1", false) ∷ [])
      (λ same. ground (arith, eq_iff "s1" ""))
