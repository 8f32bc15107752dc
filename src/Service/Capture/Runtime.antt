-- ===== src/Service/Capture/Runtime.antt =====
-- internal/service/runtime.go: the runtime's config is chosen, compiled and put to use, and committed when it
-- has proved healthy. What the compiler is given beyond the outbounds and the runtime's own state is left out.
use navo.Base.{
  ℕ, String, Bool, true, false, not, ◌&&◌, ◌||◌, Option, none, some, List, [], ◌∷◌, str_eq, select,
  ◌==◌, if◌then◌else◌, is_some,
}
use navo.Base.Text.{trim_space}
use navo.Network.Manager.{AdapterSnapshot}
use navo.Service.Outbound.{Outbound, compatible, find_outbound, one_of, pin_selected_outbound}
use navo.Service.Lease.{is_running}
use navo.Service.Capture.Action.{
  Error, plain, tun_error, Action, ok, ◌>>=◌, ◌>>◌, return, throw, get, update, lift, expect,
  branch, require, when, branch, failed_with, undoing, recovering,
}
use navo.Service.Capture.State.{RuntimeState, Service, Machine, TunPlan, Address, Compiled}
use navo.Service.Capture.Core.{
  ask, act, normalize_owned_tun_name, swap_supervisor, stop_core_for_capture, invalidate_warm,
}

abbrev pub direct_outbound : Outbound
direct_outbound = record {
  id = "direct";
  name = "Direct";
  kind = "direct";
  server = "";
  port = 0;
  enabled = true;
  provider_id = "";
  tls = false;
  sni = "";
}

-- The last outbound with an id.
unfoldable pub find_last : String → List Outbound → Option Outbound
find_last id [] = none
find_last id (o ∷ outbounds) =
    let rest = find_last id outbounds in
    if is_some rest then rest else if str_eq o.id id then some o else none

abbrev head_outbound : List Outbound → Option Outbound
head_outbound [] = none
head_outbound (o ∷ outbounds) = some o

abbrev id_of : Option Outbound → String
id_of none = ""
id_of (some o) = o.id

-- The runtime with its mode and outbound; `none` if the outbound that was asked for is not enabled or there.
unfoldable pub choose :
    String → String → List Outbound → RuntimeState → Option (RuntimeState × Option Outbound)
choose selected_id mode outbounds r =
    let moded =
      if str_eq mode "" then r else record r { mode = mode; routing_mode_configured = true } in
    let valid =
      if one_of ("bypass_mainland" ∷ "global" ∷ "direct" ∷ []) moded.mode
      then moded
      else record moded { mode = "bypass_mainland"; routing_mode_configured = false } in
    let next =
      if str_eq selected_id "" then valid else record valid { selected_outbound = selected_id } in
    let usable = select (λ (o : Outbound). o.enabled) outbounds in
    elim (find_last next.selected_outbound usable) [
      | some o ↦ some (next, some o)
      | none ↦
          if str_eq selected_id ""
          then some (
            record next { selected_outbound = id_of (head_outbound usable) },
            head_outbound usable,
          )
          else none
    ]

unfoldable pub all_compatible : String → List Outbound → Bool
all_compatible core_id [] = true
all_compatible core_id (o ∷ outbounds) = compatible core_id o && all_compatible core_id outbounds

-- activeOutboundID
unfoldable pub active_outbound : RuntimeState → String
active_outbound r =
    if not (str_eq r.active_outbound "")
    then r.active_outbound
    else if not (str_eq r.revision_status "candidate")
    then r.selected_outbound
    else ""

-- The runtime of a compiled config, before it is committed.
unfoldable pub candidate_runtime : Compiled → RuntimeState → RuntimeState → RuntimeState
candidate_runtime compiled previous next =
    let active = active_outbound previous in
    record next {
      revision_id = compiled.revision_id;
      config_hash = compiled.content_hash;
      revision_status = "candidate";
      active_outbound = active;
      candidate_outbound =
          if str_eq next.selected_outbound active then "" else next.selected_outbound;
      last_known_good = previous.last_known_good;
    }

-- The interface of the machine's own route, if it is found.
abbrev pub with_route : Option String → RuntimeState → RuntimeState
with_route none r = r
with_route (some alias) r = record r { tun_outbound_interface = alias }

-- preferredEndpointIP
unfoldable pub first_printed : (Address → Option String) → List Address → Option String
first_printed print [] = none
first_printed print (a ∷ addresses) = elim (print a) [
  | some text ↦ some text
  | none ↦ first_printed print addresses
]

unfoldable pub preferred_endpoint_ip : List Address → String
preferred_endpoint_ip addresses = elim (first_printed (λ (a : Address). a.to4) addresses) [
  | some text ↦ text
  | none ↦ elim (first_printed (λ (a : Address). a.to16) addresses) [ some text ↦ text | none ↦ "" ]
]

abbrev has_identity : AdapterSnapshot → Bool
has_identity a = not (str_eq a.interface_guid "") || not (a.interface_index == 0)

module _ {E M V W : Type 0} where
  abbrev pub show_adapter : Option AdapterSnapshot → Service E M V W → Service E M V W
  show_adapter none s = s
  show_adapter (some adapter) s = record s { tun = record s.tun { adapter = adapter } }

  abbrev show_rebound : Option AdapterSnapshot → Service E M V W → Service E M V W
  show_rebound none s = s
  show_rebound (some adapter) s = if has_identity adapter then show_adapter (some adapter) s else s

  -- Rebind of the network manager, if there is one.
  unfoldable pub rebind_network :
      Machine E M V W → Action (Service E M V W) (Option AdapterSnapshot)
  rebind_network machine s = elim s.manager [
    | none ↦ (s, ok none)
    | some m ↦
        let (m', env, answer) = machine.network.rebind m s.env in
        (lift answer >>= λ adapter. return (some adapter))
          (record s { manager = some m'; env = env })
  ]

module _ {E M V W : Type 0} (machine : Machine E M V W) where
  abbrev drop_candidate : Compiled → Service E M V W → Service E M V W
  drop_candidate compiled s = record s { env = machine.remove_file compiled.main_config_path s.env }

  -- The way back to the config before, where the network cannot be rebound after the core's reload.
  unfoldable pub undo_reload : Compiled → String → Service E M V W → Service E M V W × Option Error
  undo_reload compiled previous_path s =
      let (s', error) = failed_with (
        (swap_supervisor machine previous_path >> (rebind_network machine >>= λ adapter. return tt))
          s) in
      if str_eq previous_path ""
      then (drop_candidate compiled s, none)
      else (drop_candidate compiled s', error)

  -- `rollback` of applyRuntimeConfigLocked.
  unfoldable pub restore_previous :
      Compiled → Bool → String → RuntimeState → Service E M V W → Service E M V W × Option Error
  restore_previous compiled was_running previous_path previous s =
      let rebound : Action (Service E M V W) (Unit {0}) = (do
        adapter ← branch previous.tun_enabled (rebind_network machine) (return none)
        update (show_adapter adapter)) in
      let (swapped, error) = failed_with ((swap_supervisor machine previous_path >> rebound) s) in
      let back = λ (now : Service E M V W).
        drop_candidate compiled (record now { config_path = previous_path; runtime = previous }) in
      if was_running && not (str_eq previous_path "")
      then elim error [ none ↦ (back swapped, none) | some e ↦ (swapped, some e) ]
      else (back s, none)

  -- A candidate that is compiled, validated and noted.
  unfoldable pub prepare_candidate :
      RuntimeState → Option Outbound → List Outbound → Action (Service E M V W) Compiled
  prepare_candidate next selected usable = do
    require plain (all_compatible next.core_id usable)
    answer ← ask (
        machine.compile (record {
          runtime = next;
          outbounds = usable;
          selected = selected;
          outbound_interface = next.tun_outbound_interface;
        }))
    compiled ← expect plain answer
    undoing (drop_candidate compiled) (do
      valid ← ask (machine.validate_config compiled.main_config_path)
      require plain valid
      saved ← ask (machine.save_candidate compiled)
      require plain saved)
    return compiled

  -- A core that runs is restarted on the candidate, and the network rebound.
  unfoldable pub reload :
      Compiled → Bool → RuntimeState → String → Action (Service E M V W) (Option AdapterSnapshot)
  reload compiled was_running next previous_path = do
    when was_running (
        undoing
          (λ s. record s {
            env =
                machine.mark_failed compiled.revision_id
                  (machine.remove_file compiled.main_config_path s.env);
          })
          (swap_supervisor machine compiled.main_config_path))
    branch (was_running && next.tun_enabled)
        (recovering (undo_reload compiled previous_path) (rebind_network machine)) (return none)

  -- The part of applyRuntimeConfigLocked that compiles the chosen runtime and puts its config to use.
  unfoldable pub apply_chosen :
      String
      → RuntimeState
      → List Outbound
      → Option Outbound
      → RuntimeState
      → Action (Service E M V W) (Unit {0})
  apply_chosen previous_path previous usable selected next = do
    compiled ← prepare_candidate next selected usable
    was_running ← get (λ s. is_running s.supervisor.state)
    rebound ← reload compiled was_running next previous_path
    update (λ s. show_rebound rebound (record s {
      config_path = compiled.main_config_path;
      runtime = candidate_runtime compiled previous next;
    }))
    recovering (restore_previous compiled was_running previous_path previous) (do
      current ← get (λ s. s.runtime)
      saved ← ask (machine.save_runtime_state current)
      require plain saved)
    act machine.clean_files

  -- applyRuntimeConfigLocked
  unfoldable pub apply_runtime_config :
      V → List Outbound → String → String → Action (Service E M V W) (Unit {0})
  apply_runtime_config blank outbounds selected_id mode = do
    warm_idle ← get (λ s. s.supervisor.warm_idle)
    when warm_idle (do update (invalidate_warm blank); stop_core_for_capture machine)
    previous ← get (λ s. s.runtime)
    previous_path ← get (λ s. s.config_path)
    chosen ← expect plain (choose selected_id mode outbounds previous)
    route ← branch chosen.0.tun_enabled (return none) (ask machine.physical_route)
    apply_chosen previous_path previous
        (direct_outbound ∷ select (λ (o : Outbound). o.enabled) outbounds) chosen.1
        (with_route route chosen.0)

  -- What the functions that change the TUN fields share: a config that is not applied leaves the runtime.
  unfoldable pub applying :
      V
      → (RuntimeState → RuntimeState)
      → Option TunPlan
      → (List Outbound → Action (Service E M V W) (List Outbound))
      → Action (Service E M V W) (Unit {0})
  applying blank change plan pin = do
    previous ← get (λ s. s.runtime)
    undoing (λ s. record s { runtime = previous })
        (do
          update (λ s. record s { runtime = change s.runtime })
          outbounds ← ask machine.outbounds
          pinned ← pin outbounds
          apply_runtime_config blank pinned "" "")
    update (λ s. record s { tun_plan = plan })

  abbrev pub tun_fields : Bool → String → ℕ → String → RuntimeState → RuntimeState
  tun_fields is_enabled name mtu alias r = record r {
    tun_enabled = is_enabled;
    tun_name = name;
    tun_mtu = mtu;
    tun_outbound_interface = alias;
  }

  -- setTUNRuntime
  unfoldable pub set_tun_runtime : V → Bool → String → ℕ → Action (Service E M V W) (Unit {0})
  set_tun_runtime blank is_enabled name mtu = do
    owned ← expect plain (normalize_owned_tun_name name)
    applying blank (tun_fields is_enabled owned mtu "") none (λ outbounds. return outbounds)

  -- setTUNRuntimeWithPlan
  unfoldable pub set_tun_runtime_with_plan :
      V → Bool → String → ℕ → TunPlan → Action (Service E M V W) (Unit {0})
  set_tun_runtime_with_plan blank is_enabled name mtu plan = do
    owned ← expect plain (normalize_owned_tun_name name)
    applying blank (tun_fields is_enabled owned mtu plan.interface_alias) (some plan) (λ outbounds.
        expect (tun_error "TUN_ENDPOINT_PIN_FAILED")
          (pin_selected_outbound machine.is_ip plan.pin outbounds))

  -- The address of the selected outbound's host, pinned.
  unfoldable pub pin_host :
      String → String → List Outbound → Action (Service E M V W) (List Outbound)
  pin_host selected_id host outbounds = do
    answer ← ask (machine.resolve_ips host)
    addresses ← expect plain answer
    require plain (not (str_eq (preferred_endpoint_ip addresses) ""))
    expect (tun_error "TUN_ENDPOINT_PIN_FAILED") (
        pin_selected_outbound machine.is_ip
          (record {
            selected_outbound_id = selected_id;
            original_server_host = host;
            pinned_server_ip = preferred_endpoint_ip addresses;
          })
          outbounds)

  unfoldable pub pin_found :
      String → List Outbound → Option Outbound → Action (Service E M V W) (List Outbound)
  pin_found selected_id outbounds none = throw plain
  pin_found selected_id outbounds (some o) =
      branch (str_eq (trim_space o.server) "" || str_eq o.kind "direct") (return outbounds)
        (pin_host selected_id (trim_space o.server) outbounds)

  -- pinSystemProxyEndpoint
  unfoldable pub pin_system_proxy_endpoint :
      String → List Outbound → Action (Service E M V W) (List Outbound)
  pin_system_proxy_endpoint selected_id outbounds =
      branch (str_eq selected_id "") (return outbounds)
        (pin_found selected_id outbounds (find_outbound selected_id outbounds))

  -- setSystemProxyRuntime
  unfoldable pub set_system_proxy_runtime : V → String → ℕ → Action (Service E M V W) (Unit {0})
  set_system_proxy_runtime blank name mtu = do
    owned ← expect plain (normalize_owned_tun_name name)
    selected_id ← get (λ s. s.runtime.selected_outbound)
    applying blank (tun_fields false owned mtu "") none (pin_system_proxy_endpoint selected_id)

  abbrev pub committed : String → RuntimeState → RuntimeState
  committed path r = record r {
    revision_status = "active";
    active_outbound = r.selected_outbound;
    candidate_outbound = "";
    last_known_good = path;
  }

  unfoldable pub save_selected : Option Outbound → Action (Service E M V W) (Unit {0})
  save_selected none = return tt
  save_selected (some o) = ask (machine.save_selection o) >>= require plain

  -- commitHealthyRuntimeLocked
  unfoldable pub commit_healthy_runtime : Action (Service E M V W) (Unit {0})
  commit_healthy_runtime = do
    outbounds ← ask machine.outbounds
    previous ← get (λ s. s.runtime)
    save_selected (find_outbound previous.selected_outbound outbounds)
    marked ← ask (machine.mark_active previous.revision_id)
    require plain marked
    undoing (λ s. record s { runtime = previous })
        (do
          update (λ s. record s { runtime = committed s.config_path s.runtime })
          current ← get (λ s. s.runtime)
          saved ← ask (machine.save_runtime_state current)
          require plain saved)
    act machine.clean_files
