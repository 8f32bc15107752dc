-- ===== src/Service/Capture/State.antt =====
-- The service's state and what it runs on: internal/service/service.go and runtime.go (runtimeState),
-- internal/domain/capture/mode.go and state.go, and the plan of internal/network/types.go.
use navo.Base.{ℕ, String, Bool, true, false, Option, none, some, List, str_eq, if◌then◌else◌}
use navo.Supervisor.Lifecycle.{Supervisor, StartAnswers, SwapAnswers}
use navo.Network.Manager.{ActivationPlan, AdapterSnapshot, no_adapter}
use navo.Network.Activation.{Stage}
use navo.Service.Outbound.{Outbound, Pin}
use navo.Service.Lease.{Warm}
use navo.Service.Capture.Action.{Error, Outcome}

pub data Mode : Type 0 where
  off system_proxy tun : Mode

abbrev pub is_off : Mode → Bool
is_off off = true
is_off _ = false

abbrev pub is_system_proxy : Mode → Bool
is_system_proxy system_proxy = true
is_system_proxy _ = false

abbrev pub is_tun : Mode → Bool
is_tun tun = true
is_tun _ = false

-- The constants of type Mode.
unfoldable pub parse_mode : String → Option Mode
parse_mode text =
    if str_eq text "off"
    then some off
    else if str_eq text "system_proxy"
    then some system_proxy
    else if str_eq text "tun"
    then some tun
    else none

pub data AdapterState : Type 0 where
  adapter_missing disabled enabled adapter_starting adapter_stopping driver_error unknown :
      AdapterState

-- AdapterStatus; an index is not negative.
pub record AdapterStatus : Type 0 where
  pub state : AdapterState
  pub interface_guid : String
  pub interface_index : ℕ

-- TUNActivationPlan: the part of the network manager, of the selected outbound and of the config.
pub record TunPlan : Type 0 where
  pub network : ActivationPlan
  pub pin : Pin
  pub interface_alias : String

-- runtimeState, less the routing lists. An MTU is not negative.
pub record RuntimeState : Type 0 where
  pub core_id : String
  pub selected_outbound : String
  pub active_outbound : String
  pub candidate_outbound : String
  pub mode : String
  pub routing_mode_configured : Bool
  pub revision_id : String
  pub config_hash : String
  pub revision_status : String
  pub last_known_good : String
  pub tun_enabled : Bool
  pub tun_name : String
  pub tun_mtu : ℕ
  pub tun_outbound_interface : String

-- tunStage, tunSessionID, tunAdapter and tunVerification; `none` is the empty value.
pub record TunResult (W : Type 0) : Type 0 where
  pub stage : Option Stage
  pub session_id : String
  pub adapter : AdapterSnapshot
  pub verification : Option W

abbrev pub no_result : {W : Type 0} → TunResult W
no_result = record { stage = none; session_id = ""; adapter = no_adapter; verification = none }

-- What the text of tunFault tells.
pub data Fault : Type 0 where
  transition_failed : Error → Fault
  unhealthy : AdapterStatus → Fault

-- The service, over the machine, the network managers and the verifications of the routing and of TUN.
-- `fault` has the time that makes tunFaultID and what tunFault tells. The supervisor's flag `warm_idle` is the
-- one that counts.
pub record Service (E M V W : Type 0) : Type 0 where
  pub env : E
  pub supervisor : Supervisor
  pub manager : Option M
  pub warm : Warm V
  pub runtime : RuntimeState
  pub config_path : String
  pub tun_plan : Option TunPlan
  pub tun : TunResult W
  pub fault : Option (ℕ × Fault)

-- What adapter.Compile is given, as far as the service decides it.
pub record CompileRequest : Type 0 where
  pub runtime : RuntimeState
  pub outbounds : List Outbound
  pub selected : Option Outbound
  pub outbound_interface : String

pub record Compiled : Type 0 where
  pub revision_id : String
  pub content_hash : String
  pub main_config_path : String

pub record VerifyRequest : Type 0 where
  pub session_id : String
  pub direct_ip : String
  pub direct_mode : Bool
  pub tun_dns_ipv4 : String
  pub udp_required : Bool

pub record PlanRequest : Type 0 where
  pub core_id : String
  pub mtu : ℕ
  pub selected_outbound_id : String
  pub original_server_host : String

-- net.IP, by what To4 and To16 print.
pub record Address : Type 0 where
  pub to4 : Option String
  pub to16 : Option String

-- tunNetworkManager and its constructors, over the machine and the managers.
pub record NetworkManager (E M : Type 0) : Type 0 where
  pub recovery_manager : Outcome M
  pub new_manager : TunPlan → Outcome M
  pub preflight : M → E → E × Option Error
  -- With the stages that the manager reports, in order.
  pub activate : M → E → M × E × List Stage × Outcome AdapterSnapshot
  pub rebind : M → E → M × E × Outcome AdapterSnapshot
  pub deactivate : M → E → M × E × Option Error

-- The answers of everything outside the service. Those that only read may change the machine too.
pub record Machine (E M V W : Type 0) : Type 0 where
  pub network : NetworkManager E M
  -- The core's host behind the supervisor, its pid and config hash, and its health check.
  pub start_core : String → E → E × StartAnswers
  pub stop_core : E → E × Option String
  pub swap_core : String → E → E × SwapAnswers
  pub core_status : E → ℕ × String
  pub healthy : E → E × Bool
  pub now : E → ℕ
  -- s.host.ID() and coreSupportsCapture.
  pub host_id : String
  pub supports : String → Mode → Bool
  -- tun.InspectAdapter, tun.WaitForAdapterState for a missing adapter, Create and Destroy of tunManager.
  pub inspect_adapter : E → E × AdapterStatus
  pub wait_missing : E → E × Option Error
  pub create_adapter : E → E × Option Error
  pub destroy_adapter : E → E × Option Error
  -- currentOutbounds, ProbeTCP (the flag is a healthy result), ResolveEndpointIPs and FindPhysicalRoute.
  pub outbounds : E → E × List Outbound
  pub probe_tcp : Outbound → E → E × Bool
  pub resolve_ips : String → E → E × Option (List Address)
  pub is_ip : String → Bool
  pub physical_route : E → E × Option String
  -- CaptureDirectIP, BuildTUNActivationPlan and whether the context ends before both are there.
  pub capture_direct_ip : E → E × Option String
  pub build_plan : PlanRequest → E → E × Outcome TunPlan
  pub canceled : E → E × Bool
  pub verify_tun : VerifyRequest → E → E × Outcome W
  pub verify_routing : String → E → E × Outcome V
  -- The directory of the configs with adapter.Compile, ValidateConfig, and the repositories and files.
  pub compile : CompileRequest → E → E × Option Compiled
  pub validate_config : String → E → E × Bool
  pub save_candidate : Compiled → E → E × Bool
  pub mark_failed : String → E → E
  pub mark_active : String → E → E × Bool
  pub save_selection : Outbound → E → E × Bool
  pub save_runtime_state : RuntimeState → E → E × Bool
  pub remove_file : String → E → E
  pub clean_files : E → E
