-- ===== src/NetworkEnv/Model.antt =====
-- internal/networkenv/model.go: the facts of one snapshot, and its findings. Times are nanoseconds since
-- Go's zero time, which is 0.
use navo.Base.{ℕ, Bool, List, String}
use navo.Base.Int.{ℤ}

-- SnapshotVersion
abbrev pub snapshot_version : ℕ
snapshot_version = 1

-- SnapshotStaleAfter
abbrev pub stale_after : ℕ
stale_after = 10000000000

pub data HealthState : Type 0 where
  unknown checking healthy degraded unavailable : HealthState

-- Ownership is read from outside, so any other text may stand there, the empty one too.
pub data Ownership : Type 0 where
  owner_none owner_navo owner_external owner_unknown : Ownership
  other_owner : String → Ownership

-- Severity, as far as findings have one.
pub data Severity : Type 0 where
  info warning error : Severity

pub record TransitionSnapshot : Type 0 where
  pub busy : Bool
  pub id : String
  pub operation : String
  pub intent : String
  pub domain : String
  pub priority : ℤ
  pub phase : String
  pub fault_domain : String

pub record PhysicalSnapshot : Type 0 where
  pub known : Bool
  pub available : Bool
  pub active_interfaces : List String
  pub last_error : String

pub record SystemProxySnapshot : Type 0 where
  pub enabled : Bool
  pub proxy_server : String
  pub auto_detect : Bool
  pub auto_config_configured : Bool
  pub bypass_configured : Bool
  pub ownership : Ownership
  pub owned_by_navo : Bool
  pub ownership_marker : Bool
  pub ownership_lost : Bool
  pub local_endpoint : Bool
  pub reachable : Bool
  pub reachable_known : Bool
  pub last_error : String

pub record TunAdapterSnapshot : Type 0 where
  pub present : Bool
  pub enabled : Bool
  pub name : String
  pub interface_guid : String
  pub interface_index : ℤ
  pub state : String
  pub ownership : Ownership
  pub session_id : String
  pub stage : String
  pub fault_id : String
  pub last_error : String

pub record ExternalAdapterRef : Type 0 where
  pub name : String
  pub interface_index : ℤ
  pub state : String

pub record TunSnapshot : Type 0 where
  pub expected : Bool
  pub navo_adapter : TunAdapterSnapshot
  pub external_present : Bool
  pub external : List ExternalAdapterRef

pub record ResourceSnapshot : Type 0 where
  pub known : Bool
  pub coherent : Bool
  pub owned_count : ℤ
  pub existing_count : ℤ
  pub missing_count : ℤ
  pub conflict_count : ℤ
  pub last_error : String

pub record JournalSnapshot : Type 0 where
  pub present : Bool
  pub dirty : Bool
  pub version : ℤ
  pub session_id : String
  pub adapter_name : String
  pub owned_resources : ℤ
  pub preexisting_resources : ℤ
  pub pending_actions : ℤ
  pub missing_resources : ℤ
  pub conflicting_resources : ℤ
  pub last_error : String

pub record CaptureSnapshot : Type 0 where
  pub state : String
  pub desired_mode : String
  pub committed_mode : String
  pub fault_id : String
  pub readiness_state : String
  pub readiness_error : String

pub record Finding : Type 0 where
  pub code : String
  pub severity : Severity
  pub domain : String
  pub summary : String
  pub detail : String
  pub ownership : Ownership
  pub recoverable : Bool
  pub transitional : Bool

-- A nil list and an empty one are the same here.
pub record Snapshot : Type 0 where
  pub version : ℕ
  pub collected_at : ℕ
  pub health : HealthState
  pub stale : Bool
  pub partial : Bool
  pub transition : TransitionSnapshot
  pub capture : CaptureSnapshot
  pub physical : PhysicalSnapshot
  pub system_proxy : SystemProxySnapshot
  pub tun : TunSnapshot
  pub dns : ResourceSnapshot
  pub routes : ResourceSnapshot
  pub nrpt : ResourceSnapshot
  pub firewall : ResourceSnapshot
  pub journal : JournalSnapshot
  pub findings : List Finding
  pub observation_errors : List String
