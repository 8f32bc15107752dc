-- ===== src/Network/Manager.antt =====
-- internal/network/manager.go: what the manager runs on, and the plan's operations. The PowerShell text of a
-- command is made from a resource's identity, so an operation stands for its commands. CrashFn is left nil.
use Prim.Native.Nat.{bit_xor}
use navo.Base.{
  ℕ, ◌+◌, ◌*◌, ◌/◌, ◌%◌, ◌^◌, String, Bool, true, false, Option, none, some, List, [], ◌∷◌, ◌++◌,
  str_eq, ltb, ◌==◌, if◌then◌else◌, map,
}
use navo.Base.Int.{pos}
use navo.Base.Text.{codes, contains, concat, trim_space}
use navo.Network.Journal.{
  Identity, ResourceKind, endpoint_route, split_route, nrpt_rule, firewall_rule, no_identity,
  Journal, Disk, holds,
}

pub data Ipv6Mode : Type 0 where
  block tunnel passthrough : Ipv6Mode

pub record EndpointRoutePlan : Type 0 where
  pub endpoint_ip : String
  pub interface_index : ℕ
  pub interface_guid : String
  pub interface_alias : String
  pub next_hop : String

-- TUNActivationPlan, as far as the manager reads it.
pub record ActivationPlan : Type 0 where
  pub session_id : String
  pub adapter_name : String
  pub tun_ipv4_peer : String
  pub tun_dns_ipv4 : String
  pub endpoint_routes : List EndpointRoutePlan
  pub ipv6_mode : Ipv6Mode

pub record AdapterSnapshot : Type 0 where
  pub name : String
  pub interface_index : ℕ
  pub interface_guid : String

abbrev pub no_adapter : AdapterSnapshot
no_adapter = record { name = ""; interface_index = 0; interface_guid = "" }

pub record Config : Type 0 where
  pub enabled : Bool
  pub journal_path : String
  pub tun_ipv4_peer : String
  pub tun_dns_ipv4 : String
  pub activation_plan : ActivationPlan
  pub failure_point : String

-- An error, with the code of the TUNError that it wraps, if it wraps one.
abbrev pub Cause : Type 0
Cause = Option String

pub data Output : Type 0 where
  prints : String → Output
  fails : Cause → Output

-- The executor, the platform and the file system, over a state of the machine. `none` is a nil error.
pub record Host (E : Type 0) : Type 0 where
  pub inspect : Identity → E → E × Output
  pub apply : Identity → E → E × Option Cause
  pub undo : Identity → E → E × Option Cause
  pub scan_orphans : E → E × Output
  pub remove_orphans : E → E × Option Cause
  pub write : E → E × Option Cause
  pub remove : E → E × Option Cause
  pub wait_for_adapter : ActivationPlan → E → E × Option Cause × AdapterSnapshot
  pub verify_control_plane : ActivationPlan → AdapterSnapshot → E → E × Option Cause

-- The machine and the journal's file, with every pair of them so far, the latest first.
pub record Run (E : Type 0) : Type 0 where
  pub env : E
  pub disk : Disk
  pub trail : List (Disk × E)

abbrev pub reaches : {E : Type 0} → E → Disk → Run E → Run E
reaches env disk run = record { env = env; disk = disk; trail = (disk, env) ∷ run.trail }

-- writeJournal, which replaces the file or leaves it as it is.
unfoldable pub write_journal :
    {E : Type 0} → Host E → String → Journal → Run E → Run E × Option Cause
write_journal host path j run =
    let (env, error) = host.write run.env in
    if str_eq path ""
    then (run, some none)
    else if j.version == 2
    then elim error [
      | none ↦ (reaches env (holds j) run, none)
      | some cause ↦ (reaches env run.disk run, some cause)
    ]
    else (run, some none)

pub record NetworkOperation : Type 0 where
  pub name : String
  pub code : String
  pub identity : Identity

-- The UTF-8 bytes of a code point.
unfoldable pub utf8 : ℕ → List ℕ
utf8 c =
    if ltb c 0x80
    then c ∷ []
    else if ltb c 0x800
    then (0xC0 + c / 64) ∷ (0x80 + c % 64) ∷ []
    else if ltb c 0x10000
    then (0xE0 + c / 4096) ∷ (0x80 + c / 64 % 64) ∷ (0x80 + c % 64) ∷ []
    else (0xF0 + c / 262144) ∷ (0x80 + c / 4096 % 64) ∷ (0x80 + c / 64 % 64) ∷ (0x80 + c % 64) ∷ []

-- hash/fnv, New32a
unfoldable pub fnv_bytes : List ℕ → ℕ → ℕ
fnv_bytes [] hash = hash
fnv_bytes (b ∷ bytes) hash = fnv_bytes bytes (bit_xor hash b * 16777619 % 2 ^ 32)

unfoldable pub fnv_codes : List ℕ → ℕ → ℕ
fnv_codes [] hash = hash
fnv_codes (c ∷ s) hash = fnv_codes s (fnv_bytes (utf8 c) hash)

-- sessionMetric
unfoldable pub session_metric : String → ℕ
session_metric session_id = fnv_codes (codes session_id) 2166136261 % 10000

unfoldable pub endpoint_operation : ℕ → EndpointRoutePlan → NetworkOperation
endpoint_operation metric endpoint =
    let v6 = contains (codes endpoint.endpoint_ip) (codes ":") in
    record {
      name = concat ("proxy endpoint bypass " ∷ endpoint.endpoint_ip ∷ []);
      code = "TUN_ENDPOINT_BYPASS_FAILED";
      identity = record (no_identity endpoint_route) {
        destination_prefix = concat (endpoint.endpoint_ip ∷ (if v6 then "/128" else "/32") ∷ []);
        address_family = if v6 then "IPv6" else "IPv4";
        interface_index = endpoint.interface_index;
        interface_guid = endpoint.interface_guid;
        interface_alias = endpoint.interface_alias;
        next_hop = endpoint.next_hop;
        route_metric = pos metric;
      };
    }

unfoldable pub split_operation : ActivationPlan → AdapterSnapshot → String → NetworkOperation
split_operation plan adapter prefix = record {
  name = concat ("IPv4 route " ∷ prefix ∷ []);
  code = "TUN_SPLIT_ROUTE_FAILED";
  identity = record (no_identity split_route) {
    destination_prefix = prefix;
    address_family = "IPv4";
    interface_index = adapter.interface_index;
    interface_guid = adapter.interface_guid;
    interface_alias = adapter.name;
    next_hop = plan.tun_ipv4_peer;
    route_metric = pos 1;
  };
}

abbrev pub nrpt_operation : ActivationPlan → NetworkOperation
nrpt_operation plan = record {
  name = "DNS leak protection";
  code = "TUN_NRPT_FAILED";
  identity = record (no_identity nrpt_rule) {
    nrpt_namespace = ".";
    nrpt_comment = concat ("Navo:TUN:" ∷ plan.session_id ∷ []);
    name_servers = plan.tun_dns_ipv4 ∷ [];
  };
}

abbrev pub firewall_operation : ActivationPlan → NetworkOperation
firewall_operation plan = record {
  name = "IPv6 leak protection";
  code = "TUN_IPV6_POLICY_FAILED";
  identity = record (no_identity firewall_rule) {
    firewall_display_name = concat ("Navo TUN IPv6 Block " ∷ plan.session_id ∷ []);
  };
}

abbrev pub is_block : Ipv6Mode → Bool
is_block block = true
is_block _ = false

unfoldable pub operations : ActivationPlan → AdapterSnapshot → List NetworkOperation
operations plan adapter =
    map (endpoint_operation (40000 + session_metric plan.session_id)) plan.endpoint_routes
    ++ (map (split_operation plan adapter) ("0.0.0.0/1" ∷ "128.0.0.0/1" ∷ [])
        ++ nrpt_operation plan
          ∷ (if is_block plan.ipv6_mode then firewall_operation plan ∷ [] else []))

abbrev kind_code : ResourceKind → ℕ
kind_code endpoint_route = 0
kind_code split_route = 1
kind_code nrpt_rule = 2
kind_code firewall_rule = 3
kind_code _ = 4

-- shouldInjectFailure
unfoldable pub should_inject_failure : String → NetworkOperation → Bool
should_inject_failure point op =
    let kind = kind_code op.identity.kind in
    let prefix = op.identity.destination_prefix in
    if str_eq point "after-endpoint-bypass"
    then kind == 0
    else if str_eq point "after-first-split-route"
    then (if kind == 1 then str_eq prefix "0.0.0.0/1" else false)
    else if str_eq point "after-second-split-route"
    then (if kind == 1 then str_eq prefix "128.0.0.0/1" else false)
    else if str_eq point "after-nrpt"
    then kind == 2
    else if str_eq point "after-ipv6"
    then kind == 3
    else false

-- inspectOperation: `some true` for EXACT, `some false` for MISSING.
pub data Inspected : Type 0 where
  exact missing : Inspected
  inspect_failed : Cause → Inspected

unfoldable pub inspect_operation : {E : Type 0} → Host E → Identity → E → E × Inspected
inspect_operation host r env =
    let (env', output) = host.inspect r env in
    (
      env',
      elim output [
        | fails cause ↦ inspect_failed cause
        | prints text ↦
            if str_eq (trim_space text) "EXACT"
            then exact
            else if str_eq (trim_space text) "MISSING"
            then missing
            else inspect_failed none
      ],
    )
