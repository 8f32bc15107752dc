-- ===== src/SelfHeal/Plan.antt =====
-- internal/selfheal/recovery.go: which coordinator action each fault domain gets in each repair round.
use navo.Base.{
  ℕ, ◌≡◌, ◌≢◌, refl, String, Bool, true, false, ◌||◌, ◌⊎◌, inl, inr, List, [], ◌∷◌, arith, ◌==◌,
  if◌then◌else◌,
}
use navo.Base.Int.{ℤ, pos, pos_part, ltb_ℤ}

pub data FaultDomain : Type 0 where
  node core system_proxy tun route dns nrpt firewall traffic_rule : FaultDomain
  physical_network detection unknown_domain : FaultDomain
  other : String → FaultDomain

pub data RepairActionName : Type 0 where
  no_action reapply_capture restart_owned_core reconcile_owned_capture : RepairActionName
  reconcile_owned_network recover_owned_network reapply_traffic_policy : RepairActionName

-- MaxRepairRounds is 2, and RoundActions has a place for each round.
pub record FaultPlan : Type 0 where
  pub domain : FaultDomain
  pub evidence : List String
  pub first_action : RepairActionName
  pub second_action : RepairActionName
  pub controllable : Bool
  pub allow_failover : Bool
  pub impact : String

abbrev plan :
    FaultDomain
    → List String
    → RepairActionName
    → RepairActionName
    → Bool
    → Bool
    → String
    → FaultPlan
plan domain evidence a b controllable allow_failover impact = record {
  domain = domain;
  evidence = evidence;
  first_action = a;
  second_action = b;
  controllable = controllable;
  allow_failover = allow_failover;
  impact = impact;
}

abbrev unknown_plan : FaultPlan
unknown_plan =
    plan unknown_domain ("observations" ∷ "excluded_domains" ∷ "checked_at" ∷ []) no_action
      no_action false false "connectivity failed for an unknown reason"

unfoldable pub fault_matrix : List FaultPlan
fault_matrix =
    plan node
      ("active_outbound" ∷ "source_channel" ∷ "proxy_dns" ∷ "proxy_tcp" ∷ "proxy_https"
        ∷ "proxy_exit_ip" ∷ "routed_traffic" ∷ [])
      reapply_capture restart_owned_core true true "active proxy path is unavailable"
    ∷ plan core ("owned_core" ∷ "supervisor_state" ∷ "pid" ∷ "config_hash" ∷ "proxy_listener" ∷ [])
        restart_owned_core reapply_capture true false "Navo core cannot carry proxy traffic"
    ∷ plan system_proxy
        ("ownership_marker" ∷ "wininet_enabled" ∷ "wininet_endpoint" ∷ "preconfig_https" ∷ [])
        reconcile_owned_capture restart_owned_core true false
        "Windows applications are not entering Navo"
    ∷ plan tun
        ("session_id" ∷ "adapter_guid" ∷ "interface_index" ∷ "adapter_state" ∷ "health_stage"
          ∷ "routed_traffic" ∷ [])
        reconcile_owned_capture recover_owned_network true false "TUN capture is unavailable"
    ∷ plan route
        ("session_id" ∷ "endpoint_bypass" ∷ "owned_split_routes" ∷ "interface_index" ∷ "route_probe"
          ∷ [])
        reconcile_owned_network recover_owned_network true false
        "Navo-owned routes do not carry the expected traffic"
    ∷ plan dns ("dns_query" ∷ "resolver_path" ∷ "owned_nrpt" ∷ "proxy_dns" ∷ [])
        reconcile_owned_network recover_owned_network true false
        "name resolution through the active Navo path is unavailable"
    ∷ plan nrpt ("session_id" ∷ "owned_nrpt_rule" ∷ "resolver_path" ∷ "dns_query" ∷ [])
        reconcile_owned_network recover_owned_network true false
        "Navo-owned DNS routing is inconsistent"
    ∷ plan firewall
        ("session_id" ∷ "owned_firewall_rule" ∷ "direction" ∷ "action" ∷ "remote_cidr" ∷ [])
        reconcile_owned_network recover_owned_network true false
        "a Navo-owned firewall rule blocks or leaks traffic"
    ∷ plan traffic_rule
        ("runtime_mode" ∷ "list_mode" ∷ "compiled_revision" ∷ "matched_rule" ∷ "route_probe" ∷ [])
        reapply_traffic_policy restart_owned_core true false
        "traffic does not follow the selected Navo policy"
    ∷ plan physical_network
        ("physical_adapter" ∷ "link_state" ∷ "gateway" ∷ "direct_dns" ∷ "direct_https" ∷ [])
        no_action no_action false false
        "the physical network is unavailable; Navo will not modify it"
    ∷ plan detection
        ("probe_scope" ∷ "probe_error" ∷ "independent_control_probe" ∷ "checked_at" ∷ []) no_action
        no_action false false "connectivity cannot be determined reliably"
    ∷ unknown_plan
    ∷ []

abbrev domain_code : FaultDomain → ℕ
domain_code node = 0
domain_code core = 1
domain_code system_proxy = 2
domain_code tun = 3
domain_code route = 4
domain_code dns = 5
domain_code nrpt = 6
domain_code firewall = 7
domain_code traffic_rule = 8
domain_code physical_network = 9
domain_code detection = 10
domain_code unknown_domain = 11
domain_code (other name) = 12

-- The loop of PlanFor; `fallback` is the plan that it calls itself for.
find_plan : FaultPlan → FaultDomain → List FaultPlan → FaultPlan
find_plan fallback domain [] = fallback
find_plan fallback domain (p ∷ plans) =
    if domain_code p.domain == domain_code domain then p else find_plan fallback domain plans

-- PlanFor(FaultDomainUnknown) finds the last row, so the recursive call ends.
unfoldable pub plan_for : FaultDomain → FaultPlan
unfolding find_plan fault_matrix
plan_for domain = find_plan (find_plan unknown_plan unknown_domain fault_matrix) domain fault_matrix

-- FaultPlan.Action
unfoldable pub action : FaultPlan → ℤ → RepairActionName
action p round =
    if ltb_ℤ round (pos 1) || ltb_ℤ (pos 2) round
    then no_action
    else if pos_part round == 1
    then p.first_action
    else p.second_action

abbrev is_action : RepairActionName → Bool
is_action no_action = false
is_action _ = true

idle_plan :
    (p : FaultPlan)
    → p.first_action ≡ no_action
    → p.second_action ≡ no_action
    → (round : ℤ) → action p round ≡ no_action
unfolding action
idle_plan p a b round = ground arith

-- A controllable domain has an action in both rounds; one that is not has none in any round, and an
-- unlisted domain is treated like the unknown one. Only faults of the node allow a failover.
pub plan_for-action :
    (domain : FaultDomain)
    → let p = plan_for domain in
      ((p.controllable ≡ true) × (action p (pos 1) ≢ no_action) × (action p (pos 2) ≢ no_action)
        ⊎ (p.controllable ≡ false) × ((round : ℤ) → action p round ≡ no_action))
      × (p.allow_failover ≡ true → domain ≡ node)
unfolding plan_for action
plan_for-action node = (inl (refl, (λ e. cc), (λ e. cc)), λ e. refl)
plan_for-action core = (inl (refl, (λ e. cc), (λ e. cc)), λ e. cc)
plan_for-action system_proxy = (inl (refl, (λ e. cc), (λ e. cc)), λ e. cc)
plan_for-action tun = (inl (refl, (λ e. cc), (λ e. cc)), λ e. cc)
plan_for-action route = (inl (refl, (λ e. cc), (λ e. cc)), λ e. cc)
plan_for-action dns = (inl (refl, (λ e. cc), (λ e. cc)), λ e. cc)
plan_for-action nrpt = (inl (refl, (λ e. cc), (λ e. cc)), λ e. cc)
plan_for-action firewall = (inl (refl, (λ e. cc), (λ e. cc)), λ e. cc)
plan_for-action traffic_rule = (inl (refl, (λ e. cc), (λ e. cc)), λ e. cc)
plan_for-action physical_network =
    (inr (refl, idle_plan (plan_for physical_network) refl refl), λ e. cc)
plan_for-action detection = (inr (refl, idle_plan (plan_for detection) refl refl), λ e. cc)
plan_for-action unknown_domain =
    (inr (refl, idle_plan (plan_for unknown_domain) refl refl), λ e. cc)
plan_for-action (other name) = (inr (refl, idle_plan (plan_for (other name)) refl refl), λ e. cc)
