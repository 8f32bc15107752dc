-- ===== src/Network/Plans.antt =====
-- internal/network/manager.go: the operations of a plan name resources that validateJournalResource accepts.
use navo.Base.{
  ℕ, ◌≡◌, ◌≢◌, ◌≤◌, true, false, List, [], ◌∷◌, ◌++◌, String, str_eq, arith, All, if◌then◌else◌,
  if-either, map, length, ◌+◌,
}
use navo.Base.Text.{codes, concat, contains, begins_with-append}
use navo.Network.Journal.{
  Checks, validate_journal_resource, is_route, all_session_chars, validate_recovery_journal,
  all_valid,
}
use navo.Network.Manager.{
  Config, ActivationPlan, EndpointRoutePlan, AdapterSnapshot, NetworkOperation, operations,
  endpoint_operation, split_operation, nrpt_operation, firewall_operation, is_block, session_metric,
}
use navo.Network.Writing.{Named, opening}

-- The prefix of an endpoint's route.
abbrev pub prefix_of : EndpointRoutePlan → String
prefix_of endpoint = concat (
    endpoint.endpoint_ip
    ∷ (if contains (codes endpoint.endpoint_ip) (codes ":") then "/128" else "/32")
    ∷ [])

module _ (checks : Checks) where
  -- A plan whose texts are what they should be.
  pub record IsPlan (plan : ActivationPlan) : Type 0 where
    pub session_named : str_eq plan.session_id "" ≡ false
    pub session_short : length (codes plan.session_id) ≤ 64
    pub session_plain : all_session_chars (codes plan.session_id) ≡ true
    pub adapter_named : str_eq plan.adapter_name "" ≡ false
    pub adapter_plain : checks.is_adapter_name plan.adapter_name ≡ true
    pub peer : checks.is_ip plan.tun_ipv4_peer ≡ true
    pub lower_half : checks.is_cidr "0.0.0.0/1" ≡ true
    pub upper_half : checks.is_cidr "128.0.0.0/1" ≡ true
    pub endpoints :
        All
          (λ (r : EndpointRoutePlan).
            (checks.is_cidr (prefix_of r) ≡ true)
            × (checks.is_ip r.next_hop ≡ true)
            × (r.interface_index ≢ 0))
          plan.endpoint_routes

  endpoints-Named :
      (metric : ℕ) (rs : List EndpointRoutePlan)
      → All
          (λ (r : EndpointRoutePlan).
            (checks.is_cidr (prefix_of r) ≡ true)
            × (checks.is_ip r.next_hop ≡ true)
            × (r.interface_index ≢ 0))
          rs
      → (ops : List NetworkOperation) → Named checks ops
      → Named checks (map (endpoint_operation metric) rs ++ ops)
  unfolding endpoint_operation validate_journal_resource is_route
  endpoints-Named metric [] h ops named = named
  endpoints-Named metric (r ∷ rs) h ops named =
      (ground (arith, h.0), endpoints-Named metric rs h.1 ops named)

  abbrev rule_operations : ActivationPlan → List NetworkOperation
  rule_operations plan =
      nrpt_operation plan ∷ (if is_block plan.ipv6_mode then firewall_operation plan ∷ [] else [])

  rules-Named : (plan : ActivationPlan) → Named checks (rule_operations plan)
  unfolding validate_journal_resource concat
  rules-Named plan = (
    begins_with-append "Navo:TUN:" (concat (plan.session_id ∷ [])),
    if-either (Named checks) (is_block plan.ipv6_mode)
        (begins_with-append "Navo TUN IPv6 Block " (concat (plan.session_id ∷ [])), tt) tt,
  )

  half-valid :
      (plan : ActivationPlan) (adapter : AdapterSnapshot)
      → IsPlan plan
      → adapter.interface_index ≢ 0
      → (prefix : String) → checks.is_cidr prefix ≡ true
      → validate_journal_resource checks (split_operation plan adapter prefix).identity ≡ true
  unfolding split_operation validate_journal_resource is_route
  half-valid plan adapter p stable prefix ok = ground (arith, p.peer, ok, stable)

  pub operations-Named :
      (plan : ActivationPlan) (adapter : AdapterSnapshot)
      → IsPlan plan
      → adapter.interface_index ≢ 0
      → Named checks (operations plan adapter)
  unfolding operations
  operations-Named plan adapter p stable =
      endpoints-Named (40000 + session_metric plan.session_id) plan.endpoint_routes p.endpoints
        (map (split_operation plan adapter) ("0.0.0.0/1" ∷ "128.0.0.0/1" ∷ [])
          ++ rule_operations plan)
        (
          half-valid plan adapter p stable "0.0.0.0/1" p.lower_half,
          (half-valid plan adapter p stable "128.0.0.0/1" p.upper_half, rules-Named plan),
        )

  pub opening-valid :
      (cfg : Config)
      → IsPlan cfg.activation_plan
      → validate_recovery_journal checks (opening cfg) ≡ true
  unfolding validate_recovery_journal all_valid
  opening-valid cfg p =
      ground
        (arith, p.session_named, p.session_short, p.session_plain, p.adapter_named, p.adapter_plain)
