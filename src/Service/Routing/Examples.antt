-- ===== src/Service/Routing/Examples.antt =====
-- internal/service/runtime.go: a policy with a blacklist of a domain and a network.
use navo.Base.{
  ℕ, ◌≤◌, ◌≡◌, inl, inr, refl, String, Bool, false, Option, none, some, All, List, [], ◌∷◌, str_eq,
  length, select, if◌then◌else◌,
}
use navo.Base.Text.{codes, contains, begins_with, same_codes}
use navo.Service.Routing.{
  RuleType, is_cidr, append_rule, append_runtime_list_rules, effective_tag, list_rules_when,
  list_rules, runtime_routing_policy,
}
use navo.Service.Routing.Decision.{
  any_hit, choose, any_entry, promised, runtime_routing_policy-promised,
}
use navo.Service.Routing.Entries.{normalize_routing_rule_entries, invalid_suffix}
use navo.Service.Routing.Entries.Normal.{
  IsEntry, Covered, HasNoRepeat, normalize_routing_rule_entries-IsNormal,
}

abbrev blacklist : List String
blacklist = "example.org" ∷ "203.0.113.0/24" ∷ []

-- A connection to an address of the listed network.
abbrev hits : RuleType → String → Bool
hits RuleType.domain_suffix v = false
hits RuleType.ip_cidr v = str_eq v "203.0.113.0/24"

policy_length :
    length (runtime_routing_policy "bypass_mainland" "blacklist" "node" blacklist []).rules ≡ 4
unfolding is_cidr append_rule append_runtime_list_rules effective_tag list_rules_when list_rules
    runtime_routing_policy contains begins_with select
policy_length = refl

promised_node : promised hits "direct" "blacklist" "node" blacklist [] ≡ "node"
unfolding any_hit any_entry promised effective_tag is_cidr contains begins_with
promised_node = refl

runtime_routing_policy-promised_example :
    choose hits
      (runtime_routing_policy "direct" "blacklist" "node" blacklist []).rules
      (runtime_routing_policy "direct" "blacklist" "node" blacklist []).final
    ≡ promised hits "direct" "blacklist" "node" blacklist []
runtime_routing_policy-promised_example =
    runtime_routing_policy-promised hits "direct" "blacklist" "node" blacklist []

-- A parser that knows one network.
abbrev parse_one : List ℕ → Option (List ℕ)
parse_one value =
    if same_codes value (codes "203.0.113.9/24") then some (codes "203.0.113.0/24") else none

abbrev raw_entries : List String
raw_entries = " *.Example.org " ∷ "example.org" ∷ "" ∷ "203.0.113.9/24" ∷ []

abbrev entries : List (List ℕ)
entries = codes "example.org" ∷ codes "203.0.113.0/24" ∷ []

entries_stored : normalize_routing_rule_entries parse_one raw_entries ≡ inr entries
unfolding normalize_routing_rule_entries
entries_stored = refl

refuses : normalize_routing_rule_entries parse_one ("-a.org" ∷ []) ≡ inl (invalid_suffix "-a.org")
unfolding normalize_routing_rule_entries
refuses = refl

normalize_routing_rule_entries-IsNormal_example :
    (length raw_entries ≤ 256)
    × All (IsEntry parse_one) entries
    × HasNoRepeat entries
    × All (Covered parse_one entries) raw_entries
normalize_routing_rule_entries-IsNormal_example =
    normalize_routing_rule_entries-IsNormal parse_one raw_entries entries_stored
