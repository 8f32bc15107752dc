-- ===== src/Service/Routing.antt =====
-- internal/service/runtime.go, runtimeRoutingPolicy and its helpers: the rules and the final outbound that
-- the service gives the compiler for a mode, a list mode and the user's two lists.
use Prim.Native.String.{◌++◌ as append_text}
use mathlib.Core.List.{◌++◌}
use navo.Base.{
  String, Bool, true, false, not, ◌&&◌, List, [], ◌∷◌, str_eq, if◌then◌else◌, select, is_empty_list,
}
use navo.Base.Text.{codes, contains}
pub mod Decision
pub mod Entries
mod Examples

-- compiler.RuleType: the two of these rules.
pub data RuleType : Type 0 where
  domain_suffix : RuleType
  ip_cidr : RuleType

-- compiler.RoutingRule: the fields that routingRule sets.
pub record RoutingRule : Type 0 where
  pub id : String
  pub name : String
  pub rule_type : RuleType
  pub values : List String
  pub outbound_id : String
  pub outbound_tag : String
  pub enabled : Bool

-- routingRule
abbrev pub routing_rule : String → String → RuleType → List String → String → RoutingRule
routing_rule id name rule_type values outbound = record {
  id = id;
  name = name;
  rule_type = rule_type;
  values = values;
  outbound_id = outbound;
  outbound_tag = outbound;
  enabled = true;
}

-- privateRouteCIDRs
abbrev pub private_route_cidrs : List String
private_route_cidrs =
    "10.0.0.0/8" ∷ "100.64.0.0/10" ∷ "127.0.0.0/8" ∷ "169.254.0.0/16" ∷ "172.16.0.0/12"
    ∷ "192.168.0.0/16" ∷ "::1/128" ∷ "fc00::/7" ∷ "fe80::/10" ∷ []

-- mainlandDirectDomainSuffixes
abbrev pub mainland_direct_domain_suffixes : List String
mainland_direct_domain_suffixes =
    "cn" ∷ "baidu.com" ∷ "qq.com" ∷ "wechat.com" ∷ "weixin.qq.com" ∷ "taobao.com" ∷ "tmall.com"
    ∷ "jd.com" ∷ "bilibili.com" ∷ "douyin.com" ∷ "zhihu.com" ∷ "163.com" ∷ "126.com" ∷ "sina.com.cn"
    ∷ "weibo.com" ∷ "alipay.com" ∷ "aliyun.com" ∷ "bytedance.com" ∷ []

-- An entry with a slash is a CIDR.
unfoldable pub is_cidr : String → Bool
unfolding contains
is_cidr entry = contains (codes entry) (codes "/")

-- A rule is appended only if it has values.
unfoldable pub append_rule :
    List RoutingRule → String → String → RuleType → List String → String → List RoutingRule
append_rule rules id name rule_type values outbound =
    if is_empty_list values
    then rules
    else rules ++ (routing_rule id name rule_type values outbound ∷ [])

-- appendRuntimeListRules
unfoldable pub append_runtime_list_rules :
    List RoutingRule → String → String → List String → String → List RoutingRule
unfolding append_rule
append_runtime_list_rules rules id name entries outbound =
    let domains = select (λ entry. not (is_cidr entry)) entries in
    let cidrs = select is_cidr entries in
    let with_domains = append_rule rules id name RuleType.domain_suffix domains outbound in
    append_rule with_domains (append_text id "-ip") (append_text name " IP") RuleType.ip_cidr cidrs
      outbound

-- An empty tag stands for the direct outbound.
unfoldable pub effective_tag : String → String
effective_tag tag = if str_eq tag "" then "direct" else tag

-- The rules before the switch on the mode, with the tests of the two conditions.
unfoldable pub list_rules_when : Bool → Bool → String → List String → List String → List RoutingRule
unfolding append_runtime_list_rules
list_rules_when whitelisting blacklisting tag blacklist whitelist =
    let rules =
      routing_rule "private-networks" "Private networks" RuleType.ip_cidr private_route_cidrs
        "direct"
      ∷ [] in
    let whitelisted =
      if whitelisting
      then append_runtime_list_rules rules "direct-whitelist" "Direct whitelist" whitelist "direct"
      else rules in
    if blacklisting
    then append_runtime_list_rules whitelisted "proxy-blacklist" "Proxy blacklist" blacklist tag
    else whitelisted

unfoldable pub list_rules : String → String → List String → List String → List RoutingRule
unfolding list_rules_when
list_rules list_mode tag blacklist whitelist =
    list_rules_when (str_eq list_mode "whitelist")
      (str_eq list_mode "blacklist" && not (str_eq tag "direct")) tag blacklist whitelist

-- The final outbound and the rules.
pub record Policy : Type 0 where
  pub final : String
  pub rules : List RoutingRule

-- runtimeRoutingPolicy
unfoldable pub runtime_routing_policy :
    String → String → String → List String → List String → Policy
unfolding effective_tag list_rules
runtime_routing_policy mode list_mode selected_tag blacklist whitelist =
    let tag = effective_tag selected_tag in
    let rules = list_rules list_mode tag blacklist whitelist in
    if str_eq mode "direct"
    then record { final = "direct"; rules = rules }
    else if str_eq mode "global"
    then record { final = tag; rules = rules }
    else record {
      final = tag;
      rules =
          rules
          ++ (routing_rule "mainland-domains" "Mainland domains" RuleType.domain_suffix
                mainland_direct_domain_suffixes "direct"
              ∷ []);
    }
