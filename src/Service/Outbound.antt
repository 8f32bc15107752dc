-- ===== src/Service/Outbound.antt =====
-- internal/compiler/multi_core.go, Compatible, and what internal/service/failover.go, runtime.go and
-- capture_transition.go do with a list of outbounds: the pool of a failover, the pin of the selected
-- outbound's address and the test that it can be reached. Credentials and the transport's options are only
-- passed on and are left out.
use navo.Base.{
  ℕ, String, Bool, true, false, not, ◌||◌, Option, none, some, List, [], ◌∷◌, str_eq, if◌then◌else◌,
}

pub record Outbound : Type 0 where
  pub id : String
  pub name : String
  -- OutboundType
  pub kind : String
  pub server : String
  pub port : ℕ
  pub enabled : Bool
  pub provider_id : String
  pub tls : Bool
  pub sni : String

-- `switch` with a list of cases.
unfoldable pub one_of : List String → String → Bool
one_of [] s = false
one_of (x ∷ xs) s = str_eq s x || one_of xs s

-- Compatible
unfoldable pub compatible : String → Outbound → Bool
compatible core_id outbound =
    if one_of ("sing-box" ∷ "mihomo" ∷ []) core_id
    then not (str_eq outbound.kind "wireguard")
    else if str_eq core_id "xray"
    then one_of ("direct" ∷ "socks" ∷ "http" ∷ "shadowsocks" ∷ "vmess" ∷ "vless" ∷ "trojan" ∷ [])
        outbound.kind
    else false

-- outboundRequiresUDP
unfoldable pub outbound_requires_udp : Option Outbound → Bool
outbound_requires_udp none = false
outbound_requires_udp (some outbound) =
    one_of ("shadowsocks" ∷ "vmess" ∷ "vless" ∷ "trojan" ∷ "hysteria2" ∷ "tuic" ∷ []) outbound.kind

-- The first outbound with an id, which the loops over `currentOutbounds` look for.
unfoldable pub find_outbound : String → List Outbound → Option Outbound
find_outbound id [] = none
find_outbound id (o ∷ outbounds) =
    let rest = find_outbound id outbounds in if str_eq o.id id then some o else rest

-- isDirectRuntime, isUnselectedDirectRuntime
unfoldable pub is_direct_runtime : String → String → Option Outbound → Bool
is_direct_runtime mode selected_id selected =
    if str_eq mode "direct"
    then true
    else elim selected [ none ↦ str_eq selected_id "" | some o ↦ false ]

-- outboundSourceType
unfoldable pub outbound_source_type : Outbound → String
outbound_source_type o =
    if str_eq o.provider_id "upstream_proxy" then "upstream_proxy" else "airport_subscription"

-- The part of a TUNActivationPlan that says where the selected outbound's server is.
pub record Pin : Type 0 where
  pub selected_outbound_id : String
  pub original_server_host : String
  pub pinned_server_ip : String

-- The outbound with its address pinned; `is_ip` is `net.ParseIP(host) != nil`.
unfoldable pub pinned : (String → Bool) → Pin → Outbound → Outbound
pinned is_ip pin o = record o {
  sni =
      if o.tls
      then (if str_eq o.sni ""
          then (if is_ip pin.original_server_host then o.sni else pin.original_server_host)
          else o.sni)
      else o.sni;
  server = pin.pinned_server_ip;
}

unfoldable pub pin_first : (String → Bool) → Pin → List Outbound → Option (List Outbound)
pin_first is_ip pin [] = none
pin_first is_ip pin (o ∷ outbounds) =
    let rest = pin_first is_ip pin outbounds in
    if not (str_eq o.id pin.selected_outbound_id)
    then elim rest [ none ↦ none | some tail ↦ some (o ∷ tail) ]
    else if not (str_eq o.server pin.original_server_host) || str_eq pin.pinned_server_ip ""
    then none
    else some (pinned is_ip pin o ∷ outbounds)

-- pinSelectedOutbound; `none` is its only error, TUN_ENDPOINT_PIN_FAILED.
unfoldable pub pin_selected_outbound :
    (String → Bool) → Pin → List Outbound → Option (List Outbound)
pin_selected_outbound is_ip pin outbounds =
    if str_eq pin.original_server_host "" then some outbounds else pin_first is_ip pin outbounds
