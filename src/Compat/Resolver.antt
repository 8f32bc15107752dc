-- ===== src/Compat/Resolver.antt =====
-- internal/compatibility/resolver.go, with domain/core, domain/capture/mode.go, domain/compatibility and the
-- capabilities in coreadapter/adapters.go. The messages of reasons and warnings are left out.
use navo.Base.{
  String, Bool, true, false, not, ◌&&◌, ◌||◌, Option, none, some, List, [], ◌∷◌, ◌++◌, str_eq,
  if◌then◌else◌, is_empty_list,
}
use navo.Compat.Spec.{
  Protocol, vless, vmess, trojan, shadowsocks, hysteria2, tuic, http, https, socks5, TlsOptions,
  Spec, vless_spec, vmess_spec, trojan_spec, hysteria2_spec, tuic_spec, socks5_spec,
}
use navo.Compat.Endpoint.{Endpoint, Parsers, validate_endpoint, same_protocol}

-- core.Type
pub data CoreType : Type 0 where
  mihomo xray sing_box : CoreType
  other_core : String → CoreType

abbrev pub core_name : CoreType → String
core_name mihomo = "mihomo"
core_name xray = "xray"
core_name sing_box = "sing-box"
core_name (other_core name) = name

-- capture.Mode
pub data Mode : Type 0 where
  off system_proxy tun : Mode
  other_mode : String → Mode

pub data Level : Type 0 where
  full_level limited_level unsupported_level : Level

pub data ReasonCode : Type 0 where
  core_not_registered protocol_unsupported capture_unsupported endpoint_invalid : ReasonCode

pub data WarningCode : Type 0 where
  tls_insecure socks_udp_unverified : WarningCode

pub record Result : Type 0 where
  pub supported : Bool
  pub level : Level
  pub reasons : List ReasonCode
  pub warnings : List WarningCode

abbrev pub supported_result : Result
supported_result = record { supported = true; level = full_level; reasons = []; warnings = [] }

abbrev pub limited_result : List WarningCode → Result
limited_result warnings = record {
  supported = true;
  level = limited_level;
  reasons = [];
  warnings = warnings;
}

abbrev pub unsupported_result : List ReasonCode → Result
unsupported_result reasons = record {
  supported = false;
  level = unsupported_level;
  reasons = reasons;
  warnings = [];
}

-- Result.Valid
unfoldable pub is_valid_result : Result → Bool
is_valid_result r = elim r.level [
  | full_level ↦ r.supported && is_empty_list r.reasons
  | limited_level ↦ r.supported && is_empty_list r.reasons && not (is_empty_list r.warnings)
  | unsupported_level ↦ not r.supported && not (is_empty_list r.reasons)
]

-- The part of CapabilitySet that the resolver reads.
pub record CapabilitySet : Type 0 where
  pub protocols : List Protocol
  pub tun_mode : Bool

unfoldable pub has_protocol : List Protocol → Protocol → Bool
has_protocol [] p = false
has_protocol (q ∷ protocols) p = same_protocol q p || has_protocol protocols p

-- captureCapabilities
unfoldable pub has_mode : CapabilitySet → Mode → Bool
has_mode c off = true
has_mode c system_proxy = true
has_mode c tun = c.tun_mode
has_mode c (other_mode name) = false

-- The adapters of a registry, whose core types differ.
abbrev pub Registry : Type 0
Registry = List (CoreType × CapabilitySet)

-- Registry.Get
unfoldable pub get_adapter : Registry → CoreType → Option CapabilitySet
get_adapter [] core = none
get_adapter ((type, capabilities) ∷ registry) core =
    let rest = get_adapter registry core in
    if str_eq (core_name type) (core_name core) then some capabilities else rest

abbrev wide_protocols : List Protocol
wide_protocols =
    vless ∷ vmess ∷ trojan ∷ shadowsocks ∷ hysteria2 ∷ tuic ∷ http ∷ https ∷ socks5 ∷ []

-- singBoxSpec, mihomoSpec and xraySpec
abbrev sing_box_capabilities : CapabilitySet
sing_box_capabilities = record { protocols = wide_protocols; tun_mode = true }

abbrev mihomo_capabilities : CapabilitySet
mihomo_capabilities = record { protocols = wide_protocols; tun_mode = true }

abbrev xray_capabilities : CapabilitySet
xray_capabilities = record {
  protocols = vless ∷ vmess ∷ trojan ∷ shadowsocks ∷ http ∷ https ∷ socks5 ∷ [];
  tun_mode = false;
}

-- NewDefaultRegistry
abbrev pub default_registry : Registry
default_registry =
    (sing_box, sing_box_capabilities)
    ∷ (mihomo, mihomo_capabilities)
    ∷ (xray, xray_capabilities)
    ∷ []

-- endpointTLS, of the specs that have one.
unfoldable pub endpoint_tls : Spec → Option TlsOptions
endpoint_tls (vless_spec _ _ _ tls _) = if tls.enabled then some tls else none
endpoint_tls (vmess_spec _ _ _ tls _) = if tls.enabled then some tls else none
endpoint_tls (trojan_spec _ tls _) = if tls.enabled then some tls else none
endpoint_tls (hysteria2_spec _ tls _) = if tls.enabled then some tls else none
endpoint_tls (tuic_spec _ _ _ tls) = if tls.enabled then some tls else none
endpoint_tls _ = none

unfoldable pub is_insecure : Spec → Bool
is_insecure spec = elim (endpoint_tls spec) [ none ↦ false | some tls ↦ tls.insecure ]

unfoldable pub requests_udp : Spec → Bool
requests_udp (socks5_spec _ _ udp_requested) = udp_requested
requests_udp _ = false

unfoldable pub warnings_of : Option Spec → List WarningCode
warnings_of none = []
warnings_of (some spec) =
    (if is_insecure spec then tls_insecure ∷ [] else [])
    ++ (if requests_udp spec then socks_udp_unverified ∷ [] else [])

-- Resolve
unfoldable pub resolve : Parsers → Registry → CoreType → Endpoint → Mode → Result
resolve parsers registry core target mode =
    if not (is_empty_list (validate_endpoint parsers target))
    then unsupported_result (endpoint_invalid ∷ [])
    else elim (get_adapter registry core) [
      | none ↦ unsupported_result (core_not_registered ∷ [])
      | some capabilities ↦
          let reasons =
            (if has_protocol capabilities.protocols target.protocol
              then []
              else protocol_unsupported ∷ [])
            ++ (if has_mode capabilities mode then [] else capture_unsupported ∷ []) in
          let warnings = warnings_of target.spec in
          if not (is_empty_list reasons)
          then unsupported_result reasons
          else if not (is_empty_list warnings)
          then limited_result warnings
          else supported_result
    ]
