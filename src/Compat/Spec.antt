-- ===== src/Compat/Spec.antt =====
-- internal/domain/endpoint: protocol.go, options.go and spec.go, with the errors of internal/domain/apperror.
-- The messages of the errors are left out; a map is the list of its entries, in any order.
use navo.Base.{
  ℕ, String, Bool, true, false, not, ◌&&◌, ◌||◌, Option, none, some, List, [], ◌∷◌, ◌++◌, str_eq,
  ◌==◌, if◌then◌else◌,
}
use navo.Base.Int.{ℤ, pos, ltb_ℤ}
use navo.Base.Text.{codes, begins_with, trim_space, concat}

pub data ErrorCode : Type 0 where
  required invalid mutually_exclusive out_of_range : ErrorCode

pub record ValidationError : Type 0 where
  pub field : String
  pub code : ErrorCode

abbrev pub Errors : Type 0
Errors = List ValidationError

abbrev pub is_blank : String → Bool
is_blank s = str_eq (trim_space s) ""

-- An error unless the test holds.
abbrev pub unless : Bool → String → ErrorCode → Errors
unless test field code = if test then [] else record { field = field; code = code } ∷ []

abbrev pub require_non_blank : String → String → Errors
require_non_blank field value = unless (not (is_blank value)) field required

pub data Protocol : Type 0 where
  vless vmess trojan shadowsocks hysteria2 tuic wireguard http https socks5 : Protocol
  other_protocol : String → Protocol

unfoldable pub is_valid_protocol : Protocol → Bool
is_valid_protocol (other_protocol name) = false
is_valid_protocol _ = true

abbrev pub protocol_name : Protocol → String
protocol_name vless = "vless"
protocol_name vmess = "vmess"
protocol_name trojan = "trojan"
protocol_name shadowsocks = "shadowsocks"
protocol_name hysteria2 = "hysteria2"
protocol_name tuic = "tuic"
protocol_name wireguard = "wireguard"
protocol_name http = "http"
protocol_name https = "https"
protocol_name socks5 = "socks5"
protocol_name (other_protocol name) = name

pub record RealityOptions : Type 0 where
  pub public_key : String
  pub short_id : String

pub record TlsOptions : Type 0 where
  pub enabled : Bool
  pub server_name : String
  pub alpn : List String
  pub insecure : Bool
  pub reality : Option RealityOptions

pub data TransportType : Type 0 where
  no_transport tcp websocket httpupgrade grpc http_transport quic : TransportType
  other_transport : String → TransportType

pub record TransportOptions : Type 0 where
  pub kind : TransportType
  pub path : String
  pub host : String
  pub service_name : String
  pub headers : List (String × String)

pub record PluginOptions : Type 0 where
  pub name : String
  pub options : List (String × String)

pub record ObfsOptions : Type 0 where
  pub kind : String
  pub password_ref : String

abbrev pub validate_reality : String → Bool → Option RealityOptions → Errors
validate_reality field enabled none = []
validate_reality field enabled (some reality) =
    unless enabled (concat (field ∷ ".enabled" ∷ [])) invalid
    ++ unless (not (is_blank reality.public_key)) (concat (field ∷ ".reality.publicKey" ∷ []))
        required

-- TLSOptions.validate
unfoldable pub validate_tls : String → TlsOptions → Errors
validate_tls field o = validate_reality field o.enabled o.reality

-- strings.ContainsAny(s, "\r\n")
unfoldable pub has_line_break : List ℕ → Bool
has_line_break [] = false
has_line_break (c ∷ s) = c == 13 || c == 10 || has_line_break s

unfoldable pub validate_headers : String → List (String × String) → Errors
validate_headers field [] = []
validate_headers field ((name, value) ∷ headers) =
    unless (not (is_blank name || has_line_break (codes name))) (concat (field ∷ ".headers" ∷ []))
      invalid
    ++ (unless (not (has_line_break (codes value))) (concat (field ∷ ".headers" ∷ [])) invalid
        ++ validate_headers field headers)

abbrev pub is_rooted : String → Bool
is_rooted path = str_eq path "" || begins_with (codes path) (codes "/")

abbrev pub validate_transport_type : String → TransportOptions → TransportType → Errors
validate_transport_type field o no_transport = []
validate_transport_type field o tcp = []
validate_transport_type field o websocket =
    unless (is_rooted o.path) (concat (field ∷ ".path" ∷ [])) invalid
validate_transport_type field o httpupgrade =
    unless (is_rooted o.path) (concat (field ∷ ".path" ∷ [])) invalid
validate_transport_type field o http_transport =
    unless (is_rooted o.path) (concat (field ∷ ".path" ∷ [])) invalid
validate_transport_type field o grpc =
    unless (not (is_blank o.service_name)) (concat (field ∷ ".serviceName" ∷ [])) required
validate_transport_type field o quic = []
validate_transport_type field o (other_transport name) =
    unless false (concat (field ∷ ".type" ∷ [])) invalid

-- TransportOptions.validate
unfoldable pub validate_transport : String → TransportOptions → Errors
validate_transport field o =
    validate_transport_type field o o.kind ++ validate_headers field o.headers

pub data Spec : Type 0 where
  -- uuid, flow, encryption
  vless_spec : String → String → String → TlsOptions → TransportOptions → Spec
  -- uuid, alter id, security
  vmess_spec : String → ℤ → String → TlsOptions → TransportOptions → Spec
  -- password reference
  trojan_spec : String → TlsOptions → TransportOptions → Spec
  -- method, password reference
  shadowsocks_spec : String → String → Option PluginOptions → Spec
  -- password reference
  hysteria2_spec : String → TlsOptions → Option ObfsOptions → Spec
  -- uuid, password reference, congestion
  tuic_spec : String → String → String → TlsOptions → Spec
  -- private key reference, peer's public key, pre-shared key reference, local addresses, MTU
  wireguard_spec : String → String → Option String → List String → ℕ → Spec
  -- TLS, user name reference, password reference, headers
  http_spec : Bool → Option String → Option String → List (String × String) → Spec
  -- user name reference, password reference, whether UDP is requested
  socks5_spec : Option String → Option String → Bool → Spec

-- The Protocol methods.
unfoldable pub protocol_of : Spec → Protocol
protocol_of (vless_spec _ _ _ _ _) = vless
protocol_of (vmess_spec _ _ _ _ _) = vmess
protocol_of (trojan_spec _ _ _) = trojan
protocol_of (shadowsocks_spec _ _ _) = shadowsocks
protocol_of (hysteria2_spec _ _ _) = hysteria2
protocol_of (tuic_spec _ _ _ _) = tuic
protocol_of (wireguard_spec _ _ _ _ _) = wireguard
protocol_of (http_spec tls _ _ _) = if tls then https else http
protocol_of (socks5_spec _ _ _) = socks5

-- present
abbrev pub present : Option String → Bool
present none = false
present (some value) = not (is_blank value)

abbrev pub both_or_neither : Option String → Option String → Bool
both_or_neither user password =
    not ((present user && not (present password)) || (not (present user) && present password))

abbrev pub is_empty : List String → Bool
is_empty [] = true
is_empty (x ∷ xs) = false

-- The Validate methods.
unfoldable pub validate_spec : Spec → Errors
validate_spec (vless_spec uuid flow encryption tls transport) =
    require_non_blank "spec.uuid" uuid
    ++ (validate_tls "spec.tls" tls ++ validate_transport "spec.transport" transport)
validate_spec (vmess_spec uuid alter_id security tls transport) =
    require_non_blank "spec.uuid" uuid
    ++ (unless (not (ltb_ℤ alter_id (pos 0))) "spec.alterId" out_of_range
        ++ (validate_tls "spec.tls" tls ++ validate_transport "spec.transport" transport))
validate_spec (trojan_spec password_ref tls transport) =
    require_non_blank "spec.passwordRef" password_ref
    ++ (unless tls.enabled "spec.tls.enabled" invalid
        ++ (validate_tls "spec.tls" tls ++ validate_transport "spec.transport" transport))
validate_spec (shadowsocks_spec method password_ref plugin) =
    require_non_blank "spec.method" method
    ++ (require_non_blank "spec.passwordRef" password_ref ++ (elim plugin [
      | none ↦ []
      | some options ↦ unless (not (is_blank options.name)) "spec.plugin.name" required
    ]))
validate_spec (hysteria2_spec password_ref tls obfs) =
    require_non_blank "spec.passwordRef" password_ref
    ++ (unless tls.enabled "spec.tls.enabled" invalid
        ++ (validate_tls "spec.tls" tls ++ (elim obfs [
          | none ↦ []
          | some options ↦
              require_non_blank "spec.obfs.type" options.kind
              ++ require_non_blank "spec.obfs.passwordRef" options.password_ref
        ])))
validate_spec (tuic_spec uuid password_ref congestion tls) =
    require_non_blank "spec.uuid" uuid
    ++ (require_non_blank "spec.passwordRef" password_ref
        ++ (unless tls.enabled "spec.tls.enabled" invalid ++ validate_tls "spec.tls" tls))
validate_spec (wireguard_spec private_key peer_key pre_shared addresses mtu) =
    require_non_blank "spec.privateKeyRef" private_key
    ++ (require_non_blank "spec.peerPublicKey" peer_key
        ++ unless (not (is_empty addresses)) "spec.localAddresses" required)
validate_spec (http_spec tls user password headers) =
    unless (both_or_neither user password) "spec.credentials" mutually_exclusive
    ++ validate_transport "spec"
        (record { kind = no_transport; path = ""; host = ""; service_name = ""; headers = headers })
validate_spec (socks5_spec user password udp_requested) =
    unless (both_or_neither user password) "spec.credentials" mutually_exclusive
