-- ===== src/Compat/Validation.antt =====
-- internal/domain/endpoint: the endpoints that Validate accepts, described without its lists of errors.
use navo.Base.{
  ℕ, suc, ◌≢◌, eq_iff, ◌≡◌, ◌↔◌, refl, String, Bool, true, false, not, ◌||◌, Option, none, some,
  List, [], ◌∷◌, ◌++◌, All, arith, ◌==◌,
}
use navo.Base.Int.{pos, ltb_ℤ}
use navo.Base.Text.{codes, trim_space}
use navo.Compat.Spec.{
  ErrorCode, invalid, required, out_of_range, mutually_exclusive, Errors, unless, is_blank,
  TlsOptions, RealityOptions, TransportOptions, TransportType, no_transport, tcp, websocket,
  httpupgrade, grpc, http_transport, quic, other_transport, validate_reality, validate_tls,
  has_line_break, validate_headers, is_rooted, validate_transport_type, validate_transport, Spec,
  vless_spec, vmess_spec, trojan_spec, shadowsocks_spec, hysteria2_spec, tuic_spec, wireguard_spec,
  http_spec, socks5_spec, protocol_of, both_or_neither, is_empty, validate_spec, is_valid_protocol,
  protocol_name, other_protocol,
}
use navo.Compat.Endpoint.{
  Parsers, Endpoint, valid_server, is_hash, same_protocol, head_errors, tail_errors,
  validate_endpoint,
}
use navo.Compat.Leaves.{
  Given, IsInLine, IsRooted, IsWhole, IsServer, IsHash, unless_iff, checked, Given-iff, line_iff,
  both_iff, IsRooted-iff, at_least_zero, at_least_one, filled, whole, known_protocol, IsServer-iff,
  port_iff, IsHash-iff, given,
}

-- Reality wants TLS and a public key.
abbrev pub IsReality : Bool → Option RealityOptions → Type 0
IsReality enabled none = Unit
IsReality enabled (some reality) = (enabled ≡ true) × Given reality.public_key

abbrev pub IsTls : TlsOptions → Type 0
IsTls o = IsReality o.enabled o.reality

abbrev pub IsHeader : String × String → Type 0
IsHeader (name, value) = (Given name × All IsInLine (codes name)) × All IsInLine (codes value)

abbrev pub IsTransportType : TransportOptions → TransportType → Type 0
IsTransportType o no_transport = Unit
IsTransportType o tcp = Unit
IsTransportType o websocket = IsRooted o.path
IsTransportType o httpupgrade = IsRooted o.path
IsTransportType o http_transport = IsRooted o.path
IsTransportType o grpc = Given o.service_name
IsTransportType o quic = Unit
IsTransportType o (other_transport name) = ⊥

abbrev pub IsTransport : TransportOptions → Type 0
IsTransport o = IsTransportType o o.kind × All IsHeader o.headers

abbrev pub IsSpec : Spec → Type 0
IsSpec (vless_spec uuid flow encryption tls transport) =
    Given uuid × (IsTls tls × IsTransport transport)
IsSpec (vmess_spec uuid alter_id security tls transport) =
    Given uuid × (((n : ℕ) × (alter_id ≡ pos n)) × (IsTls tls × IsTransport transport))
IsSpec (trojan_spec password_ref tls transport) =
    Given password_ref × ((tls.enabled ≡ true) × (IsTls tls × IsTransport transport))
IsSpec (shadowsocks_spec method password_ref plugin) =
    Given method
    × (Given password_ref × (elim plugin [ none ↦ Unit | some options ↦ Given options.name ]))
IsSpec (hysteria2_spec password_ref tls obfs) =
    Given password_ref
    × ((tls.enabled ≡ true)
        × (IsTls tls × (elim obfs [
          | none ↦ Unit
          | some options ↦ Given options.kind × Given options.password_ref
        ])))
IsSpec (tuic_spec uuid password_ref congestion tls) =
    Given uuid × (Given password_ref × ((tls.enabled ≡ true) × IsTls tls))
IsSpec (wireguard_spec private_key peer_key pre_shared addresses mtu) =
    Given private_key × (Given peer_key × (addresses ≢ []))
IsSpec (http_spec tls user password headers) = IsWhole user password × (Unit × All IsHeader headers)
IsSpec (socks5_spec user password udp_requested) = IsWhole user password

-- Every field is what it should be, and the spec is one of the endpoint's protocol.
abbrev pub IsHead : Parsers → Endpoint → Type 0
IsHead parsers e =
    Given e.id
    × (Given e.provider_id
        × (Given e.name
            × (((name : String) → e.protocol ≢ other_protocol name)
                × (IsServer parsers (trim_space e.server)
                    × ((e.port ≢ 0) × ((n : ℕ) × (e.spec_version ≡ pos (suc n))))))))

abbrev pub IsTail : Endpoint → Option Spec → Type 0
IsTail e none = ⊥
IsTail e (some spec) =
    (protocol_name (protocol_of spec) ≡ protocol_name e.protocol)
    × (IsSpec spec × IsHash e.raw_hash)

abbrev pub IsEndpoint : Parsers → Endpoint → Type 0
IsEndpoint parsers e = IsHead parsers e × IsTail e e.spec

-- Both lists are empty.
both :
    {P Q : Type 0} {xs ys : Errors}
    → ((xs ≡ []) ↔ P)
    → ((ys ≡ []) ↔ Q)
    → ((xs ++ ys) ≡ []) ↔ (P × Q)
both {xs = []} p q = (λ h. (p.0 refl, q.0 h), λ h. q.1 h.1)
both {xs = x ∷ xs} p q = (λ h. absurd (ground (arith, h)), λ h. absurd (ground (arith, p.1 h.0)))

none_iff : {P : Type 0} → P → (Path Errors [] []) ↔ P
none_iff p = (λ h. p, λ h. refl)

reality_lem :
    (field : String) (enabled : Bool) (reality : Option RealityOptions)
    → (validate_reality field enabled reality ≡ []) ↔ IsReality enabled reality
reality_lem field enabled none = none_iff tt
reality_lem field enabled (some reality) =
    both (unless_iff enabled _ invalid) (given _ reality.public_key)

tls_lem : (field : String) (o : TlsOptions) → (validate_tls field o ≡ []) ↔ IsTls o
unfolding validate_tls
tls_lem field o = reality_lem field o.enabled o.reality

headers_lem :
    (field : String) (headers : List (String × String))
    → (validate_headers field headers ≡ []) ↔ All IsHeader headers
unfolding validate_headers
headers_lem field [] = none_iff tt
headers_lem field ((name, value) ∷ headers) =
    let line_name =
      both_iff (is_blank name) (has_line_break (codes name)) (Given-iff name)
        (line_iff (codes name)) in
    let here =
      both (checked (not (is_blank name || has_line_break (codes name))) _ invalid line_name) (
        both (checked (not (has_line_break (codes value))) _ invalid (line_iff (codes value)))
          (headers_lem field headers)) in
    (λ h. (let (a, (b, c)) = here.0 h in ((a, b), c)), λ h. here.1 (h.0.0, (h.0.1, h.1)))

false_iff : (field : String) (code : ErrorCode) → (unless false field code ≡ []) ↔ ⊥
false_iff field code = ground (arith)

transport_type_lem :
    (field : String) (o : TransportOptions) (kind : TransportType)
    → (validate_transport_type field o kind ≡ []) ↔ IsTransportType o kind
transport_type_lem field o no_transport = none_iff tt
transport_type_lem field o tcp = none_iff tt
transport_type_lem field o websocket = checked (is_rooted o.path) _ invalid (IsRooted-iff o.path)
transport_type_lem field o httpupgrade = checked (is_rooted o.path) _ invalid (IsRooted-iff o.path)
transport_type_lem field o http_transport =
    checked (is_rooted o.path) _ invalid (IsRooted-iff o.path)
transport_type_lem field o grpc = given _ o.service_name
transport_type_lem field o quic = none_iff tt
transport_type_lem field o (other_transport name) = false_iff _ invalid

transport_lem :
    (field : String) (o : TransportOptions) → (validate_transport field o ≡ []) ↔ IsTransport o
unfolding validate_transport
transport_lem field o = both (transport_type_lem field o o.kind) (headers_lem field o.headers)

spec_lem : (spec : Spec) → (validate_spec spec ≡ []) ↔ IsSpec spec
unfolding validate_spec
spec_lem (vless_spec uuid flow encryption tls transport) =
    both (given _ uuid) (both (tls_lem _ tls) (transport_lem _ transport))
spec_lem (vmess_spec uuid alter_id security tls transport) = both (given _ uuid) (
    both (checked (not (ltb_ℤ alter_id (pos 0))) _ out_of_range (at_least_zero alter_id))
      (both (tls_lem _ tls) (transport_lem _ transport)))
spec_lem (trojan_spec password_ref tls transport) =
    both (given _ password_ref)
      (both (unless_iff tls.enabled _ invalid) (both (tls_lem _ tls) (transport_lem _ transport)))
spec_lem (shadowsocks_spec method password_ref none) =
    both (given _ method) (both (given _ password_ref) (none_iff tt))
spec_lem (shadowsocks_spec method password_ref (some options)) =
    both (given _ method) (both (given _ password_ref) (given _ options.name))
spec_lem (hysteria2_spec password_ref tls none) =
    both (given _ password_ref)
      (both (unless_iff tls.enabled _ invalid) (both (tls_lem _ tls) (none_iff tt)))
spec_lem (hysteria2_spec password_ref tls (some options)) = both (given _ password_ref) (
    both (unless_iff tls.enabled _ invalid)
      (both (tls_lem _ tls) (both (given _ options.kind) (given _ options.password_ref))))
spec_lem (tuic_spec uuid password_ref congestion tls) =
    both (given _ uuid)
      (both (given _ password_ref) (both (unless_iff tls.enabled _ invalid) (tls_lem _ tls)))
spec_lem (wireguard_spec private_key peer_key pre_shared addresses mtu) =
    both (given _ private_key)
      (both (given _ peer_key) (checked (not (is_empty addresses)) _ required (filled addresses)))
spec_lem (http_spec tls user password headers) =
    both (checked (both_or_neither user password) _ mutually_exclusive (whole user password))
      (transport_lem _ _)
spec_lem (socks5_spec user password udp_requested) =
    checked (both_or_neither user password) _ mutually_exclusive (whole user password)

head_lem : (parsers : Parsers) (e : Endpoint) → (head_errors parsers e ≡ []) ↔ IsHead parsers e
head_lem parsers e = both (given _ e.id) (
    both (given _ e.provider_id) (
      both (given _ e.name) (
        both (checked (is_valid_protocol e.protocol) _ invalid (known_protocol e.protocol)) (
          both (checked (valid_server parsers e.server) _ invalid (IsServer-iff parsers e.server)) (
            both (checked (not (e.port == 0)) _ out_of_range (port_iff e.port)) (
              checked (not (ltb_ℤ e.spec_version (pos 1))) _ out_of_range
                (at_least_one e.spec_version)))))))

tail_lem : (e : Endpoint) (spec : Option Spec) → (tail_errors e spec ≡ []) ↔ IsTail e spec
tail_lem e none = false_iff _ required
tail_lem e (some spec) =
    both
      (checked (same_protocol (protocol_of spec) e.protocol) _ invalid
        (eq_iff (protocol_name (protocol_of spec)) (protocol_name e.protocol)))
      (both (spec_lem spec) (checked (is_hash e.raw_hash) _ invalid (IsHash-iff e.raw_hash)))

-- Validate reports nothing if and only if the endpoint is as IsEndpoint says. Its id, provider and name are more than
-- spaces, its protocol is known, its server is an address or a host name without separators, its port is not 0 and its
-- version at least 1. Its spec is there, is of the endpoint's protocol and has what that protocol needs: identifiers
-- and references that are given, TLS where it must be on, a user with a password or neither, transports with a path
-- from the root or a service name, headers on one line. Its hash is blank or has at least 32 bytes.
pub validate_endpoint-IsEndpoint :
    (parsers : Parsers) (e : Endpoint) → (validate_endpoint parsers e ≡ []) ↔ IsEndpoint parsers e
unfolding validate_endpoint
validate_endpoint-IsEndpoint parsers e = both (head_lem parsers e) (tail_lem e e.spec)
