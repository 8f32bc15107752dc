-- ===== src/Compat/Examples.antt =====
-- The theorems about endpoints, on a Trojan endpoint that does not verify its server's certificate.
use navo.Base.{◌≡◌, ◌↔◌, refl, true, none, some, []}
use navo.Base.Int.{pos}
use navo.Base.Text.{trim_space}
use navo.Compat.Spec.{
  Spec, trojan, trojan_spec, tcp, is_valid_protocol, protocol_of, validate_tls, validate_headers,
  validate_transport, validate_spec,
}
use navo.Compat.Endpoint.{Parsers, Endpoint, valid_server, byte_length, validate_endpoint}
use navo.Compat.Resolver.{
  sing_box, tun, default_registry, get_adapter, has_protocol, has_mode, endpoint_tls, is_insecure,
  requests_udp, warnings_of, resolve, is_valid_result,
}
use navo.Compat.Validation.{IsEndpoint, validate_endpoint-IsEndpoint}
use navo.Compat.Resolution.{IsCapable, resolve-supported}

abbrev any_address : Parsers
any_address = record { is_ip = λ s. true; hostname = λ s. none }

abbrev small_spec : Spec
small_spec =
    trojan_spec "ref-1"
      (record { enabled = true; server_name = ""; alpn = []; insecure = true; reality = none })
      (record { kind = tcp; path = ""; host = ""; service_name = ""; headers = [] })

abbrev small_endpoint : Endpoint
small_endpoint = record {
  id = "e1";
  provider_id = "p1";
  name = "node";
  protocol = trojan;
  server = "203.0.113.7";
  port = 443;
  enabled = true;
  spec_version = pos 1;
  spec = some small_spec;
  raw_format = "";
  raw_hash = "";
}

validate_endpoint-IsEndpoint_example :
    (validate_endpoint any_address small_endpoint ≡ []) ↔ IsEndpoint any_address small_endpoint
validate_endpoint-IsEndpoint_example = validate_endpoint-IsEndpoint any_address small_endpoint

resolve-supported_example :
    (((resolve any_address default_registry sing_box small_endpoint tun).supported ≡ true)
      ↔ (IsEndpoint any_address small_endpoint × IsCapable default_registry sing_box trojan tun))
    × (is_valid_result (resolve any_address default_registry sing_box small_endpoint tun) ≡ true)
resolve-supported_example =
    resolve-supported any_address default_registry sing_box small_endpoint tun

small_endpoint-supported :
    (resolve any_address default_registry sing_box small_endpoint tun).supported ≡ true
unfolding resolve validate_endpoint validate_spec validate_transport validate_headers validate_tls
    is_valid_protocol valid_server protocol_of byte_length trim_space get_adapter has_protocol
    has_mode warnings_of is_insecure requests_udp endpoint_tls
small_endpoint-supported = refl
