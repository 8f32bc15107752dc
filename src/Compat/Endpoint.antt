-- ===== src/Compat/Endpoint.antt =====
-- internal/domain/endpoint/endpoint.go. Go's net and net/url are parameters, and so is the time.
use navo.Base.{
  ℕ, ◌+◌, String, Bool, true, false, not, ◌&&◌, ◌||◌, Option, none, some, List, [], ◌∷◌, ◌++◌,
  str_eq, ltb, ◌==◌, if◌then◌else◌,
}
use navo.Base.Int.{ℤ, pos, ltb_ℤ}
use navo.Base.Text.{codes, trim_space}
use navo.Compat.Spec.{
  Errors, invalid, required, out_of_range, unless, require_non_blank, is_blank, Protocol,
  protocol_name, is_valid_protocol, Spec, protocol_of, validate_spec,
}

-- net.ParseIP accepts the text; the host name of url.Parse("dns://" + text), if it parses.
pub record Parsers : Type 0 where
  pub is_ip : String → Bool
  pub hostname : String → Option String

pub record Endpoint : Type 0 where
  pub id : String
  pub provider_id : String
  pub name : String
  pub protocol : Protocol
  pub server : String
  pub port : ℕ
  pub enabled : Bool
  pub spec_version : ℤ
  pub spec : Option Spec
  pub raw_format : String
  pub raw_hash : String

-- strings.ContainsAny(s, " /\\")
unfoldable pub has_separator : List ℕ → Bool
has_separator [] = false
has_separator (c ∷ s) = c == 32 || c == 47 || c == 92 || has_separator s

-- validServer
unfoldable pub valid_server : Parsers → String → Bool
valid_server parsers server =
    let value = trim_space server in
    if str_eq value ""
    then false
    else if parsers.is_ip value
    then true
    else elim (parsers.hostname value) [
      | none ↦ false
      | some host ↦ str_eq host value && not (has_separator (codes value))
    ]

abbrev utf8_width : ℕ → ℕ
utf8_width c = if ltb c 0x80 then 1 else if ltb c 0x800 then 2 else if ltb c 0x10000 then 3 else 4

-- The `len` of a string, in bytes.
unfoldable pub byte_length : List ℕ → ℕ
byte_length [] = 0
byte_length (c ∷ s) = utf8_width c + byte_length s

abbrev pub is_hash : String → Bool
is_hash raw_hash = is_blank raw_hash || not (ltb (byte_length (codes (trim_space raw_hash))) 32)

abbrev pub same_protocol : Protocol → Protocol → Bool
same_protocol p q = str_eq (protocol_name p) (protocol_name q)

abbrev pub head_errors : Parsers → Endpoint → Errors
head_errors parsers e =
    require_non_blank "id" e.id
    ++ (require_non_blank "providerId" e.provider_id
        ++ (require_non_blank "name" e.name
            ++ (unless (is_valid_protocol e.protocol) "protocol" invalid
                ++ (unless (valid_server parsers e.server) "server" invalid
                    ++ (unless (not (e.port == 0)) "port" out_of_range
                        ++ unless (not (ltb_ℤ e.spec_version (pos 1))) "specVersion"
                            out_of_range)))))

abbrev pub tail_errors : Endpoint → Option Spec → Errors
tail_errors e none = unless false "spec" required
tail_errors e (some spec) =
    unless (same_protocol (protocol_of spec) e.protocol) "spec" invalid
    ++ (validate_spec spec ++ unless (is_hash e.raw_hash) "rawHash" invalid)

-- Endpoint.Validate, the empty list for a nil error.
unfoldable pub validate_endpoint : Parsers → Endpoint → Errors
validate_endpoint parsers e = head_errors parsers e ++ tail_errors e e.spec
