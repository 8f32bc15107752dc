-- ===== src/Compat/Resolution.antt =====
-- internal/compatibility/resolver.go: when a core runs an endpoint, and what the answer says.
use navo.Base.{
  ◌≡◌, ◌≢◌, ◌⊎◌, ◌↔◌, refl, ap, inl, inr, true, some, List, str_eq, eq_iff, some-injective,
  Bool-cases, [], ◌∷◌, ◌++◌, if◌then◌else◌, arith, Option-cases,
}
use navo.Compat.Spec.{Spec, Protocol, protocol_name}
use navo.Compat.Endpoint.{Endpoint, Parsers, same_protocol, validate_endpoint}
use navo.Compat.Validation.{IsEndpoint, validate_endpoint-IsEndpoint}
use navo.Compat.Resolver.{
  CoreType, core_name, Mode, off, system_proxy, tun, other_mode, is_valid_result, CapabilitySet,
  has_protocol, has_mode, Registry, get_adapter, is_insecure, requests_udp, tls_insecure,
  socks_udp_unverified, warnings_of, resolve,
}

-- One of the protocols has the name.
abbrev pub Offers : List Protocol → Protocol → Type 0
Offers [] p = ⊥
Offers (q ∷ protocols) p = (protocol_name q ≡ protocol_name p) ⊎ Offers protocols p

-- Every core has the modes without TUN, and no core a mode that is unknown.
abbrev pub Captures : CapabilitySet → Mode → Type 0
Captures c off = Unit
Captures c system_proxy = Unit
Captures c tun = c.tun_mode ≡ true
Captures c (other_mode name) = ⊥

-- The first adapter that is registered under the core's name.
abbrev pub Registers : Registry → CoreType → CapabilitySet → Type 0
Registers [] core c = ⊥
Registers ((type, capabilities) ∷ registry) core c =
    ((core_name type ≡ core_name core) × (capabilities ≡ c))
    ⊎ ((core_name type ≢ core_name core) × Registers registry core c)

-- The core is registered, and its adapter has the endpoint's protocol and the mode.
abbrev pub IsCapable : Registry → CoreType → Protocol → Mode → Type 0
IsCapable registry core protocol mode =
    (c : CapabilitySet) × Registers registry core c × Offers c.protocols protocol × Captures c mode

Offers-iff :
    (protocols : List Protocol) (p : Protocol)
    → (has_protocol protocols p ≡ true) ↔ Offers protocols p
unfolding has_protocol
Offers-iff [] p = (λ h. absurd (ground (arith, h)), λ h. absurd h)
Offers-iff (q ∷ protocols) p =
    let rest = Offers-iff protocols p in
    elim (Bool-cases (same_protocol q p)) [
      | inl same ↦
          rw same ((λ h. inl ((eq_iff (protocol_name q) (protocol_name p)).0 same)), (λ h. refl))
      | inr other ↦ rw other (
        (λ h. inr (rest.0 h)),
        (λ h. elim h [
          | inl named ↦
              absurd (ground (arith, other, (eq_iff (protocol_name q) (protocol_name p)).1 named))
          | inr later ↦ rest.1 later
        ]),
      )
    ]

Captures-iff : (c : CapabilitySet) (mode : Mode) → (has_mode c mode ≡ true) ↔ Captures c mode
unfolding has_mode
Captures-iff c off = (λ h. tt, λ h. refl)
Captures-iff c system_proxy = (λ h. tt, λ h. refl)
Captures-iff c tun = (λ h. h, λ h. h)
Captures-iff c (other_mode name) = (λ h. absurd (ground (arith, h)), λ h. absurd h)

Registers-iff :
    (registry : Registry) (core : CoreType) (c : CapabilitySet)
    → (get_adapter registry core ≡ some c) ↔ Registers registry core c
unfolding get_adapter
Registers-iff [] core c = (λ h. cc, λ h. absurd h)
Registers-iff ((type, capabilities) ∷ registry) core c =
    let rest = Registers-iff registry core c in
    elim (Bool-cases (str_eq (core_name type) (core_name core))) [
      | inl same ↦
          let named = (eq_iff (core_name type) (core_name core)).0 same in
          rw same (
            (λ h. inl (named, some-injective capabilities c h)),
            (λ h. elim h [
              | inl (same_name, it) ↦ ap (λ x. some x) it
              | inr (away, later) ↦ absurd (away named)
            ]),
          )
      | inr other ↦ rw other (
        (λ h. inr (
          (λ same. ground (arith, other, (eq_iff (core_name type) (core_name core)).1 same)),
          rest.0 h,
        )),
        (λ h. elim h [
          | inl (same, it) ↦
              absurd (ground (arith, other, (eq_iff (core_name type) (core_name core)).1 same))
          | inr (away, later) ↦ rest.1 later
        ]),
      )
    ]

resolve-valid :
    (parsers : Parsers) (registry : Registry) (core : CoreType) (target : Endpoint) (mode : Mode)
    → is_valid_result (resolve parsers registry core target mode) ≡ true
unfolding resolve is_valid_result
resolve-valid parsers registry core target mode = elim (Option-cases (get_adapter registry core)) [
  | inl e ↦ ground (arith, e)
  | inr (c, e) ↦ ground (arith, e)
]

-- The tests of Resolve, all passed.
abbrev Passes : Registry → CoreType → Protocol → Mode → Type 0
Passes registry core protocol mode =
    (c : CapabilitySet) × (get_adapter registry core ≡ some c)
    × (has_protocol c.protocols protocol ≡ true)
    × (has_mode c mode ≡ true)

resolve_iff :
    (parsers : Parsers) (registry : Registry) (core : CoreType) (target : Endpoint) (mode : Mode)
    → ((resolve parsers registry core target mode).supported ≡ true)
      ↔ ((validate_endpoint parsers target ≡ []) × Passes registry core target.protocol mode)
unfolding resolve
resolve_iff parsers registry core target mode = (
  λ h. elim (Option-cases (get_adapter registry core)) [
    | inl e ↦ absurd (ground (arith, e, h))
    | inr (c, e) ↦ (ground (arith, e, h), (c, e, ground (arith, e, h), ground (arith, e, h)))
  ],
  λ (valid, (c, e, protocol, mode_there)). ground (arith, valid, e, protocol, mode_there),
)

-- An endpoint is supported if and only if it is as IsEndpoint says, and the core is registered with an adapter that
-- offers a protocol of its protocol's name and captures in the mode: off and the system proxy with every core, TUN
-- with the cores that say so, an unknown mode with none. And the answer is valid, supported or not.
pub resolve-supported :
    (parsers : Parsers) (registry : Registry) (core : CoreType) (target : Endpoint) (mode : Mode)
    → (((resolve parsers registry core target mode).supported ≡ true)
        ↔ (IsEndpoint parsers target × IsCapable registry core target.protocol mode))
      × (is_valid_result (resolve parsers registry core target mode) ≡ true)
resolve-supported parsers registry core target mode =
    let tests = resolve_iff parsers registry core target mode in
    let fine = validate_endpoint-IsEndpoint parsers target in
    (
      (
        (λ h.
            (let seen = tests.0 h in
              let c = seen.1.0 in
              (
                fine.0 seen.0,
                (
                  c,
                  (Registers-iff registry core c).0 seen.1.1,
                  (Offers-iff c.protocols target.protocol).0 seen.1.2,
                  (Captures-iff c mode).0 seen.1.3,
                ),
              ))),
        (λ h. tests.1 (
          fine.1 h.0,
          (
            h.1.0,
            (Registers-iff registry core h.1.0).1 h.1.1,
            (Offers-iff h.1.0.protocols target.protocol).1 h.1.2,
            (Captures-iff h.1.0 mode).1 h.1.3,
          ),
        )),
      ),
      resolve-valid parsers registry core target mode,
    )

-- The warnings of an endpoint that is supported are exactly these: one if its TLS options are enabled and insecure,
-- and one if it is a SOCKS5 proxy with UDP requested.
pub resolve-warnings :
    (parsers : Parsers) (registry : Registry) (core : CoreType) (target : Endpoint) (mode : Mode)
    (spec : Spec)
    → target.spec ≡ some spec
    → (resolve parsers registry core target mode).supported ≡ true
    → (resolve parsers registry core target mode).warnings
      ≡ (if is_insecure spec then tls_insecure ∷ [] else [])
        ++ (if requests_udp spec then socks_udp_unverified ∷ [] else [])
unfolding resolve warnings_of
resolve-warnings parsers registry core target mode spec given h =
    elim (Option-cases (get_adapter registry core)) [
      | inl e ↦ absurd (ground (arith, e, h))
      | inr (c, e) ↦ ground (arith, e, given, h)
    ]
