-- ===== src/Compat/Leaves.antt =====
-- internal/domain/endpoint: the single tests of Validate, each described without the code's own test.
use navo.Base.{
  ℕ, zero, suc, ◌&&◌, ap, ◌∙◌, Option-cases, ◌≤◌, ◌≢◌, ◌⊎◌, inl, inr, Bool-cases, str_eq, eq_iff,
  ◌≡◌, ◌↔◌, refl, String, Bool, true, false, not, ◌||◌, Option, none, some, List, [], ◌∷◌, All,
  arith, ◌==◌,
}
use navo.Base.Int.{ℤ, pos, negsuc, ltb_ℤ}
use navo.Base.Text.{codes, trim_space, begins_with}
use navo.Compat.Spec.{
  Protocol, vless, vmess, trojan, shadowsocks, hysteria2, tuic, wireguard, http, https, socks5,
  ErrorCode, required, unless, is_blank, require_non_blank, has_line_break, is_rooted,
  both_or_neither, is_empty, is_valid_protocol, present, other_protocol,
}
use navo.Compat.Endpoint.{Parsers, valid_server, has_separator, byte_length, is_hash}

-- More than spaces.
abbrev pub Given : String → Type 0
Given s = trim_space s ≢ ""

abbrev pub IsInLine : ℕ → Type 0
IsInLine c = (c ≢ 13) × (c ≢ 10)

-- Empty, or beginning with a slash.
abbrev pub IsRooted : String → Type 0
IsRooted path = (path ≡ "") ⊎ ((rest : List ℕ) × (codes path ≡ 47 ∷ rest))

-- A user with a password, or neither.
abbrev IsPresent : Option String → Type 0
IsPresent none = ⊥
IsPresent (some value) = Given value

abbrev pub IsWhole : Option String → Option String → Type 0
IsWhole user password = IsPresent user ↔ IsPresent password

-- An address, or a host name of the resolver's own spelling without a space, a slash or a backslash.
abbrev pub IsServer : Parsers → String → Type 0
IsServer parsers value =
    (value ≢ "")
    × ((parsers.is_ip value ≡ true)
        ⊎ ((parsers.hostname value ≡ some value)
            × All (λ c. (c ≢ 32) × (c ≢ 47) × (c ≢ 92)) (codes value)))

-- Nothing but spaces, or at least 32 bytes.
abbrev pub IsHash : String → Type 0
IsHash raw_hash = (trim_space raw_hash ≡ "") ⊎ (32 ≤ byte_length (codes (trim_space raw_hash)))

pub unless_iff :
    (b : Bool) (field : String) (code : ErrorCode) → (unless b field code ≡ []) ↔ (b ≡ true)
unless_iff b field code = ground (arith)

-- No error if and only if what the test stands for holds.
pub checked :
    {P : Type 0} (b : Bool) (field : String) (code : ErrorCode)
    → ((b ≡ true) ↔ P)
    → (unless b field code ≡ []) ↔ P
checked true field code p = (λ h. p.0 refl, λ h. refl)
checked false field code p = (λ h. absurd (ground (arith, h)), λ h. absurd (ground (arith, p.1 h)))

pub Given-iff : (value : String) → (not (is_blank value) ≡ true) ↔ Given value
Given-iff value = elim (Bool-cases (str_eq (trim_space value) "")) [
  | inl empty ↦ rw empty (
    (λ h. absurd (ground (arith, h))),
    (λ h. absurd (h ((eq_iff (trim_space value) "").0 empty))),
  )
  | inr full ↦
      rw full ((λ h same. ground (arith, full, (eq_iff (trim_space value) "").1 same)), (λ h. refl))
]

pub line_iff : (s : List ℕ) → (not (has_line_break s) ≡ true) ↔ All IsInLine s
unfolding has_line_break
line_iff [] = (λ h. tt, λ h. refl)
line_iff (c ∷ s) =
    let rest = line_iff s in
    (
      (λ h. (
        ((λ same. ground (arith, h, same)), (λ same. ground (arith, h, same))),
        rest.0 (ground (arith, h)),
      )),
      (λ h. ground (arith, h.0.0, h.0.1, rest.1 h.1)),
    )

pub both_iff :
    {P Q : Type 0} (a b : Bool)
    → ((not a ≡ true) ↔ P)
    → ((not b ≡ true) ↔ Q)
    → (not (a || b) ≡ true) ↔ (P × Q)
both_iff true b p q = (λ h. absurd (ground (arith, h)), λ h. absurd (ground (arith, p.1 h.0)))
both_iff false b p q = (λ h. (p.0 refl, q.0 h), λ h. q.1 h.1)

pub IsRooted-iff : (path : String) → (is_rooted path ≡ true) ↔ IsRooted path
unfolding begins_with
IsRooted-iff path = (
  λ h. elim (Bool-cases (str_eq path "")) [
    | inl empty ↦ inl ((eq_iff path "").0 empty)
    | inr full ↦ inr (slash (codes path) (ground (arith, h, full)))
  ],
  λ h. elim h [
    | inl empty ↦ rw ((eq_iff path "").1 empty) refl
    | inr (rest, e) ↦ elim (Bool-cases (str_eq path "")) [
      | inl empty ↦ rw empty refl
      | inr full ↦ rw (full, e) refl
    ]
  ],
)
  where
    slash : (s : List ℕ) → begins_with s (47 ∷ []) ≡ true → (rest : List ℕ) × (s ≡ 47 ∷ rest)
    slash [] h = absurd (ground (arith, h))
    slash (c ∷ s) h = (s, ground (arith, h))

pub at_least_zero : (z : ℤ) → (not (ltb_ℤ z (pos 0)) ≡ true) ↔ ((n : ℕ) × (z ≡ pos n))
at_least_zero (pos n) = (λ h. (n, refl), λ h. ground arith)
at_least_zero (negsuc n) = (λ h. absurd (ground (arith, h)), λ h. absurd (cc))

pub at_least_one : (z : ℤ) → (not (ltb_ℤ z (pos 1)) ≡ true) ↔ ((n : ℕ) × (z ≡ pos (suc n)))
at_least_one (pos zero) = (λ h. absurd (ground (arith, h)), λ h. absurd (ground (arith, h.1)))
at_least_one (pos (suc n)) = (λ h. (n, refl), λ h. ground arith)
at_least_one (negsuc n) = (λ h. absurd (ground (arith, h)), λ h. absurd (cc))

pub filled : (xs : List String) → (not (is_empty xs) ≡ true) ↔ (xs ≢ [])
filled [] = (λ h. absurd (ground (arith, h)), λ h. absurd (h refl))
filled (x ∷ xs) = (λ h same. cc, λ h. refl)

present_iff : (o : Option String) → (present o ≡ true) ↔ IsPresent o
present_iff none = (λ h. absurd (ground (arith, h)), λ h. absurd h)
present_iff (some value) = Given-iff value

pub whole :
    (user password : Option String) → (both_or_neither user password ≡ true) ↔ IsWhole user password
whole user password =
    agree (present user) (present password) (present_iff user) (present_iff password)
  where
    agree :
        {P Q : Type 0} (a b : Bool)
        → ((a ≡ true) ↔ P)
        → ((b ≡ true) ↔ Q)
        → (not ((a && not b) || (not a && b)) ≡ true) ↔ (P ↔ Q)
    agree true true p q = (λ h. ((λ x. q.0 refl), (λ y. p.0 refl)), λ h. refl)
    agree true false p q =
        (λ h. absurd (ground (arith, h)), λ h. absurd (ground (arith, q.1 (h.0 (p.0 refl)))))
    agree false true p q =
        (λ h. absurd (ground (arith, h)), λ h. absurd (ground (arith, p.1 (h.1 (q.0 refl)))))
    agree false false p q = (
      λ h. ((λ x. absurd (ground (arith, p.1 x))), (λ y. absurd (ground (arith, q.1 y)))),
      λ h. refl,
    )

pub known_protocol :
    (p : Protocol) → (is_valid_protocol p ≡ true) ↔ ((name : String) → p ≢ other_protocol name)
unfolding is_valid_protocol
known_protocol (other_protocol name) = (λ h. absurd (ground (arith, h)), λ h. absurd (h name refl))
known_protocol vless = (λ h name same. cc, λ h. refl)
known_protocol vmess = (λ h name same. cc, λ h. refl)
known_protocol trojan = (λ h name same. cc, λ h. refl)
known_protocol shadowsocks = (λ h name same. cc, λ h. refl)
known_protocol hysteria2 = (λ h name same. cc, λ h. refl)
known_protocol tuic = (λ h name same. cc, λ h. refl)
known_protocol wireguard = (λ h name same. cc, λ h. refl)
known_protocol http = (λ h name same. cc, λ h. refl)
known_protocol https = (λ h name same. cc, λ h. refl)
known_protocol socks5 = (λ h name same. cc, λ h. refl)

separator_iff :
    (s : List ℕ) → (not (has_separator s) ≡ true) ↔ All (λ c. (c ≢ 32) × (c ≢ 47) × (c ≢ 92)) s
unfolding has_separator
separator_iff [] = (λ h. tt, λ h. refl)
separator_iff (c ∷ s) =
    let rest = separator_iff s in
    (
      (λ h. (
        (
          (λ same. ground (arith, h, same)),
          (λ same. ground (arith, h, same)),
          (λ same. ground (arith, h, same)),
        ),
        rest.0 (ground (arith, h)),
      )),
      (λ h. ground (arith, h.0.0, h.0.1, h.0.2, rest.1 h.1)),
    )

pub IsServer-iff :
    (parsers : Parsers) (server : String)
    → (valid_server parsers server ≡ true) ↔ IsServer parsers (trim_space server)
unfolding valid_server
IsServer-iff parsers server =
    let value = trim_space server in
    let named : str_eq value "" ≡ false → value ≢ "" =
      λ full same. ground (arith, full, (eq_iff value "").1 same) in
    elim (Bool-cases (str_eq value "")) [
      | inl empty ↦
          (λ h. absurd (ground (arith, h, empty)), λ h. absurd (h.0 ((eq_iff value "").0 empty)))
      | inr full ↦ elim (Bool-cases (parsers.is_ip value)) [
        | inl ip ↦ (λ h. (named full, inl ip), λ h. ground (arith, full, ip))
        | inr other ↦ elim (Option-cases (parsers.hostname value)) [
          | inl missing ↦ (
            λ h. absurd (ground (arith, full, other, missing, h)),
            λ h. elim h.1 [
              | inl ip ↦ absurd (ground (arith, ip, other))
              | inr (there, s) ↦ absurd (ground (arith, missing, there))
            ],
          )
          | inr (host, found) ↦ (
            λ h.
                (let same : str_eq host value ≡ true = ground (arith, full, other, found, h) in
                  (
                    named full,
                    inr (
                      found ∙ ap (λ x. some x) ((eq_iff host value).0 same),
                      (separator_iff (codes value)).0 (ground (arith, full, other, found, h)),
                    ),
                  )),
            λ h. elim h.1 [
              | inl ip ↦ absurd (ground (arith, ip, other))
              | inr (there, s) ↦ ground (
                arith,
                full,
                other,
                there,
                (eq_iff value value).1 refl,
                (separator_iff (codes value)).1 s,
              )
            ],
          )
        ]
      ]
    ]

pub port_iff : (port : ℕ) → (not (port == 0) ≡ true) ↔ (port ≢ 0)
port_iff zero = (λ h. absurd (ground (arith, h)), λ h. absurd (h refl))
port_iff (suc n) = (λ h same. ground (arith, same), λ h. ground arith)

pub IsHash-iff : (raw_hash : String) → (is_hash raw_hash ≡ true) ↔ IsHash raw_hash
IsHash-iff raw_hash =
    let value = trim_space raw_hash in
    elim (Bool-cases (str_eq value "")) [
      | inl empty ↦ rw empty ((λ h. inl ((eq_iff value "").0 empty)), (λ h. refl))
      | inr full ↦ rw full (
        (λ h. inr (ground (arith, h))),
        (λ h. elim h [
          | inl blank ↦ absurd (ground (arith, full, (eq_iff value "").1 blank))
          | inr long ↦ ground (arith, long)
        ]),
      )
    ]

pub given : (field value : String) → (require_non_blank field value ≡ []) ↔ Given value
given field value = checked (not (is_blank value)) field required (Given-iff value)
