-- ===== src/Connection/Policy.antt =====
-- internal/connection/policy.go: who asks for a connection change, what it touches and how urgent it
-- is. The Go types are strings; `unknown` is a string that is none of the constants.
use navo.Base.{ℕ, String, ◌≡◌, ◌↔◌, Bool, true, ◌||◌, List, ◌==◌, arith, if◌then◌else◌}
use navo.Base.Text.{codes, trim_space, to_lower, contains}

pub data Operation : Type 0 where
  capture_switch node_switch core_switch source_mutation : Operation
  policy_change core_update recovery self_heal : Operation
  unknown : String → Operation

pub data Origin : Type 0 where
  user tray scheduler self_heal startup shutdown : Origin
  unknown : String → Origin

-- `unset` is the empty string, which an idle snapshot holds.
pub data Intent : Type 0 where
  safety interactive recovery startup background unset : Intent

pub data Domain : Type 0 where
  capture routing core source unset : Domain

abbrev domain_code : Domain → ℕ
domain_code Domain.capture = 0
domain_code Domain.routing = 1
domain_code Domain.core = 2
domain_code Domain.source = 3
domain_code Domain.unset = 4

-- `==` on domains.
unfoldable pub same_domain : Domain → Domain → Bool
same_domain a b = domain_code a == domain_code b

pub same_domain_iff : (a b : Domain) → (same_domain a b ≡ true) ↔ (a ≡ b)
unfolding same_domain
same_domain_iff a b = ground arith

pub record Policy : Type 0 where
  pub intent : Intent
  pub domain : Domain
  pub rank : ℕ

pub record Request : Type 0 where
  pub id : String
  pub operation : Operation
  pub origin : Origin
  pub fault_domain : String

intent_of_operation : Operation → Intent
intent_of_operation Operation.recovery = Intent.recovery
intent_of_operation Operation.self_heal = Intent.recovery
intent_of_operation _ = Intent.background

intent_of : Origin → Operation → Intent
unfolding intent_of_operation
intent_of Origin.shutdown operation = Intent.safety
intent_of Origin.user operation = Intent.interactive
intent_of Origin.tray operation = Intent.interactive
intent_of Origin.self_heal operation = Intent.recovery
intent_of Origin.startup operation = Intent.startup
intent_of Origin.scheduler operation = Intent.background
intent_of (Origin.unknown name) operation = intent_of_operation operation

unfoldable pub intent_for : Request → Intent
unfolding intent_of
intent_for request = intent_of request.origin request.operation

unfoldable pub intent_rank : Intent → ℕ
intent_rank Intent.safety = 500
intent_rank Intent.interactive = 400
intent_rank Intent.recovery = 300
intent_rank Intent.startup = 200
intent_rank _ = 100

-- The inner switch: `domain` is strings.ToLower(strings.TrimSpace(request.FaultDomain)).
fault_control_domain : List ℕ → Domain
unfolding contains
fault_control_domain domain =
    if contains domain (codes "core")
    then Domain.core
    else if contains domain (codes "node")
        || contains domain (codes "outbound")
        || contains domain (codes "policy")
        || contains domain (codes "runtime")
    then Domain.routing
    else if contains domain (codes "source") || contains domain (codes "subscription")
    then Domain.source
    else Domain.capture

domain_of : Operation → String → Domain
unfolding fault_control_domain to_lower trim_space
domain_of Operation.capture_switch fault_domain = Domain.capture
domain_of Operation.node_switch fault_domain = Domain.routing
domain_of Operation.policy_change fault_domain = Domain.routing
domain_of Operation.core_switch fault_domain = Domain.core
domain_of Operation.core_update fault_domain = Domain.core
domain_of Operation.source_mutation fault_domain = Domain.source
domain_of Operation.recovery fault_domain =
    fault_control_domain (to_lower (trim_space fault_domain))
domain_of Operation.self_heal fault_domain =
    fault_control_domain (to_lower (trim_space fault_domain))
domain_of (Operation.unknown name) fault_domain = Domain.capture

unfoldable pub domain_for : Request → Domain
unfolding domain_of
domain_for request = domain_of request.operation request.fault_domain

unfoldable pub policy_for : Request → Policy
unfolding intent_for domain_for intent_rank
policy_for request =
    let intent = intent_for request in
    record { intent = intent; domain = domain_for request; rank = intent_rank intent }
