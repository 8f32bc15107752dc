-- ===== src/SelfHeal/Event.antt =====
-- internal/selfheal/model.go: fault events, repair definitions and what a repair reports. Error codes
-- and the other string types are strings; times are nanoseconds since Go's zero time, which is 0.
use navo.Base.{ℕ, String, Bool, true, false, not, [], ◌∷◌, str_eq, if◌then◌else◌}
use navo.Base.Text.{codes, trim_space, concat, begins_with}
use navo.Base.Int.{ℤ}
use Prim.Native.String.{slice}

pub record ErrorEvent : Type 0 where
  pub code : String
  pub occurred_at : ℕ
  pub source_service : String
  pub resource_id : String
  pub core_id : String
  pub outbound_id : String
  pub correlation_id : String
  pub transition_id : String
  pub count : ℕ  -- uint64

-- ErrorEvent.Validate, true for a nil error.
unfoldable pub is_valid : ErrorEvent → Bool
unfolding trim_space begins_with
is_valid event =
    if not (begins_with (codes event.code) (codes "NAVO_"))
    then false
    else not (str_eq (trim_space event.source_service) "")

pub record Budget : Type 0 where
  pub max_attempts : ℤ
  pub window : ℤ
  pub cooldown : ℤ

pub data Category : Type 0 where
  core network subscription monitor logging security : Category
  unknown : String → Category

abbrev pub is_security : Category → Bool
is_security Category.security = true
is_security _ = false

pub record Definition : Type 0 where
  pub code : String
  pub category : Category
  pub fault_domain : String
  pub severity : String
  pub retryable : Bool
  pub auto_repair : Bool
  pub requires_admin : Bool
  pub transition_owned : Bool
  pub budget : Budget

pub record RepairAction : Type 0 where
  pub name : String
  pub mutated : Bool
  pub rollback_ref : String

pub record VerificationResult : Type 0 where
  pub recovered : Bool
  pub evidence : String

-- `digest` is the hexadecimal SHA-256 of a text.
module _ (digest : String → String) where
  -- eventKey: the key of the circuit, and its first 16 digits.
  unfoldable pub event_key : ErrorEvent → String × String
  unfolding concat
  event_key event =
      let hash = digest (
        concat (
          event.code ∷ "\0" ∷ event.resource_id ∷ "\0" ∷ event.core_id ∷ "\0" ∷ event.outbound_id
          ∷ [])) in
      (hash, slice hash 0 16)
