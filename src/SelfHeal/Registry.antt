-- ===== src/SelfHeal/Registry.antt =====
-- internal/selfheal/policy.go and registry.go: what a repair policy is, and the policies by their code.
use navo.Base.{String, Bool, false, ◌||◌, Option, none, some, List, [], ◌∷◌, str_eq, if◌then◌else◌}
use navo.Base.Dict.{Dict, lookup, insert}
use navo.SelfHeal.Event.{ErrorEvent, Definition, RepairAction, VerificationResult}

-- The interface Policy. `none` and a true flag stand for a non-nil error.
pub record Policy : Type 0 where
  pub name : String
  pub definition : Definition
  pub fault_present : ErrorEvent → Option Bool
  pub repair : ErrorEvent → RepairAction × Bool
  pub verify : ErrorEvent → RepairAction → VerificationResult × Bool
  pub rollback : ErrorEvent → RepairAction → Bool

abbrev no_repair : RepairAction
no_repair = record { name = ""; mutated = false; rollback_ref = "" }

abbrev no_result : VerificationResult
no_result = record { recovered = false; evidence = "" }

-- PolicyFuncs: a nil function answers with zero values.
unfoldable pub policy_funcs :
    String
    → Definition
    → Option (ErrorEvent → Option Bool)
    → Option (ErrorEvent → RepairAction × Bool)
    → Option (ErrorEvent → RepairAction → VerificationResult × Bool)
    → Option (ErrorEvent → RepairAction → Bool)
    → Policy
policy_funcs name def check repair verify rollback = record {
  name = name;
  definition = def;
  fault_present = elim check [ none ↦ (λ event. some false) | some f ↦ f ];
  repair = elim repair [ none ↦ (λ event. (no_repair, false)) | some f ↦ f ];
  verify = elim verify [ none ↦ (λ event a. (no_result, false)) | some f ↦ f ];
  rollback = elim rollback [ none ↦ (λ event a. false) | some f ↦ f ];
}

-- NewRegistry, over the policies so far; `none` for its errors.
unfoldable pub register : List (Option Policy) → Dict Policy → Option (Dict Policy)
unfolding lookup insert
register [] policies = some policies
register (none ∷ rest) policies = none
register (some p ∷ rest) policies =
    let code = p.definition.code in
    let more = register rest (insert code p policies) in
    if str_eq code "" || str_eq p.name ""
    then none
    else elim (lookup code policies) [ some q ↦ none | none ↦ more ]
