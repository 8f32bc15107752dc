-- ===== src/Service/Routing/Entries.antt =====
-- internal/service/runtime.go, normalizeRoutingRuleEntries and validateDomainSuffix: the user's lists as they
-- are stored. net.ParseCIDR, which gives the text of the network, is a parameter. Only ASCII domains pass,
-- so the bytes of an accepted text are its code points.
use mathlib.Core.List.{◌++◌}
use navo.Base.{
  ℕ, ◌⊎◌, inl, inr, String, Bool, true, false, not, ◌&&◌, ◌||◌, Option, none, some, List, [], ◌∷◌,
  leb, ltb, ◌==◌, if◌then◌else◌, length, is_empty_list,
}
use navo.Base.Text.{codes, contains, begins_with, same_codes, to_lower, trim_space}
pub mod Domain
pub mod Normal

-- The errors, without their texts.
pub data RuleError : Type 0 where
  too_many : RuleError
  invalid_cidr : String → RuleError
  invalid_suffix : String → RuleError

-- strings.Split(s, ".")
unfoldable pub onto_first : ℕ → List (List ℕ) → List (List ℕ)
onto_first c [] = (c ∷ []) ∷ []
onto_first c (label ∷ labels) = (c ∷ label) ∷ labels

unfoldable pub split_dots : List ℕ → List (List ℕ)
unfolding onto_first
split_dots [] = [] ∷ []
split_dots (c ∷ s) = let rest = split_dots s in if c == 46 then [] ∷ rest else onto_first c rest

unfoldable pub last_is : ℕ → List ℕ → Bool
last_is a [] = false
last_is a (c ∷ []) = c == a
last_is a (c ∷ d ∷ s) = last_is a (d ∷ s)

unfoldable pub is_label_char : ℕ → Bool
is_label_char c = (leb 97 c && leb c 122) || (leb 48 c && leb c 57) || c == 45

unfoldable pub all_of : {A : Type 0} → (A → Bool) → List A → Bool
all_of p [] = true
all_of p (x ∷ xs) = p x && all_of p xs

unfoldable pub valid_label : List ℕ → Bool
unfolding last_is is_label_char all_of begins_with
valid_label label =
    not (is_empty_list label)
    && leb (length label) 63
    && not (begins_with label (45 ∷ []))
    && not (last_is 45 label)
    && all_of is_label_char label

-- validateDomainSuffix
unfoldable pub validate_domain_suffix : List ℕ → Bool
unfolding contains split_dots valid_label all_of
validate_domain_suffix value =
    leb (length value) 253 && contains value (codes ".") && all_of valid_label (split_dots value)

-- strings.TrimPrefix
unfoldable pub skip_past : {A : Type 0} {B : Type 0} → List A → List B → List B
skip_past [] ys = ys
skip_past (x ∷ xs) [] = []
skip_past (x ∷ xs) (y ∷ ys) = skip_past xs ys

unfoldable pub trim_prefix : List ℕ → List ℕ → List ℕ
unfolding begins_with skip_past
trim_prefix value prefix = if begins_with value prefix then skip_past prefix value else value

-- What one value of a list comes to: it is skipped, refused or stored.
pub data Canonical : Type 0 where
  blank : Canonical
  refused : RuleError → Canonical
  entry : List ℕ → Canonical

unfoldable pub is_seen : List ℕ → List (List ℕ) → Bool
unfolding same_codes
is_seen value [] = false
is_seen value (x ∷ xs) = same_codes x value || is_seen value xs

-- The end of the loop's body.
unfoldable pub store : List (List ℕ) → List ℕ → List (List ℕ)
unfolding is_seen
store result value = if is_seen value result then result else result ++ (value ∷ [])

-- The rest of the loop after one value.
unfoldable pub advance :
    List (List ℕ)
    → (List (List ℕ) → RuleError ⊎ List (List ℕ))
    → Canonical
    → RuleError ⊎ List (List ℕ)
unfolding store
advance result continue blank = continue result
advance result continue (refused e) = inl e
advance result continue (entry value) = continue (store result value)

unfoldable pub network_entry : String → Option (List ℕ) → Canonical
network_entry raw none = refused (invalid_cidr raw)
network_entry raw (some network) = entry network

module _ (parse_cidr : List ℕ → Option (List ℕ)) where
  unfoldable pub canonical_cidr : String → List ℕ → Canonical
  unfolding network_entry
  canonical_cidr raw value = network_entry raw (parse_cidr value)

  unfoldable pub canonical_suffix : String → List ℕ → Canonical
  unfolding trim_prefix validate_domain_suffix
  canonical_suffix raw value =
      let suffix = trim_prefix (trim_prefix value (codes "*.")) (codes ".") in
      if validate_domain_suffix suffix then entry suffix else refused (invalid_suffix raw)

  unfoldable pub canonical : String → Canonical
  unfolding to_lower trim_space contains canonical_cidr canonical_suffix
  canonical raw =
      let value = to_lower (trim_space raw) in
      if is_empty_list value
      then blank
      else if contains value (codes "/")
      then canonical_cidr raw value
      else canonical_suffix raw value

  -- The loop of normalizeRoutingRuleEntries.
  unfoldable pub normalize_from : List (List ℕ) → List String → RuleError ⊎ List (List ℕ)
  unfolding canonical advance
  normalize_from result [] = inr result
  normalize_from result (raw ∷ values) =
      advance result (λ next. normalize_from next values) (canonical raw)

  -- normalizeRoutingRuleEntries
  unfoldable pub normalize_routing_rule_entries : List String → RuleError ⊎ List (List ℕ)
  unfolding normalize_from
  normalize_routing_rule_entries values =
      if ltb 256 (length values) then inl too_many else normalize_from [] values
