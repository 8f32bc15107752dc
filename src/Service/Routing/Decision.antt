-- ===== src/Service/Routing/Decision.antt =====
-- internal/service/runtime.go: where the rules of runtimeRoutingPolicy send a connection.
use mathlib.Core.List.{◌++◌}
use navo.Base.{
  ◌≡◌, refl, inl, inr, String, Bool, true, false, not, ◌&&◌, ◌||◌, List, [], ◌∷◌, str_eq,
  if◌then◌else◌, select, arith, Bool-cases, eq_iff, if-either, sym, ◌∙◌,
}
use navo.Service.Routing.{
  RuleType, RoutingRule, routing_rule, private_route_cidrs, mainland_direct_domain_suffixes,
  is_cidr, append_rule, append_runtime_list_rules, effective_tag, list_rules_when, list_rules,
  runtime_routing_policy,
}

-- What a connection matches is the core's: a value as a domain suffix, or as a CIDR.
module _ (hits : RuleType → String → Bool) where
  unfoldable pub any_hit : RuleType → List String → Bool
  any_hit t [] = false
  any_hit t (v ∷ vs) = hits t v || any_hit t vs

  -- A core takes the first rule that matches, and the final outbound when none does.
  unfoldable pub choose : List RoutingRule → String → String
  unfolding any_hit
  choose [] final = final
  choose (r ∷ rs) final =
      let rest = choose rs final in if any_hit r.rule_type r.values then r.outbound_tag else rest

  -- A match of an entry of the user's list, read as what it is.
  unfoldable pub any_entry : List String → Bool
  any_entry [] = false
  any_entry (e ∷ es) =
      hits (if is_cidr e then RuleType.ip_cidr else RuleType.domain_suffix) e || any_entry es

  -- The promise: private networks are direct, then the active list decides, then the mode.
  unfoldable pub promised : String → String → String → List String → List String → String
  unfolding any_hit any_entry effective_tag
  promised mode list_mode selected_tag blacklist whitelist =
      let tag = effective_tag selected_tag in
      if any_hit RuleType.ip_cidr private_route_cidrs
      then "direct"
      else if str_eq list_mode "whitelist" && any_entry whitelist
      then "direct"
      else if str_eq list_mode "blacklist" && any_entry blacklist
      then tag
      else if str_eq mode "direct"
      then "direct"
      else if not (str_eq mode "global")
          && any_hit RuleType.domain_suffix mainland_direct_domain_suffixes
      then "direct"
      else tag

  choose-append :
      (rs ts : List RoutingRule) (final : String)
      → choose (rs ++ ts) final ≡ choose rs (choose ts final)
  unfolding choose
  choose-append [] ts final = refl
  choose-append (r ∷ rs) ts final = rw (choose-append rs ts final) refl

  choose-append_rule :
      (rs : List RoutingRule) (id name : String) (t : RuleType) (vs : List String)
      (out final : String)
      → choose (append_rule rs id name t vs out) final
        ≡ choose rs (if any_hit t vs then out else final)
  unfolding append_rule any_hit choose
  choose-append_rule rs id name t [] out final = refl
  choose-append_rule rs id name t (v ∷ vs) out final =
      choose-append rs (routing_rule id name t (v ∷ vs) out ∷ []) final

  any_entry-split :
      (es : List String)
      → any_entry es
        ≡ any_hit RuleType.ip_cidr (select is_cidr es)
          || any_hit RuleType.domain_suffix (select (λ e. not (is_cidr e)) es)
  unfolding any_entry any_hit select
  any_entry-split [] = refl
  any_entry-split (e ∷ es) = elim (Bool-cases (is_cidr e)) [
    | inl cidr ↦ rw cidr (ground (arith, any_entry-split es))
    | inr suffix ↦ rw suffix (ground (arith, any_entry-split es))
  ]

  if-or :
      (p q : Bool) (out final : String)
      → (if q then out else if p then out else final) ≡ (if p || q then out else final)
  if-or p q out final = ground arith

  choose-append_runtime_list_rules :
      (rs : List RoutingRule) (id name : String) (es : List String) (out final : String)
      → choose (append_runtime_list_rules rs id name es out) final
        ≡ choose rs (if any_entry es then out else final)
  unfolding append_runtime_list_rules
  choose-append_runtime_list_rules rs id name es out final =
      rw
        (
          choose-append_rule,
          choose-append_rule,
          any_entry-split es,
          if-or (any_hit RuleType.ip_cidr (select is_cidr es))
              (any_hit RuleType.domain_suffix (select (λ e. not (is_cidr e)) es)) out final,
        )
        refl

  -- What the appended lists add to a decision, with the tests on the list mode as `w` and `b`.
  choose-lists :
      (w b : Bool) (tag final : String) (blacklist whitelist : List String)
      → choose (list_rules_when w b tag blacklist whitelist) final ≡ (
          if any_hit RuleType.ip_cidr private_route_cidrs
          then "direct"
          else if w && any_entry whitelist
          then "direct"
          else if b && any_entry blacklist
          then tag
          else final)
  unfolding list_rules_when choose
  choose-lists true true tag final blacklist whitelist =
      rw (choose-append_runtime_list_rules, choose-append_runtime_list_rules) refl
  choose-lists true false tag final blacklist whitelist = rw choose-append_runtime_list_rules refl
  choose-lists false true tag final blacklist whitelist = rw choose-append_runtime_list_rules refl
  choose-lists false false tag final blacklist whitelist = refl

  choose-list_rules :
      (list_mode tag final : String) (blacklist whitelist : List String)
      → choose (list_rules list_mode tag blacklist whitelist) final ≡ (
          if any_hit RuleType.ip_cidr private_route_cidrs
          then "direct"
          else if str_eq list_mode "whitelist" && any_entry whitelist
          then "direct"
          else if (str_eq list_mode "blacklist" && not (str_eq tag "direct")) && any_entry blacklist
          then tag
          else final)
  unfolding list_rules
  choose-list_rules list_mode tag final blacklist whitelist =
      choose-lists (str_eq list_mode "whitelist")
        (str_eq list_mode "blacklist" && not (str_eq tag "direct")) tag final blacklist whitelist

  either_way :
      (tag final : String) → final ≡ tag → (hit : Bool) → final ≡ (if hit then tag else final)
  either_way tag final same true = same
  either_way tag final same false = refl

  -- The test that the blacklist's outbound is not direct makes no difference where the rest goes there as well.
  skip_direct :
      (tag final : String) (blacklisted : Bool)
      → (tag ≡ "direct" → final ≡ "direct")
      → (blacklist : Bool)
      → (if (blacklisted && not (str_eq tag "direct")) && blacklist then tag else final)
        ≡ (if blacklisted && blacklist then tag else final)
  skip_direct tag final false same hit = refl
  skip_direct tag final true same hit = elim (Bool-cases (str_eq tag "direct")) [
    | inl direct ↦
        let at = (eq_iff tag "direct").0 direct in
        rw direct (either_way tag final (same at ∙ sym at) hit)
    | inr other ↦ rw other refl
  ]

  choose-policy :
      (list_mode tag final : String) (blacklist whitelist : List String)
      → (tag ≡ "direct" → final ≡ "direct")
      → choose (list_rules list_mode tag blacklist whitelist) final ≡ (
          if any_hit RuleType.ip_cidr private_route_cidrs
          then "direct"
          else if str_eq list_mode "whitelist" && any_entry whitelist
          then "direct"
          else if str_eq list_mode "blacklist" && any_entry blacklist
          then tag
          else final)
  choose-policy list_mode tag final blacklist whitelist same =
      rw
        (
          choose-list_rules list_mode tag final blacklist whitelist,
          skip_direct tag final (str_eq list_mode "blacklist") same (any_entry blacklist),
        )
        refl

  choose-mainland :
      (tag : String)
      → choose
          (routing_rule "mainland-domains" "Mainland domains" RuleType.domain_suffix
              mainland_direct_domain_suffixes "direct"
            ∷ [])
          tag
        ≡ (if any_hit RuleType.domain_suffix mainland_direct_domain_suffixes then "direct" else tag)
  unfolding choose
  choose-mainland tag = refl

  -- For any way in which connections match values: the rules and the final outbound send a connection to a private
  -- network directly; else one that the active list names to that list's outbound; else one under the direct mode, or
  -- to a mainland domain outside the global mode, directly; and any other to the selected outbound.
  pub runtime_routing_policy-promised :
      (mode list_mode selected_tag : String) (blacklist whitelist : List String)
      → choose
          (runtime_routing_policy mode list_mode selected_tag blacklist whitelist).rules
          (runtime_routing_policy mode list_mode selected_tag blacklist whitelist).final
        ≡ promised mode list_mode selected_tag blacklist whitelist
  unfolding runtime_routing_policy promised
  runtime_routing_policy-promised mode list_mode selected_tag blacklist whitelist =
      let tag = effective_tag selected_tag in
      elim (Bool-cases (str_eq mode "direct")) [
        | inl direct ↦
            rw direct (choose-policy list_mode tag "direct" blacklist whitelist (λ h. refl))
        | inr other ↦ elim (Bool-cases (str_eq mode "global")) [
          | inl global ↦
              rw (other, global) (choose-policy list_mode tag tag blacklist whitelist (λ h. h))
          | inr mainland ↦
              rw (other, mainland, choose-append, choose-mainland)
                (choose-policy list_mode tag
                  (if any_hit RuleType.domain_suffix mainland_direct_domain_suffixes
                    then "direct"
                    else tag)
                  blacklist whitelist
                  (λ h.
                    if-either (λ x. x ≡ "direct")
                      (any_hit RuleType.domain_suffix mainland_direct_domain_suffixes) refl h))
        ]
      ]
