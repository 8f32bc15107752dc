-- ===== src/Service/Routing/Entries/Normal.antt =====
-- internal/service/runtime.go: what a list that normalizeRoutingRuleEntries accepts holds.
use mathlib.Core.List.{◌++◌}
use mathlib.Core.Sum.{inr-injective}
use navo.Base.{
  ℕ, ◌≡◌, ◌≢◌, ◌⊎◌, inl, inr, ◌≤◌, refl, sym, subst, String, Bool, true, false, ◌||◌, Option, none,
  some, List, [], ◌∷◌, ltb, if◌then◌else◌, length, All, All-append, All-map, Bool-cases, arith,
  if-either, is_empty_list,
}
use navo.Base.Text.{codes, contains, same_codes, to_lower, trim_space}
use navo.Service.Routing.Entries.{
  RuleError, Canonical, blank, refused, entry, too_many, is_seen, store, validate_domain_suffix,
  canonical_cidr, network_entry, trim_prefix, invalid_suffix, advance, canonical_suffix, canonical,
  normalize_from, normalize_routing_rule_entries,
}
use navo.Service.Routing.Entries.Domain.{
  IsDomain, validate_domain_suffix-IsDomain, IsStripped, trim_prefix-IsStripped,
}

same_codes_refl : (s : List ℕ) → same_codes s s ≡ true
unfolding same_codes
same_codes_refl [] = refl
same_codes_refl (c ∷ s) = ground (arith, same_codes_refl s)

-- No two entries are the same.
abbrev pub AllDistinct : List (List ℕ) → Type 0
AllDistinct [] = Unit
AllDistinct (x ∷ xs) = (is_seen x xs ≡ false) × AllDistinct xs

same_codes_sym : (s t : List ℕ) → same_codes s t ≡ same_codes t s
unfolding same_codes
same_codes_sym [] [] = refl
same_codes_sym [] (d ∷ t) = refl
same_codes_sym (c ∷ s) [] = refl
same_codes_sym (c ∷ s) (d ∷ t) = ground (arith, same_codes_sym s t)

is_seen-append :
    (v x : List ℕ) (xs : List (List ℕ))
    → is_seen v (xs ++ (x ∷ [])) ≡ (is_seen v xs || same_codes x v)
unfolding is_seen
is_seen-append v x [] = ground arith
is_seen-append v x (y ∷ ys) = ground (arith, is_seen-append v x ys)

append-AllDistinct :
    (v : List ℕ) (xs : List (List ℕ))
    → AllDistinct xs
    → is_seen v xs ≡ false
    → AllDistinct (xs ++ (v ∷ []))
unfolding is_seen
append-AllDistinct v [] h new = (refl, tt)
append-AllDistinct v (x ∷ xs) h new = (
  ground (arith, is_seen-append x v xs, h.0, same_codes_sym x v),
  append-AllDistinct v xs h.1 (ground arith),
)

store-AllDistinct : (xs : List (List ℕ)) (v : List ℕ) → AllDistinct xs → AllDistinct (store xs v)
unfolding store
store-AllDistinct xs v h = elim (Bool-cases (is_seen v xs)) [
  | inl old ↦ rw old h
  | inr new ↦ rw new (append-AllDistinct v xs h new)
]

is_seen-store : (xs : List (List ℕ)) (v : List ℕ) → is_seen v (store xs v) ≡ true
unfolding store
is_seen-store xs v = elim (Bool-cases (is_seen v xs)) [
  | inl old ↦ rw old old
  | inr new ↦ rw new (ground (arith, is_seen-append v v xs, same_codes_refl v))
]

is_seen-kept :
    (xs : List (List ℕ)) (v w : List ℕ) → is_seen w xs ≡ true → is_seen w (store xs v) ≡ true
unfolding store
is_seen-kept xs v w h = elim (Bool-cases (is_seen v xs)) [
  | inl old ↦ rw old h
  | inr new ↦ rw new (ground (arith, is_seen-append w v xs))
]

within_limit :
    (many : Bool) (run : RuleError ⊎ List (List ℕ)) {result : List (List ℕ)}
    → (if many then inl too_many else run) ≡ inr result
    → (many ≡ false) × (run ≡ inr result)
within_limit true run h = cc
within_limit false run h = (refl, h)

-- Being one of the entries.
abbrev pub Among : List ℕ → List (List ℕ) → Type 0
Among v [] = ⊥
Among v (x ∷ xs) = (x ≡ v) ⊎ Among v xs

-- No entry stands twice.
abbrev pub HasNoRepeat : List (List ℕ) → Type 0
HasNoRepeat [] = Unit
HasNoRepeat (x ∷ xs) = All (λ y. y ≢ x) xs × HasNoRepeat xs

same_codes-true : (s t : List ℕ) → same_codes s t ≡ true → s ≡ t
unfolding same_codes
same_codes-true [] [] h = refl
same_codes-true [] (d ∷ t) h = absurd (ground (arith, h))
same_codes-true (c ∷ s) [] h = absurd (ground (arith, h))
same_codes-true (c ∷ s) (d ∷ t) h = ground (arith, same_codes-true s t)

is_seen-Among : (v : List ℕ) (xs : List (List ℕ)) → is_seen v xs ≡ true → Among v xs
unfolding is_seen
is_seen-Among v [] h = absurd (ground (arith, h))
is_seen-Among v (x ∷ xs) h = elim (Bool-cases (same_codes x v)) [
  | inl same ↦ inl (same_codes-true x v same)
  | inr other ↦ inr (is_seen-Among v xs (ground (arith, h, other)))
]

unseen : (v : List ℕ) (xs : List (List ℕ)) → is_seen v xs ≡ false → All (λ y. y ≢ v) xs
unfolding is_seen
unseen v [] h = tt
unseen v (x ∷ xs) h = (
  λ same. absurd (
      ground (
        arith,
        h,
        same_codes_refl v,
        subst (λ y. same_codes y v ≡ true) (sym same) (same_codes_refl v),
      )),
  unseen v xs (ground (arith, h)),
)

AllDistinct-HasNoRepeat : (xs : List (List ℕ)) → AllDistinct xs → HasNoRepeat xs
AllDistinct-HasNoRepeat [] h = tt
AllDistinct-HasNoRepeat (x ∷ xs) h = (unseen x xs h.0, AllDistinct-HasNoRepeat xs h.1)

-- A value without the spaces around it and without capitals.
abbrev pub cleaned : String → List ℕ
cleaned raw = to_lower (trim_space raw)

module _ (parse_cidr : List ℕ → Option (List ℕ)) where
  -- What a value of a list stands for: with a slash a network, as the parser gives it, and else a domain,
  -- without `*.` and then `.` before it.
  abbrev pub StandsFor : String → List ℕ → Type 0
  StandsFor raw v =
      ((contains (cleaned raw) (codes "/") ≡ true) × (parse_cidr (cleaned raw) ≡ some v))
      ⊎ ((contains (cleaned raw) (codes "/") ≡ false)
          × (rest : List ℕ) × IsStripped (codes "*.") (cleaned raw) rest
          × IsStripped (codes ".") rest v
          × IsDomain v)

  abbrev pub IsEntry : List ℕ → Type 0
  IsEntry v = (raw : String) × StandsFor raw v

  -- A value is blank, or the entry that it stands for is in the list.
  abbrev pub Covered : List (List ℕ) → String → Type 0
  Covered result raw =
      (is_empty_list (cleaned raw) ≡ true) ⊎ ((v : List ℕ) × StandsFor raw v × Among v result)

  abbrev IsGood : String → Canonical → Type 0
  IsGood raw blank = is_empty_list (cleaned raw) ≡ true
  IsGood raw (refused e) = Unit
  IsGood raw (entry v) = StandsFor raw v

  either-IsGood :
      (raw : String) (b : Bool) (c d : Canonical)
      → (b ≡ true → IsGood raw c)
      → (b ≡ false → IsGood raw d)
      → IsGood raw (if b then c else d)
  either-IsGood raw true c d hc hd = hc refl
  either-IsGood raw false c d hc hd = hd refl

  network_entry-IsGood :
      (raw : String) (o : Option (List ℕ))
      → contains (cleaned raw) (codes "/") ≡ true
      → parse_cidr (cleaned raw) ≡ o
      → IsGood raw (network_entry raw o)
  unfolding network_entry
  network_entry-IsGood raw none slash h = tt
  network_entry-IsGood raw (some network) slash h = inl (slash, h)

  canonical_suffix-IsGood :
      (raw : String)
      → contains (cleaned raw) (codes "/") ≡ false
      → IsGood raw (canonical_suffix parse_cidr raw (cleaned raw))
  unfolding canonical_suffix
  canonical_suffix-IsGood raw plain =
      let rest = trim_prefix (cleaned raw) (codes "*.") in
      let suffix = trim_prefix rest (codes ".") in
      either-IsGood raw (validate_domain_suffix suffix) (entry suffix)
        (refused (invalid_suffix raw))
        (λ h. inr (
          plain,
          rest,
          trim_prefix-IsStripped (cleaned raw) (codes "*."),
          trim_prefix-IsStripped rest (codes "."),
          validate_domain_suffix-IsDomain suffix h,
        ))
        (λ h. tt)

  canonical-IsGood : (raw : String) → IsGood raw (canonical parse_cidr raw)
  unfolding canonical canonical_cidr
  canonical-IsGood raw =
      let value = cleaned raw in
      either-IsGood raw (is_empty_list value) blank
        (if contains value (codes "/")
          then canonical_cidr parse_cidr raw value
          else canonical_suffix parse_cidr raw value)
        (λ h. h)
        (λ full.
          either-IsGood raw (contains value (codes "/")) (canonical_cidr parse_cidr raw value)
            (canonical_suffix parse_cidr raw value)
            (λ slash. network_entry-IsGood raw (parse_cidr value) slash refl)
            (λ plain. canonical_suffix-IsGood raw plain))

  -- What the loop knows of a value, with the entries found by the program's own test.
  abbrev Reached : List (List ℕ) → String → Type 0
  Reached result raw =
      (is_empty_list (cleaned raw) ≡ true)
      ⊎ ((v : List ℕ) × StandsFor raw v × (is_seen v result ≡ true))

  Reached-Covered :
      (result : List (List ℕ)) (raw : String) → Reached result raw → Covered result raw
  Reached-Covered result raw (inl empty) = inl empty
  Reached-Covered result raw (inr (v, means, there)) = inr (v, means, is_seen-Among v result there)

  store-IsEntry :
      (result : List (List ℕ)) (v : List ℕ)
      → All IsEntry result
      → IsEntry v
      → All IsEntry (store result v)
  unfolding store
  store-IsEntry result v h e =
      if-either (All IsEntry) (is_seen v result) h (All-append IsEntry result (v ∷ []) h (e, tt))

  -- The list so far.
  record IsNormal (result : List (List ℕ)) : Type 0 where
    entries : All IsEntry result
    distinct : AllDistinct result

  -- What the rest of the loop makes of it.
  record IsFinished (done : List (List ℕ)) (values : List String) (result : List (List ℕ))
      : Type 0 where
    normal : IsNormal result
    keeps : (v : List ℕ) → is_seen v done ≡ true → is_seen v result ≡ true
    covers : All (Reached result) values

  advance-IsFinished :
      (done : List (List ℕ)) (raw : String) (values : List String) {result : List (List ℕ)}
      → ((next : List (List ℕ))
          → IsNormal next
          → normalize_from parse_cidr next values ≡ inr result
          → IsFinished next values result)
      → IsNormal done
      → (c : Canonical) → IsGood raw c
      → advance done (λ next. normalize_from parse_cidr next values) c ≡ inr result
      → IsFinished done (raw ∷ values) result
  unfolding advance
  advance-IsFinished done raw values {result} again normal blank good h =
      let rest = again done normal h in
      record { normal = rest.normal; keeps = rest.keeps; covers = (inl good, rest.covers) }
  advance-IsFinished done raw values {result} again normal (refused e) good h = cc
  advance-IsFinished done raw values {result} again normal (entry v) good h =
      let next : IsNormal (store done v) = record {
        entries = store-IsEntry done v normal.entries (raw, good);
        distinct = store-AllDistinct done v normal.distinct;
      } in
      let rest = again (store done v) next h in
      record {
        normal = rest.normal;
        keeps = λ w old. rest.keeps w (is_seen-kept done v w old);
        covers = (inr (v, good, rest.keeps v (is_seen-store done v)), rest.covers);
      }

  normalize_from-IsFinished :
      (done : List (List ℕ)) (values : List String) {result : List (List ℕ)}
      → IsNormal done
      → normalize_from parse_cidr done values ≡ inr result
      → IsFinished done values result
  unfolding normalize_from
  normalize_from-IsFinished done [] {result} normal h =
      subst (λ r. IsFinished done [] r) (inr-injective done result h)
        (record { normal = normal; keeps = λ v old. old; covers = tt })
  normalize_from-IsFinished done (raw ∷ values) normal h =
      advance-IsFinished done raw values (λ next. normalize_from-IsFinished next values) normal
        (canonical parse_cidr raw) (canonical-IsGood raw) h

  -- Whatever CIDRs the parser accepts: an accepted list has at most 256 values, and each of them, without the spaces
  -- around it and without capitals, is blank or stands for an entry that is stored. With a slash that is the network
  -- which the parser makes of it; else it is the value without `*.` and then `.` before it, which is a domain of at
  -- most 253 characters with two labels or more, each of 1 to 63 lower-case letters, digits and hyphens, with no
  -- hyphen at its ends. What is stored is such an entry, and no entry is stored twice.
  pub normalize_routing_rule_entries-IsNormal :
      (values : List String) {result : List (List ℕ)}
      → normalize_routing_rule_entries parse_cidr values ≡ inr result
      → (length values ≤ 256)
        × All IsEntry result
        × HasNoRepeat result
        × All (Covered result) values
  unfolding normalize_routing_rule_entries
  normalize_routing_rule_entries-IsNormal values {result} h =
      let allowed =
        within_limit (ltb 256 (length values)) (normalize_from parse_cidr [] values) h in
      let start : IsNormal [] = record { entries = tt; distinct = tt } in
      let done = normalize_from-IsFinished [] values start allowed.1 in
      (
        ground (arith, allowed.0),
        done.normal.entries,
        AllDistinct-HasNoRepeat result done.normal.distinct,
        All-map (Reached-Covered result) values done.covers,
      )
