-- ===== src/Service/Routing/Entries/Domain.antt =====
-- internal/service/runtime.go, validateDomainSuffix: the domains that it accepts, and what comes off before them.
use mathlib.Core.List.{◌++◌}
use navo.Base.{
  ℕ, ◌≡◌, ◌≢◌, ◌⊎◌, inl, inr, ◌≤◌, ◌<◌, refl, subst, Bool, true, false, List, [], ◌∷◌, length, All,
  Bool-cases, arith,
}
use navo.Base.Text.{contains, begins_with}
use navo.Service.Routing.Entries.{
  validate_domain_suffix, trim_prefix, split_dots, onto_first, last_is, is_label_char, all_of,
  valid_label, skip_past,
}

-- A lower-case letter, a digit or a hyphen.
abbrev IsLabelChar : ℕ → Type 0
IsLabelChar c = ((97 ≤ c) × (c ≤ 122)) ⊎ ((48 ≤ c) × (c ≤ 57)) ⊎ (c ≡ 45)

abbrev IsLabel : List ℕ → Type 0
IsLabel l =
    (0 < length l)
    × (length l ≤ 63)
    × ((rest : List ℕ) → l ≢ 45 ∷ rest)
    × ((front : List ℕ) → l ≢ front ++ 45 ∷ [])
    × All IsLabelChar l

-- At least two labels, joined by dots.
abbrev pub IsDomain : List ℕ → Type 0
IsDomain v = (length v ≤ 253) × (2 ≤ length (split_dots v)) × All IsLabel (split_dots v)

all_of-All :
    {A : Type 0} (P : A → Type 0) (p : A → Bool)
    → ((x : A) → p x ≡ true → P x)
    → (xs : List A) → all_of p xs ≡ true
    → All P xs
unfolding all_of
all_of-All P p f [] h = tt
all_of-All P p f (x ∷ xs) h = (f x (ground (arith, h)), all_of-All P p f xs (ground (arith, h)))

is_label_char-lem : (c : ℕ) → is_label_char c ≡ true → IsLabelChar c
unfolding is_label_char
is_label_char-lem c h = ground (arith, h)

last_is-append : (front : List ℕ) (a : ℕ) → last_is a (front ++ a ∷ []) ≡ true
unfolding last_is
last_is-append [] a = ground arith
last_is-append (c ∷ []) a = ground arith
last_is-append (c ∷ d ∷ front) a = last_is-append (d ∷ front) a

valid_label-IsLabel : (l : List ℕ) → valid_label l ≡ true → IsLabel l
unfolding valid_label begins_with
valid_label-IsLabel [] h = absurd (ground (arith, h))
valid_label-IsLabel (c ∷ l) h = (
  omega arith,
  ground (arith, h),
  λ rest same. absurd (first same),
  λ front same. absurd (final front same),
  all_of-All IsLabelChar is_label_char is_label_char-lem (c ∷ l) (ground (arith, h)),
)
  where
    not_first : begins_with (c ∷ l) (45 ∷ []) ≡ false
    not_first = ground (arith, h)

    not_last : last_is 45 (c ∷ l) ≡ false
    not_last = ground (arith, h)

    first : {rest : List ℕ} → c ∷ l ≡ 45 ∷ rest → ⊥
    first {rest} same = ground (arith, subst (λ x. begins_with x (45 ∷ []) ≡ false) same not_first)

    final : (front : List ℕ) → c ∷ l ≡ front ++ 45 ∷ [] → ⊥
    final front same =
        ground (arith, last_is-append front 45, subst (λ x. last_is 45 x ≡ false) same not_last)

length-onto_first :
    (c : ℕ) (ls : List (List ℕ)) → 1 ≤ length ls → length (onto_first c ls) ≡ length ls
unfolding onto_first
length-onto_first c [] h = ground (arith, h)
length-onto_first c (l ∷ ls) h = refl

some_label : (v : List ℕ) → 1 ≤ length (split_dots v)
unfolding split_dots
some_label [] = omega arith
some_label (c ∷ v) = ground (arith, some_label v, length-onto_first c (split_dots v) (some_label v))

two_labels : (v : List ℕ) → contains v (46 ∷ []) ≡ true → 2 ≤ length (split_dots v)
unfolding split_dots contains begins_with
two_labels [] h = absurd (ground (arith, h))
two_labels (c ∷ v) h =
    ground (arith, h, some_label v, two_labels v, length-onto_first c (split_dots v) (some_label v))

pub validate_domain_suffix-IsDomain : (v : List ℕ) → validate_domain_suffix v ≡ true → IsDomain v
unfolding validate_domain_suffix
validate_domain_suffix-IsDomain v h = (
  ground (arith, h),
  two_labels v (ground (arith, h)),
  all_of-All IsLabel valid_label valid_label-IsLabel (split_dots v) (ground (arith, h)),
)

-- The text without a prefix that it has, or as it is.
skip_past-append : (p v : List ℕ) → begins_with v p ≡ true → v ≡ p ++ skip_past p v
unfolding begins_with skip_past
skip_past-append [] v h = refl
skip_past-append (a ∷ p) [] h = absurd (ground (arith, h))
skip_past-append (a ∷ p) (c ∷ v) h = ground (arith, h, skip_past-append p v)

abbrev pub IsStripped : List ℕ → List ℕ → List ℕ → Type 0
IsStripped p v rest = (v ≡ p ++ rest) ⊎ ((v ≡ rest) × (begins_with v p ≡ false))

pub trim_prefix-IsStripped : (v p : List ℕ) → IsStripped p v (trim_prefix v p)
unfolding trim_prefix
trim_prefix-IsStripped v p = elim (Bool-cases (begins_with v p)) [
  | inl there ↦ rw there (inl (skip_past-append p v there))
  | inr missing ↦ rw missing (inr (refl, refl))
]
