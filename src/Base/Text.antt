-- ===== src/Base/Text.antt =====
-- What the program uses of Go's `strings` and `fmt`: TrimSpace, ToLower, Contains, HasPrefix and the
-- decimal form of a number. Texts are the native strings; tests walk their code points.
use Prim.Native.Nat.{ℕ, zero, suc, ◌+◌, ◌/◌, ◌%◌, ◌<◌}
use Prim.Native.Char.{code}
use Prim.Native.String.append
use Prim.Native.String.{String, ◌++◌}
use mathlib.Core.Path.{◌≡◌, refl, sym, subst}
use mathlib.Core.Bool.{Bool, true, false, ◌&&◌, ◌||◌}
use mathlib.Core.List.{List, [], ◌∷◌, map}
use native.Mathlib.Omega.{arith}
use navo.Base.Tests.{leb, ltb, ◌==◌, if◌then◌else◌}

abbrev pub codes : String → List ℕ
codes String.[] = []
codes (String.◌∷◌ c s) = code c ∷ codes s

-- unicode.IsSpace
unfoldable pub is_space : ℕ → Bool
is_space c =
    (leb 9 c && leb c 13)
    || c == 32
    || c == 0x85
    || c == 0xA0
    || c == 0x1680
    || (leb 0x2000 c && leb c 0x200A)
    || c == 0x2028
    || c == 0x2029
    || c == 0x202F
    || c == 0x205F
    || c == 0x3000

unfoldable pub trim_left : String → String
unfolding is_space
trim_left String.[] = String.[]
trim_left (String.◌∷◌ c s) = if is_space (code c) then trim_left s else String.◌∷◌ c s

abbrev is_empty : String → Bool
is_empty String.[] = true
is_empty (String.◌∷◌ c s) = false

unfoldable pub trim_right : String → String
unfolding is_space
trim_right String.[] = String.[]
trim_right (String.◌∷◌ c s) =
    let rest = trim_right s in
    if is_empty rest && is_space (code c) then String.[] else String.◌∷◌ c rest

-- strings.TrimSpace
unfoldable pub trim_space : String → String
unfolding trim_left trim_right
trim_space s = trim_right (trim_left s)

-- unicode.ToLower on one code point, up to equality with ASCII: besides A-Z only U+0130 and U+212A
-- are mapped into ASCII, and the program compares the result with ASCII words alone.
unfoldable pub to_lower_code : ℕ → ℕ
to_lower_code c =
    if leb 65 c && leb c 90
    then c + 32
    else if c == 0x130
    then 105
    else if c == 0x212A
    then 107
    else c

-- strings.ToLower, as code points.
unfoldable pub to_lower : String → List ℕ
unfolding to_lower_code
to_lower s = map to_lower_code (codes s)

unfoldable pub same_codes : List ℕ → List ℕ → Bool
same_codes [] [] = true
same_codes (a ∷ s) (b ∷ t) = a == b && same_codes s t
same_codes _ _ = false

-- Whether `s` begins with `t`.
unfoldable pub begins_with : List ℕ → List ℕ → Bool
begins_with s [] = true
begins_with [] (b ∷ t) = false
begins_with (a ∷ s) (b ∷ t) = a == b && begins_with s t

pub begins_with-append : (s t : String) → begins_with (codes (s ++ t)) (codes s) ≡ true
unfolding begins_with
begins_with-append String.[] t = refl
begins_with-append (String.◌∷◌ c s) t =
    subst (λ u. begins_with (codes u) (codes (String.◌∷◌ c s)) ≡ true) (sym (append.cons c s t))
      (ground (arith, begins_with-append s t))

-- strings.Contains
unfoldable pub contains : List ℕ → List ℕ → Bool
unfolding begins_with
contains [] t = begins_with [] t
contains (a ∷ s) t = begins_with (a ∷ s) t || contains s t

unfoldable pub concat : List String → String
concat [] = ""
concat (s ∷ rest) = s ++ concat rest

digit : ℕ → String
digit n =
    if n == 0
    then "0"
    else if n == 1
    then "1"
    else if n == 2
    then "2"
    else if n == 3
    then "3"
    else if n == 4
    then "4"
    else if n == 5
    then "5"
    else if n == 6
    then "6"
    else if n == 7
    then "7"
    else if n == 8
    then "8"
    else "9"

decimal_within : ℕ → ℕ → String
unfolding digit
decimal_within zero n = ""
decimal_within (suc fuel) n =
    let rest = decimal_within fuel (n / 10) in if ltb n 10 then digit n else rest ++ digit (n % 10)

-- The `%d` of fmt.Sprintf.
unfoldable pub decimal : ℕ → String
unfolding decimal_within
decimal n = decimal_within (suc n) n

-- Any fuel above the number gives the same digits, so `decimal` never runs out.
decimal_enough : (fuel n : ℕ) → n < fuel → decimal_within fuel n ≡ decimal_within (suc fuel) n
unfolding decimal_within
decimal_enough zero n h = elim h [ ]
decimal_enough (suc fuel) n h = ground (arith, decimal_enough fuel (n / 10))
