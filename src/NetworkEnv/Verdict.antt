-- ===== src/NetworkEnv/Verdict.antt =====
-- internal/networkenv/analyzer.go: Analyze as a whole, with the order of its findings and the health that
-- follows from them.
use navo.Base.{
  ℕ, Bool, true, false, not, ◌&&◌, ◌||◌, List, [], ◌∷◌, str_eq, ltb, ◌==◌, if◌then◌else◌,
}
use navo.Base.Text.{codes}
use navo.NetworkEnv.Model.{
  Snapshot, Finding, Severity, info, warning, error, HealthState, checking, healthy, degraded,
  unavailable, unknown,
}
use navo.NetworkEnv.Analyzer.{analyzer_transition, is_error, physical_down, collected}

unfoldable pub severity_rank : Severity → ℕ
severity_rank error = 3
severity_rank warning = 2
severity_rank info = 1

-- The order of Go's strings, on code points: UTF-8 keeps it.
unfoldable pub precedes : List ℕ → List ℕ → Bool
precedes s [] = false
precedes [] (c ∷ t) = true
precedes (b ∷ s) (c ∷ t) = let rest = precedes s t in if b == c then rest else ltb b c

-- The order that Analyze sorts by.
unfoldable pub comes_first : Finding → Finding → Bool
unfolding severity_rank precedes
comes_first x y =
    if severity_rank x.severity == severity_rank y.severity
    then precedes (codes x.code) (codes y.code)
    else ltb (severity_rank y.severity) (severity_rank x.severity)

-- sort.SliceStable: there is one stable result, which this insertion computes.
unfoldable pub insert_stable : Finding → List Finding → List Finding
unfolding comes_first
insert_stable x [] = x ∷ []
insert_stable x (y ∷ ys) =
    let rest = insert_stable x ys in if comes_first y x then y ∷ rest else x ∷ y ∷ ys

unfoldable pub sort_stable : List Finding → List Finding
unfolding insert_stable
sort_stable [] = []
sort_stable (x ∷ xs) = insert_stable x (sort_stable xs)

-- Whether some finding passes a test.
unfoldable pub some_finding : (Finding → Bool) → List Finding → Bool
some_finding p [] = false
some_finding p (x ∷ xs) = p x || some_finding p xs

abbrev pub is_warning : Severity → Bool
is_warning warning = true
is_warning _ = false

unfoldable pub derive_health : Snapshot → HealthState
unfolding analyzer_transition some_finding
derive_health s =
    let down = some_finding (λ f. str_eq f.code physical_down) s.findings in
    let failure = some_finding (λ f. is_error f.severity) s.findings in
    let warn = some_finding (λ f. is_warning f.severity) s.findings in
    if s.transition.busy && analyzer_transition s.transition
    then checking
    else if down
    then unavailable
    else if failure
    then (if not (str_eq s.capture.committed_mode "off") || s.tun.expected
        then unavailable
        else degraded)
    else if warn || s.partial
    then degraded
    else if s.physical.known
    then (if s.physical.available then healthy else unavailable)
    else unknown

unfoldable pub analyze : Snapshot → Snapshot
unfolding collected sort_stable derive_health
analyze s =
    let c = (collected s).snapshot in
    let sorted = record c { findings = sort_stable c.findings } in
    record sorted { health = derive_health sorted }
