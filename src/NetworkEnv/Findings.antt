-- ===== src/NetworkEnv/Findings.antt =====
-- What holds of the findings of internal/networkenv/analyzer.go.
use navo.Base.{
  ◌≡◌, ◌≢◌, inl, inr, refl, sym, ap, ◌∙◌, subst, String, Bool, true, false, not, ◌&&◌, List, [],
  ◌∷◌, ◌++◌, map, arith, All, All-append, eq_iff, if◌then◌else◌, Bool-cases,
}
use navo.NetworkEnv.Model.{Snapshot, Finding, owner_navo, TransitionSnapshot, ResourceSnapshot}
use navo.NetworkEnv.Analyzer.{
  AnalyzerState, has_seen, transitional, analyzer_transition, adjusted, add, add_if, or_unsure,
  analyze_physical, analyze_system_proxy, analyze_tun, resource_finding, analyze_owned_resources,
  analyze_capture, analyze_partial, collected, prepared,
}
use navo.NetworkEnv.Verdict.{insert_stable, sort_stable, comes_first, analyze}

-- Whether a transition runs that owns the faults it causes.
abbrev pub is_moving : TransitionSnapshot → Bool
is_moving t = t.busy && analyzer_transition t

-- The tests in add and in deriveHealth agree.
transitional-is_moving : (a : AnalyzerState) → transitional a ≡ is_moving a.snapshot.transition
unfolding transitional analyzer_transition
transitional-is_moving a = ground arith

-- Only what Navo owns may be recovered.
abbrev pub IsOwned : Finding → Type 0
IsOwned f = f.recoverable ≡ true → f.ownership ≡ owner_navo

abbrev pub IsCalm : Finding → Type 0
IsCalm f = f.recoverable ≡ false

-- No text occurs twice.
abbrev pub Unique : List String → Type 0
Unique [] = Unit
Unique (c ∷ cs) = All (λ d. c ≢ d) cs × Unique cs

abbrev pub code_of : Finding → String
code_of f = f.code

has_seen-All :
    (code : String) (seen : List String) → has_seen code seen ≡ false → All (λ d. d ≢ code) seen
unfolding has_seen
has_seen-All code [] h = tt
has_seen-All code (c ∷ seen) h =
    ((λ e. ground (arith, eq_iff c code)), has_seen-All code seen (ground arith))

Unique-append :
    (code : String) (seen : List String)
    → All (λ d. d ≢ code) seen
    → Unique seen
    → Unique (seen ++ code ∷ [])
Unique-append code [] h u = (tt, tt)
Unique-append code (c ∷ seen) (n, h) (m, u) =
    (All-append (λ d. c ≢ d) seen (code ∷ []) m (n, tt), Unique-append code seen h u)

map-append :
    (xs : List Finding) (x : Finding) → map code_of (xs ++ x ∷ []) ≡ map code_of xs ++ x.code ∷ []
map-append [] x = refl
map-append (y ∷ xs) x = ap (λ (l : List String). y.code ∷ l) (map-append xs x)

-- The state of an analysis under the transition `t`.
pub record IsSound (t : TransitionSnapshot) (a : AnalyzerState) : Type 0 where
  pub same : a.snapshot.transition ≡ t
  pub matches : map code_of a.snapshot.findings ≡ a.seen
  pub unique : Unique a.seen
  pub owned : All IsOwned a.snapshot.findings
  pub calm : is_moving t ≡ true → All IsCalm a.snapshot.findings

adjusted-IsOwned : (moving : Bool) (f : Finding) → IsOwned f → IsOwned (adjusted moving f)
unfolding adjusted
adjusted-IsOwned moving f h = ground arith

adjusted-IsCalm : (f : Finding) → IsCalm (adjusted true f)
unfolding adjusted
adjusted-IsCalm f = ground arith

code-adjusted : (moving : Bool) (f : Finding) → (adjusted moving f).code ≡ f.code
unfolding adjusted
code-adjusted moving f = ground arith

-- add, on a code that was not seen.
abbrev added : Finding → AnalyzerState → AnalyzerState
added f a = record {
  snapshot = record a.snapshot {
    findings = a.snapshot.findings ++ adjusted (transitional a) f ∷ [];
  };
  seen = a.seen ++ f.code ∷ [];
}

add_lem :
    (f : Finding) (a : AnalyzerState) → add f a ≡ (if has_seen f.code a.seen then a else added f a)
unfolding add
add_lem f a = refl

module _ (t : TransitionSnapshot) where
  added-IsSound :
      (f : Finding) (a : AnalyzerState)
      → IsOwned f
      → has_seen f.code a.seen ≡ false
      → IsSound t a
      → IsSound t (added f a)
  added-IsSound f a o new s =
      let moving = transitional a in
      let calm : is_moving t ≡ true → IsCalm (adjusted moving f) = λ m.
        rw (transitional-is_moving a ∙ ap (λ (u : TransitionSnapshot). is_moving u) s.same ∙ m)
          (adjusted-IsCalm f) in
      record {
        same = s.same;
        matches =
            map-append a.snapshot.findings (adjusted moving f)
            ∙ rw (s.matches, code-adjusted moving f) refl;
        unique = Unique-append f.code a.seen (has_seen-All f.code a.seen new) s.unique;
        owned = All-append IsOwned a.snapshot.findings _ s.owned (adjusted-IsOwned moving f o, tt);
        calm = λ m. All-append IsCalm a.snapshot.findings _ (s.calm m) (calm m, tt);
      }

  add-IsSound : (f : Finding) (a : AnalyzerState) → IsOwned f → IsSound t a → IsSound t (add f a)
  add-IsSound f a o s = elim (Bool-cases (has_seen f.code a.seen)) [
    | inl old ↦ rw (add_lem f a, old) s
    | inr new ↦ rw (add_lem f a, new) (added-IsSound f a o new s)
  ]

  add_if-IsSound :
      (c : Bool) (f : Finding) (a : AnalyzerState)
      → IsOwned f
      → IsSound t a
      → IsSound t (add_if c f a)
  unfolding add_if
  add_if-IsSound true f a o s = add-IsSound f a o s
  add_if-IsSound false f a o s = s

  physical-IsSound : (a : AnalyzerState) → IsSound t a → IsSound t (analyze_physical a)
  unfolding analyze_physical
  physical-IsSound a s = add_if-IsSound _ _ a (λ e. ground arith) s

  proxy-IsSound : (a : AnalyzerState) → IsSound t a → IsSound t (analyze_system_proxy a)
  unfolding analyze_system_proxy
  proxy-IsSound a s =
      add_if-IsSound _ _ _ (λ e. refl)
        (add_if-IsSound _ _ _ (λ e. refl) (add_if-IsSound _ _ a (λ e. ground arith) s))

  tun-IsSound : (a : AnalyzerState) → IsSound t a → IsSound t (analyze_tun a)
  unfolding analyze_tun or_unsure
  tun-IsSound a s =
      let tun = a.snapshot.tun in
      elim (Bool-cases (not tun.expected)) [
        | inl idle ↦ rw idle (add_if-IsSound _ _ a (λ e. ground arith) s)
        | inr wanted ↦ elim (Bool-cases (not tun.navo_adapter.present)) [
          | inl missing ↦
              rw (wanted, missing)
                (add-IsSound _ _ (λ e. refl) (add_if-IsSound _ _ a (λ e. ground arith) s))
          | inr present ↦
              rw (wanted, present)
                (add_if-IsSound _ _ _ (λ e. ground arith)
                  (add_if-IsSound _ _ a (λ e. ground arith) s))
        ]
      ]

  resource-IsSound :
      (code domain summary : String) (resource : ResourceSnapshot) (a : AnalyzerState)
      → IsSound t a
      → IsSound t (resource_finding code domain summary resource a)
  unfolding resource_finding
  resource-IsSound code domain summary resource a s = add_if-IsSound _ _ a (λ e. ground arith) s

  owned-IsSound : (a : AnalyzerState) → IsSound t a → IsSound t (analyze_owned_resources a)
  unfolding analyze_owned_resources
  owned-IsSound a s = resource-IsSound _ _ _ _ _ (
      resource-IsSound _ _ _ _ _ (
        resource-IsSound _ _ _ _ _ (
          resource-IsSound _ _ _ _ _ (
            add_if-IsSound _ _ _ (λ e. ground arith)
              (add_if-IsSound _ _ a (λ e. ground arith) s)))))

  capture-IsSound : (a : AnalyzerState) → IsSound t a → IsSound t (analyze_capture a)
  unfolding analyze_capture
  capture-IsSound a s = add_if-IsSound _ _ a (λ e. refl) s

  partial-IsSound : (a : AnalyzerState) → IsSound t a → IsSound t (analyze_partial a)
  unfolding analyze_partial
  partial-IsSound a s =
      add_if-IsSound _ _ _ (λ e. ground arith)
        (record {
          same = s.same;
          matches = s.matches;
          unique = s.unique;
          owned = s.owned;
          calm = s.calm;
        })

pub collected-IsSound : (s : Snapshot) → IsSound s.transition (collected s)
unfolding collected prepared
collected-IsSound s =
    let t = s.transition in
    partial-IsSound t _ (
      capture-IsSound t _ (
        owned-IsSound t _ (
          tun-IsSound t _ (
            proxy-IsSound t _ (
              physical-IsSound t _ (record {
                same = refl;
                matches = refl;
                unique = tt;
                owned = tt;
                calm = λ m. tt;
              }))))))

-- Sorting keeps what holds of every finding.
pub insert-All {κ} :
    (P : Finding → Type κ) (x : Finding) (ys : List Finding)
    → P x
    → All P ys
    → All P (insert_stable x ys)
unfolding insert_stable
insert-All P x [] p h = (p, tt)
insert-All P x (y ∷ ys) p (q, h) = elim (Bool-cases (comes_first y x)) [
  | inl e ↦
      subst (λ b. All P (if b then y ∷ insert_stable x ys else x ∷ y ∷ ys)) (sym e)
        (q, insert-All P x ys p h)
  | inr e ↦
      subst (λ b. All P (if b then y ∷ insert_stable x ys else x ∷ y ∷ ys)) (sym e) (p, (q, h))
]

pub sort-All {κ} : (P : Finding → Type κ) (xs : List Finding) → All P xs → All P (sort_stable xs)
unfolding sort_stable
sort-All P [] h = tt
sort-All P (x ∷ xs) (p, h) = insert-All P x (sort_stable xs) p (sort-All P xs h)

-- No finding of Analyze is recoverable unless Navo owns what it is about, and while a transition runs that
-- owns the faults it causes, no finding is recoverable at all.
pub analyze-recoverable :
    (s : Snapshot)
    → All IsOwned (analyze s).findings
      × (is_moving s.transition ≡ true → All IsCalm (analyze s).findings)
unfolding analyze
analyze-recoverable s =
    let c = collected-IsSound s in (sort-All IsOwned _ c.owned, λ m. sort-All IsCalm _ (c.calm m))
