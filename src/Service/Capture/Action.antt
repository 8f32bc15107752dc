-- ===== src/Service/Capture/Action.antt =====
-- How the service's functions run: each changes the service's state and returns a value or an error. An error
-- is known by the codes that it wraps, as errors.As finds them; its text is left out.
use navo.Base.{String, Bool, true, false, Option, none, some}

-- The Code of the TUNError and of the captureTransitionError that the error wraps, if it wraps one.
pub record Error : Type 0 where
  pub tun_code : Option String
  pub capture_code : Option String

abbrev pub plain : Error
plain = record { tun_code = none; capture_code = none }

abbrev pub tun_error : String → Error
tun_error code = record { tun_code = some code; capture_code = none }

abbrev pub transition_error : String → Error
transition_error code = record { tun_code = none; capture_code = some code }

abbrev first_of {ℓ} : {A : Type ℓ} → Option A → Option A → Option A
first_of none b = b
first_of (some a) b = some a

-- errors.Join of two errors, and of two that may be nil.
unfoldable pub join : Error → Error → Error
unfolding first_of
join a b = record {
  tun_code = first_of a.tun_code b.tun_code;
  capture_code = first_of a.capture_code b.capture_code;
}

unfoldable pub join_errors : Option Error → Option Error → Option Error
join_errors none b = b
join_errors (some a) none = some a
join_errors (some a) (some b) = some (join a b)

pub data Outcome {ℓ} (A : Type ℓ) : Type ℓ where
  ok : A → Outcome A
  fails : Error → Outcome A

abbrev pub Action : Type 0 → Type 0 → Type 0
Action S A = S → S × Outcome A

unfoldable pub continue : {S A B : Type 0} → (A → Action S B) → S × Outcome A → S × Outcome B
continue f (s, ok a) = f a s
continue f (s, fails e) = (s, fails e)

infixl 5 ◌>>=◌ ◌>>◌
abbrev pub ◌>>=◌ : {S A B : Type 0} → Action S A → (A → Action S B) → Action S B
m >>= f = λ s. continue f (m s)

abbrev pub ◌>>◌ : {S B : Type 0} → Action S (Unit {0}) → Action S B → Action S B
m >> k = m >>= λ _. k

module _ {S : Type 0} where
  abbrev pub return : {A : Type 0} → A → Action S A
  return a s = (s, ok a)

  abbrev pub throw : {A : Type 0} → Error → Action S A
  throw e s = (s, fails e)

  abbrev pub get : {A : Type 0} → (S → A) → Action S A
  get f s = (s, ok (f s))

  abbrev pub update : (S → S) → Action S (Unit {0})
  update f s = (f s, ok tt)

  -- `if err != nil { return err }`, of an error that may be nil.
  unfoldable pub check : Option Error → Action S (Unit {0})
  check none s = (s, ok tt)
  check (some e) s = (s, fails e)

  -- `none` is the error.
  unfoldable pub expect : {A : Type 0} → Error → Option A → Action S A
  expect e none s = (s, fails e)
  expect e (some a) s = (s, ok a)

  abbrev pub lift : {A : Type 0} → Outcome A → Action S A
  lift outcome s = (s, outcome)

  unfoldable pub require : Error → Bool → Action S (Unit {0})
  require e true s = (s, ok tt)
  require e false s = (s, fails e)

  unfoldable pub when : Bool → Action S (Unit {0}) → Action S (Unit {0})
  when true m s = m s
  when false m s = (s, ok tt)

  abbrev pub failed_with : {A : Type 0} → S × Outcome A → S × Option Error
  failed_with (s, ok a) = (s, none)
  failed_with (s, fails e) = (s, some e)

  -- `if` between two of them.
  unfoldable pub branch : {A : Type 0} → Bool → Action S A → Action S A → Action S A
  branch true m k s = m s
  branch false m k s = k s

  -- Runs it and returns its error.
  abbrev pub attempt : {A : Type 0} → Action S A → Action S (Option Error)
  attempt m s = let (s', error) = failed_with (m s) in (s', ok error)

  -- An error runs the cleanup, whose own error is joined to it.
  abbrev cleaned : {A : Type 0} → Error → S × Option Error → S × Outcome A
  cleaned e (s, none) = (s, fails e)
  cleaned e (s, some other) = (s, fails (join e other))

  abbrev recovered : {A : Type 0} → (S → S × Option Error) → S × Outcome A → S × Outcome A
  recovered cleanup (s, ok a) = (s, ok a)
  recovered cleanup (s, fails e) = cleaned e (cleanup s)

  unfoldable pub recovering : {A : Type 0} → (S → S × Option Error) → Action S A → Action S A
  recovering cleanup m s = recovered cleanup (m s)

  -- An error runs the cleanup, which has none.
  unfoldable pub undoing : {A : Type 0} → (S → S) → Action S A → Action S A
  undoing cleanup m s = recovered (λ s'. (cleanup s', none)) (m s)

  -- An error is replaced.
  abbrev recoded : {A : Type 0} → Error → S × Outcome A → S × Outcome A
  recoded e (s, ok a) = (s, ok a)
  recoded e (s, fails cause) = (s, fails e)

  unfoldable pub recoding : {A : Type 0} → Error → Action S A → Action S A
  recoding e m s = recoded e (m s)

abbrev Holds : {S A : Type 0} → (S → A → Type 0) → S × Outcome A → Type 0
Holds P (s, ok a) = P s a
Holds P (s, fails e) = Unit

-- What holds of the state and the value if there is no error.
pub record Succeeds {S A : Type 0} (P : S → A → Type 0) (x : S × Outcome A) : Type 0 where
  pub holds : Holds P x
