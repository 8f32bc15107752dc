-- ===== src/Service/Capture/Steps.antt =====
-- How a success passes through the steps of internal/service/capture_transition.go.
use navo.Base.{◌≡◌, refl, sym, subst, Bool, true, false, Option, none, some}
use navo.Service.Capture.Action.{
  Error, Action, Outcome, ok, fails, continue, Succeeds, check, require, expect, recovering,
  undoing, recoding, branch,
}
use navo.Service.Capture.State.{Service}
use navo.Service.Capture.Core.{set_env}

module _ {S A : Type 0} {P : S → A → Type 0} where
  pub done-Succeeds : (s : S) (a : A) → P s a → Succeeds P (s, ok a)
  done-Succeeds s a p = record { holds = p }

  pub fails-Succeeds : (s : S) (e : Error) → Succeeds P (s, fails e)
  fails-Succeeds s e = record { holds = tt }

module _ {S A B : Type 0} {Q : S → B → Type 0} where
  -- A step that cannot fail.
  pub step :
      (s : S) (a : A) (f : A → Action S B) → Succeeds Q (f a s) → Succeeds Q (continue f (s, ok a))
  unfolding continue
  step s a f k = k

  -- A success goes on past a step with what holds after it.
  pub after :
      (P : S → A → Type 0) (f : A → Action S B) (x : S × Outcome A)
      → Succeeds P x
      → ((s : S) (a : A) → P s a → Succeeds Q (f a s))
      → Succeeds Q (continue f x)
  unfolding continue
  after P f (s, ok a) p k = k s a p.holds
  after P f (s, fails e) p k = record { holds = tt }

  pub lifted :
      (s : S) (o : Outcome A) (f : A → Action S B)
      → ((a : A) → Succeeds Q (f a s))
      → Succeeds Q (continue f (s, o))
  unfolding continue
  lifted s (ok a) f k = k a
  lifted s (fails e) f k = record { holds = tt }

  pub expected :
      (s : S) (e : Error) (o : Option A) (f : A → Action S B)
      → ((a : A) → o ≡ some a → Succeeds Q (f a s))
      → Succeeds Q (continue f (expect e o s))
  unfolding continue expect
  expected s e none f k = record { holds = tt }
  expected s e (some a) f k = k a refl

  -- A test between two steps.
  pub either :
      (s : S) (b : Bool) (m k : Action S A) (f : A → Action S B)
      → Succeeds Q (continue f (m s))
      → Succeeds Q (continue f (k s))
      → Succeeds Q (continue f (branch b m k s))
  unfolding branch
  either s true m k f hm hk = hm
  either s false m k f hm hk = hk

module _ {S B : Type 0} {Q : S → B → Type 0} where
  pub checked :
      (s : S) (e : Option Error) (f : Unit {0} → Action S B)
      → Succeeds Q (f tt s)
      → Succeeds Q (continue f (check e s))
  unfolding continue check
  checked s none f k = k
  checked s (some e) f k = record { holds = tt }

  pub required :
      (s : S) (e : Error) (b : Bool) (f : Unit {0} → Action S B)
      → (b ≡ true → Succeeds Q (f tt s))
      → Succeeds Q (continue f (require e b s))
  unfolding continue require
  required s e true f k = k refl
  required s e false f k = record { holds = tt }

module _ {S A : Type 0} {P : S → A → Type 0} where
  pub either-Succeeds :
      (s : S) (b : Bool) (m k : Action S A)
      → Succeeds P (m s)
      → Succeeds P (k s)
      → Succeeds P (branch b m k s)
  unfolding branch
  either-Succeeds s true m k hm hk = hm
  either-Succeeds s false m k hm hk = hk

  pub Succeeds-map :
      (Q : S → A → Type 0) (x : S × Outcome A)
      → ((s : S) (a : A) → Q s a → P s a)
      → Succeeds Q x
      → Succeeds P x
  Succeeds-map Q (s, ok a) f h = record { holds = f s a h.holds }
  Succeeds-map Q (s, fails e) f h = record { holds = tt }

  -- A cleanup and another error do not make a success of a failure.
  pub recovering-Succeeds :
      (cleanup : S → S × Option Error) (m : Action S A) (s : S)
      → Succeeds P (m s)
      → Succeeds P (recovering cleanup m s)
  unfolding recovering
  recovering-Succeeds cleanup m s h = go (m s) h
    where
      cleaned :
          (e : Error) (x : S × Option Error)
          → Succeeds P (recovering (λ _. x) (λ _. (s, fails e)) s)
      cleaned e (s', none) = record { holds = tt }
      cleaned e (s', some other) = record { holds = tt }

      go : (x : S × Outcome A) → Succeeds P x → Succeeds P (recovering cleanup (λ _. x) s)
      go (s', ok a) h = h
      go (s', fails e) h = cleaned e (cleanup s')

  pub undoing-Succeeds :
      (cleanup : S → S) (m : Action S A) (s : S)
      → Succeeds P (m s)
      → Succeeds P (undoing cleanup m s)
  unfolding undoing
  undoing-Succeeds cleanup m s h = go (m s) h
    where
      go : (x : S × Outcome A) → Succeeds P x → Succeeds P (undoing cleanup (λ _. x) s)
      go (s', ok a) h = h
      go (s', fails e) h = record { holds = tt }

  pub recoding-Succeeds :
      (e : Error) (m : Action S A) (s : S) → Succeeds P (m s) → Succeeds P (recoding e m s)
  unfolding recoding
  recoding-Succeeds e m s h = go (m s) h
    where
      go : (x : S × Outcome A) → Succeeds P x → Succeeds P (recoding e (λ _. x) s)
      go (s', ok a) h = h
      go (s', fails cause) h = record { holds = tt }

pub lifted-last :
    {S A : Type 0} {P : S → A → Type 0} (s : S) (o : Outcome A)
    → ((a : A) → P s a)
    → Succeeds P (s, o)
lifted-last s (ok a) h = record { holds = h a }
lifted-last s (fails e) h = record { holds = tt }

pub expected-last :
    {S A : Type 0} {P : S → A → Type 0} (s : S) (e : Error) (o : Option A)
    → ((a : A) → P s a)
    → Succeeds P (expect e o s)
unfolding expect
expected-last s e none h = record { holds = tt }
expected-last s e (some a) h = record { holds = h a }

module _ {S : Type 0} {P : S → Unit {0} → Type 0} where
  pub required-last :
      (s : S) (e : Error) (b : Bool) → (b ≡ true → P s tt) → Succeeds P (require e b s)
  unfolding require
  required-last s e true h = record { holds = h refl }
  required-last s e false h = record { holds = tt }

  pub checked-last : (s : S) (e : Option Error) → (e ≡ none → P s tt) → Succeeds P (check e s)
  unfolding check
  checked-last s none h = record { holds = h refl }
  checked-last s (some e) h = record { holds = tt }

-- The machine alone has changed.
module _ {E M V W : Type 0} where
  abbrev pub Untouched : {A : Type 0} → Service E M V W → Service E M V W → A → Type 0
  Untouched s s' a = (env : E) × (s' ≡ set_env env s)

  pub set_env-Untouched :
      {A : Type 0} (s : Service E M V W) (env : E) (a : A)
      → Succeeds (Untouched s) (set_env env s, ok a)
  set_env-Untouched s env a = done-Succeeds (set_env env s) a (env, refl)

  -- After a step that leaves the service, the rest starts from the same service.
  pub after-Untouched :
      {A B : Type 0} {Q : Service E M V W → B → Type 0} (s : Service E M V W)
      (f : A → Action (Service E M V W) B) (x : Service E M V W × Outcome A)
      → Succeeds (Untouched s) x
      → ((env : E) (a : A) → Succeeds Q (f a (set_env env s)))
      → Succeeds Q (continue f x)
  after-Untouched {Q} s f x u k =
      after (Untouched s) f x u (λ s' a h. subst (λ now. Succeeds Q (f a now)) (sym h.1) (k h.0 a))
