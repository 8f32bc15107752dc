-- ===== src/SelfHeal/Budget/HalfOpen.antt =====
-- When the half-open state of internal/selfheal/state.go can be reached, and what it admits.
use navo.Base.{
  ℕ, ◌+◌, ◌≤◌, ◌<◌, ◌≡◌, ◌≢◌, ◌⊎◌, inl, refl, sym, subst, String, Bool, true, false, arith,
}
use navo.Base.Int.{pos_part}
use navo.SelfHeal.Event.{Budget}
use navo.SelfHeal.Budget.{CircuitRecord, half_open, half_open_busy, refresh, decide, settle, blank}
use navo.SelfHeal.Budget.Window.{IsBudget, after_save, pos_only}

-- The records that begin and complete make of one fault, with the time of the last call. Times do not
-- go back, and are after Go's zero time.
pub data History (code hash : String) (budget : Budget) : ℕ → CircuitRecord → Type 0 where
  unknown : History code hash budget 0 blank
  begun :
      {t : ℕ} {r r' : CircuitRecord} (now : ℕ)
      → History code hash budget t r
      → t ≤ now
      → 0 < now
      → r' ≡ after_save (decide budget now (refresh code hash budget.window now r)).1 r
      → History code hash budget now r'
  completed :
      {t : ℕ} {r r' : CircuitRecord} (now : ℕ) (success : Bool)
      → History code hash budget t r
      → t ≤ now
      → 0 < now
      → r' ≡ (settle code hash budget now success r).0
      → History code hash budget now r'

record IsPaced (budget : Budget) (t : ℕ) (r : CircuitRecord) : Type 0 where
  began : r.window_start ≤ t
  paced : (r.open_until ≡ 0) ⊎ (r.window_start + pos_part budget.window ≤ r.open_until)
  not_probing : r.half_open ≡ false

module _ (code hash : String) (budget : Budget) (b : IsBudget budget)
    (long : pos_part budget.window ≤ pos_part budget.cooldown) where
  begin-IsPaced :
      (t now : ℕ) (r : CircuitRecord)
      → t ≤ now
      → 0 < now
      → IsPaced budget t r
      → IsPaced budget now
          (after_save (decide budget now (refresh code hash budget.window now r)).1 r)
  unfolding decide refresh
  begin-IsPaced t now r p q v = ground (
    arith,
    pos_only budget.max_attempts b.some_attempts,
    pos_only budget.window b.some_window,
    pos_only budget.cooldown b.some_cooldown,
  )

  complete-IsPaced :
      (t now : ℕ) (success : Bool) (r : CircuitRecord)
      → t ≤ now
      → 0 < now
      → IsPaced budget t r
      → IsPaced budget now (settle code hash budget now success r).0
  unfolding settle
  complete-IsPaced t now true r p q v = ground (arith)
  complete-IsPaced t now false r p q v = ground (
    arith,
    pos_only budget.max_attempts b.some_attempts,
    pos_only budget.cooldown b.some_cooldown,
  )

  History-IsPaced : {t : ℕ} {r : CircuitRecord} → History code hash budget t r → IsPaced budget t r
  History-IsPaced unknown = record { began = omega arith; paced = inl refl; not_probing = refl }
  History-IsPaced (begun {t = t} {r = r} now h p q e) =
      subst (IsPaced budget now) (sym e) (begin-IsPaced t now r p q (History-IsPaced h))
  History-IsPaced (completed {t = t} {r = r} now success h p q e) =
      subst (IsPaced budget now) (sym e) (complete-IsPaced t now success r p q (History-IsPaced h))

  IsPaced-no_probe :
      (t now : ℕ) (r : CircuitRecord)
      → t ≤ now
      → IsPaced budget t r
      → let g = (decide budget now (refresh code hash budget.window now r)).0 in
        (g.state ≢ half_open) × (g.state ≢ half_open_busy)
  unfolding decide refresh
  IsPaced-no_probe t now r p v = ground (arith, pos_only budget.window b.some_window)

-- With a cool-down of at least the window, begin never half-opens a circuit: by the time that it may,
-- the window is over and the record starts anew.
pub half_open_unreachable :
    (code hash : String) (budget : Budget) (t now : ℕ) (r : CircuitRecord)
    → IsBudget budget
    → pos_part budget.window ≤ pos_part budget.cooldown
    → History code hash budget t r
    → t ≤ now
    → let g = (decide budget now (refresh code hash budget.window now r)).0 in
      (g.state ≢ half_open) × (g.state ≢ half_open_busy)
half_open_unreachable code hash budget t now r b long h p =
    IsPaced-no_probe code hash budget b long t now r p (History-IsPaced code hash budget b long h)
