-- ===== src/SelfHeal/Budget/Window.antt =====
-- The circuit breaker of internal/selfheal/state.go: what begin admits, and until when.
use navo.Base.{
  ℕ, ◌+◌, ◌≤◌, ◌<◌, ◌≡◌, ◌⊎◌, refl, String, false, List, [], ◌∷◌, arith, All, if◌then◌else◌,
}
use navo.Base.Int.{ℤ, pos, negsuc, pos_part, neg_part}
use navo.SelfHeal.Event.{Budget}
use navo.SelfHeal.Budget.{CircuitRecord, Save, drop, keep, persist, refresh, decide, settle}

-- A budget as the engine hands it over: some attempts, a window and a cool-down.
pub record IsBudget (budget : Budget) : Type 0 where
  pub some_attempts : 0 < pos_part budget.max_attempts
  pub some_window : 0 < pos_part budget.window
  pub some_cooldown : 0 < pos_part budget.cooldown

pub pos_only : (z : ℤ) → 0 < pos_part z → neg_part z ≡ 0
pos_only (pos n) h = refl
pos_only (negsuc n) h = absurd (omega arith)

abbrev pub after_save : Save → CircuitRecord → CircuitRecord
after_save drop r = r
after_save (keep r') r = r'
after_save (persist r') r = r'

-- When a fault is taken up, and when its repair is over if it is attempted.
pub record Span : Type 0 where
  pub begun : ℕ
  pub over : ℕ

-- One repair that fails: begin, and later complete if begin allows it. The first result counts the attempt.
pub try_failing : String → String → Budget → Span → CircuitRecord → ℕ × CircuitRecord
try_failing code hash budget span r =
    let (g, save) = decide budget span.begun (refresh code hash budget.window span.begun r) in
    let r' = after_save save r in
    if g.allowed then (1, (settle code hash budget span.over false r').0) else (0, r')

-- The faults of one circuit, one after the other; the number of repairs that were attempted.
pub attempts_over : String → String → Budget → List Span → CircuitRecord → ℕ
attempts_over code hash budget [] r = 0
attempts_over code hash budget (span ∷ spans) r =
    let (n, r') = try_failing code hash budget span r in n + attempts_over code hash budget spans r'

-- The record in the middle of a window that began at `start`: the attempts are within the budget, and
-- once they are used up the circuit is open past the window.
pub record IsCounting (budget : Budget) (start : ℕ) (r : CircuitRecord) : Type 0 where
  pub began : r.window_start ≡ start
  pub within : r.attempts ≤ pos_part budget.max_attempts
  pub spent :
      r.attempts ≡ pos_part budget.max_attempts → start + pos_part budget.window ≤ r.open_until
  pub unspent : r.attempts < pos_part budget.max_attempts → r.open_until ≡ 0
  pub not_probing : r.half_open ≡ false

try_failing-IsCounting :
    (code hash : String) (budget : Budget) (start : ℕ) (span : Span) (r : CircuitRecord)
    → IsBudget budget
    → pos_part budget.window ≤ pos_part budget.cooldown
    → 0 < start
    → start ≤ span.begun
    → span.begun < start + pos_part budget.window
    → span.begun ≤ span.over
    → IsCounting budget start r
    → IsCounting budget start (try_failing code hash budget span r).1
      × ((try_failing code hash budget span r).0 + r.attempts
          ≤ (try_failing code hash budget span r).1.attempts)
unfolding try_failing decide refresh settle
try_failing-IsCounting code hash budget start span r b paced p q u later v =
    ground (arith, pos_only budget.max_attempts, pos_only budget.window, pos_only budget.cooldown)

-- Begun in the window that began at `start`, and over no earlier than begun.
abbrev pub Inside : ℕ → Budget → Span → Type 0
Inside start budget span =
    (start ≤ span.begun) × (span.begun < start + pos_part budget.window) × (span.begun ≤ span.over)

attempts_over-le :
    (code hash : String) (budget : Budget) (start : ℕ) (times : List Span) (r : CircuitRecord)
    → IsBudget budget
    → pos_part budget.window ≤ pos_part budget.cooldown
    → 0 < start
    → All (Inside start budget) times
    → IsCounting budget start r
    → attempts_over code hash budget times r + r.attempts ≤ pos_part budget.max_attempts
unfolding attempts_over
attempts_over-le code hash budget start [] r b paced p all v = omega (arith, v.within)
attempts_over-le code hash budget start (span ∷ times) r b paced p all v =
    let (v', more) =
      try_failing-IsCounting code hash budget start span r b paced p all.0.0 all.0.1 all.0.2 v in
    let r' = (try_failing code hash budget span r).1 in
    omega (arith, more, attempts_over-le code hash budget start times r' b paced p all.1 v')

-- The first fault after a window is over, or with no record, opens a window.
abbrev opening : String → String → ℕ → CircuitRecord → CircuitRecord
opening code hash start r = record r {
  error_code = code;
  resource_hash = hash;
  attempts = 0;
  window_start = start;
  open_until = 0;
  half_open = false;
}

refresh-over :
    (code hash : String) (budget : Budget) (start : ℕ) (r : CircuitRecord)
    → 0 < pos_part budget.window
    → (r.window_start ≡ 0) ⊎ (r.window_start + pos_part budget.window ≤ start)
    → refresh code hash budget.window start r ≡ opening code hash start r
unfolding refresh
refresh-over code hash budget start r b over = ground (arith, pos_only budget.window)

refresh-opening :
    (code hash : String) (budget : Budget) (start : ℕ) (r : CircuitRecord)
    → 0 < pos_part budget.window
    → refresh code hash budget.window start (opening code hash start r) ≡ opening code hash start r
unfolding refresh
refresh-opening code hash budget start r b = ground (arith, pos_only budget.window)

-- Of a record with a closed circuit nothing is dropped.
after_save-decide :
    (budget : Budget) (now : ℕ) (r a b : CircuitRecord)
    → r.open_until ≡ 0
    → after_save (decide budget now r).1 a ≡ after_save (decide budget now r).1 b
unfolding decide
after_save-decide budget now r a b e = ground arith

try_failing-opening :
    (code hash : String) (budget : Budget) (start : ℕ) (r : CircuitRecord)
    → 0 < pos_part budget.window
    → (r.window_start ≡ 0) ⊎ (r.window_start + pos_part budget.window ≤ start)
    → (ended : ℕ)
    → let span : Span = record { begun = start; over = ended } in
      try_failing code hash budget span r
      ≡ try_failing code hash budget span (opening code hash start r)
unfolding try_failing
try_failing-opening code hash budget start r b over ended =
    rw (refresh-over code hash budget start r b over, refresh-opening code hash budget start r b)
      (rw
        (after_save-decide budget start (opening code hash start r) r (opening code hash start r)
          refl)
        refl)

-- Let the first fault after the last window open a window, and let any number of faults of the same circuit be
-- taken up in it, one after the other as the engine does. If the cool-down is at least the window, at most
-- `max_attempts` repairs are attempted that fail, however long each of them takes and even if it ends after the
-- window.
pub attempts_over-le-max_attempts :
    (code hash : String) (budget : Budget) (start ended : ℕ) (times : List Span) (r : CircuitRecord)
    → IsBudget budget
    → pos_part budget.window ≤ pos_part budget.cooldown
    → 0 < start
    → start ≤ ended
    → (r.window_start ≡ 0) ⊎ (r.window_start + pos_part budget.window ≤ start)
    → All (Inside start budget) times
    → attempts_over code hash budget (record { begun = start; over = ended } ∷ times) r
      ≤ pos_part budget.max_attempts
unfolding attempts_over
attempts_over-le-max_attempts code hash budget start ended times r b paced p later over all =
    let fresh = opening code hash start r in
    let counting : IsCounting budget start fresh = record {
      began = refl;
      within = omega arith;
      spent = λ e. absurd (omega (arith, b.some_attempts));
      unspent = λ e. refl;
      not_probing = refl;
    } in
    let whole =
      attempts_over-le code hash budget start (record { begun = start; over = ended } ∷ times) fresh
        b paced p ((omega arith, omega (arith, b.some_window), later), all) counting in
    rw (try_failing-opening code hash budget start r b.some_window over ended)
      (omega (arith, whole))
