-- ===== src/SelfHeal/Budget.antt =====
-- internal/selfheal/state.go: the attempts of each fault, and its circuit breaker. A method runs under
-- `b.mu`; `now` is its reading of the clock, and `written` whether the file write would succeed.
pub mod Window
pub mod HalfOpen
pub mod Store
use navo.Base.{
  ℕ, suc, ◌+◌, String, Bool, true, false, not, ◌&&◌, ◌||◌, Option, none, some, List, [], ◌∷◌,
  str_eq, ltb, leb, ◌==◌, if◌then◌else◌,
}
use navo.Base.Int.{ℤ, pos, pos_part, neg_part, leb_ℤ, add_time}
use navo.Base.Dict.{Dict, lookup, insert}
use navo.SelfHeal.Event.{ErrorEvent, Budget, event_key}

-- Attempts is only ever reset, and counted up from there.
pub record CircuitRecord : Type 0 where
  pub error_code : String
  pub resource_hash : String
  pub attempts : ℕ
  pub window_start : ℕ
  pub last_attempt : ℕ
  pub open_until : ℕ
  pub half_open : Bool
  pub last_result : String

-- What a map lookup gives for a missing key.
abbrev pub blank : CircuitRecord
blank = record {
  error_code = "";
  resource_hash = "";
  attempts = 0;
  window_start = 0;
  last_attempt = 0;
  open_until = 0;
  half_open = false;
  last_result = "";
}

-- `disk` is the document in the file at `path`.
pub record BudgetStore : Type 0 where
  pub path : String
  pub records : Dict CircuitRecord
  pub disk : Option (Dict CircuitRecord)

pub data Circuit : Type 0 where
  disabled closed still_open opened half_open half_open_busy failed : Circuit

pub record Grant : Type 0 where
  pub attempt : ℕ
  pub state : Circuit
  pub allowed : Bool
  pub error : Bool

pub data Save : Type 0 where
  drop : Save
  keep persist : CircuitRecord → Save

abbrev pub or_blank : Option CircuitRecord → CircuitRecord
or_blank none = blank
or_blank (some r) = r

unfoldable pub record_of : String → Dict CircuitRecord → CircuitRecord
unfolding lookup
record_of key records = or_blank (lookup key records)

-- now.Sub(start) >= window. Sub saturates at the longest Duration, which no window exceeds.
abbrev pub has_passed : ℕ → ℕ → ℤ → Bool
has_passed now start window = leb (start + pos_part window) (now + neg_part window)

-- The head of begin: the record carries the event, and a window that is over starts anew.
unfoldable pub refresh : String → String → ℤ → ℕ → CircuitRecord → CircuitRecord
refresh code hash window now r =
    let named = record r { error_code = code; resource_hash = hash } in
    if r.window_start == 0 || has_passed now r.window_start window
    then record named { attempts = 0; window_start = now; open_until = 0; half_open = false }
    else named

-- The rest of begin, on the refreshed record.
unfoldable pub decide : Budget → ℕ → CircuitRecord → Grant × Save
decide budget now r =
    if not (r.open_until == 0)
    then (if ltb now r.open_until
        then (
          record { attempt = r.attempts; state = still_open; allowed = false; error = false },
          drop,
        )
        else if r.half_open
        then (
          record { attempt = r.attempts; state = half_open_busy; allowed = false; error = false },
          drop,
        )
        else (
          record { attempt = r.attempts + 1; state = half_open; allowed = true; error = false },
          persist (record r { half_open = true }),
        ))
    else if leb_ℤ budget.max_attempts (pos r.attempts)
    then (
      record { attempt = r.attempts; state = opened; allowed = false; error = false },
      persist (record r { open_until = add_time now budget.cooldown }),
    )
    else (
      record { attempt = r.attempts + 1; state = closed; allowed = true; error = false },
      keep r,
    )

-- persistLocked; the flag is a non-nil error.
unfoldable pub persist_locked : Bool → BudgetStore → BudgetStore × Bool
persist_locked written b =
    if str_eq b.path ""
    then (b, false)
    else if written
    then (record b { disk = some b.records }, false)
    else (b, true)

abbrev pub failed_grant : Grant
failed_grant = record { attempt = 0; state = failed; allowed = false; error = true }

unfoldable pub save_grant : Bool → String → Grant × Save → BudgetStore → BudgetStore × Grant
unfolding persist_locked
save_grant written key (g, drop) b = (b, g)
save_grant written key (g, keep r) b = (record b { records = insert key r b.records }, g)
save_grant written key (g, persist r) b =
    let (b', error) = persist_locked written (record b { records = insert key r b.records }) in
    (b', if error then failed_grant else g)

-- The tail of complete: the attempt's outcome on the record.
unfoldable pub settle :
    String → String → Budget → ℕ → Bool → CircuitRecord → CircuitRecord × Circuit
settle code hash budget now true r = (
  record r {
    error_code = code;
    resource_hash = hash;
    last_attempt = now;
    attempts = 0;
    open_until = 0;
    half_open = false;
    last_result = "succeeded";
  },
  closed,
)
settle code hash budget now false r =
    let tried = record r {
      error_code = code;
      resource_hash = hash;
      last_attempt = now;
      attempts = r.attempts + 1;
      half_open = false;
      last_result = "failed";
    } in
    if leb_ℤ budget.max_attempts (pos tried.attempts)
    then (record tried { open_until = add_time now budget.cooldown }, opened)
    else (tried, closed)

-- cancelHalfOpen, with the record that the map holds at the key.
unfoldable pub release_probe :
    Bool → String → Option CircuitRecord → BudgetStore → BudgetStore × Bool
unfolding persist_locked
release_probe written key none b = (b, false)
release_probe written key (some r) b =
    if not r.half_open
    then (b, false)
    else persist_locked written
        (record b { records = insert key (record r { half_open = false }) b.records })

module _ (digest : String → String) where
  unfoldable pub begin : ErrorEvent → Budget → ℕ → Bool → BudgetStore → BudgetStore × Grant
  unfolding refresh decide save_grant record_of event_key
  begin event budget now written b =
      if leb_ℤ budget.max_attempts (pos 0)
      then (b, record { attempt = 0; state = disabled; allowed = false; error = false })
      else (let (key, hash) = event_key digest event in
          let r = refresh event.code hash budget.window now (record_of key b.records) in
          save_grant written key (decide budget now r) b)

  unfoldable pub cancel_half_open : ErrorEvent → Bool → BudgetStore → BudgetStore × Bool
  unfolding release_probe event_key lookup
  cancel_half_open event written b =
      let key = (event_key digest event).0 in release_probe written key (lookup key b.records) b

  unfoldable pub complete :
      ErrorEvent → Budget → ℕ → Bool → Bool → BudgetStore → BudgetStore × Circuit × Bool
  unfolding settle persist_locked record_of event_key
  complete event budget now success written b =
      let (key, hash) = event_key digest event in
      let (r, state) = settle event.code hash budget now success (record_of key b.records) in
      let (b', error) = persist_locked written (record b { records = insert key r b.records }) in
      (b', state, error)

-- load, once the file is read: `none` for a missing file, `some none` for one that does not decode to
-- the current version. The flag is a quarantine that failed.
unfoldable pub load : Option (Option (Dict CircuitRecord)) → Bool → String → Option BudgetStore
load file renamed path =
    let empty : BudgetStore = record { path = path; records = []; disk = none } in
    if str_eq path "" then some empty else elim file [
      | none ↦ some empty
      | some none ↦ if renamed then some empty else none
      | some (some records) ↦ some (record empty { records = records; disk = some records })
    ]
