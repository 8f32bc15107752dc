-- ===== src/SelfHeal/Budget/Store.antt =====
-- The budget store of internal/selfheal/state.go across its calls: which circuits a call touches, what
-- reaches the file, and what the next begin finds.
use navo.Base.{
  ℕ, ◌<◌, ◌≡◌, ◌≢◌, ◌⊎◌, inl, inr, refl, ap, ◌∙◌, String, Bool, true, false, Option, none, some,
  arith, Bool-cases, eq_iff,
}
use navo.Base.Int.{ℤ, pos, negsuc, pos_part, leb_ℤ}
use navo.Base.Dict.{Dict, lookup, insert, lookup-insert, lookup-insert_self}
use navo.SelfHeal.Event.{ErrorEvent, Budget, event_key}
use navo.SelfHeal.Budget.{
  CircuitRecord, closed, Grant, Save, drop, keep, persist, BudgetStore, refresh, decide, settle,
  or_blank, release_probe, record_of, save_grant, persist_locked, begin, complete, cancel_half_open,
}
use navo.SelfHeal.Budget.Window.{pos_only}

lookup-insert_ne :
    {V : Type 0} (k j : String) (v : V) (m : Dict V) → k ≢ j → lookup j (insert k v m) ≡ lookup j m
lookup-insert_ne k j v m h = ground (arith, lookup-insert k j v m, eq_iff k j)

positive : (n : ℤ) → 0 < pos_part n → leb_ℤ n (pos 0) ≡ false
positive (pos n) h = ground arith
positive (negsuc n) h = absurd (omega arith)

records-persist_locked :
    (written : Bool) (b : BudgetStore) → (persist_locked written b).0.records ≡ b.records
unfolding persist_locked
records-persist_locked written b = ground arith

-- What a save makes of the map.
abbrev saved : String → Save → Dict CircuitRecord → Dict CircuitRecord
saved key drop m = m
saved key (keep r) m = insert key r m
saved key (persist r) m = insert key r m

records-save_grant :
    (written : Bool) (key : String) (g : Grant) (s : Save) (b : BudgetStore)
    → (save_grant written key (g, s) b).0.records ≡ saved key s b.records
unfolding save_grant
records-save_grant written key g drop b = refl
records-save_grant written key g (keep r) b = refl
records-save_grant written key g (persist r) b =
    records-persist_locked written (record b { records = insert key r b.records })

lookup-saved_ne :
    (key j : String) (s : Save) (m : Dict CircuitRecord)
    → key ≢ j
    → lookup j (saved key s m) ≡ lookup j m
lookup-saved_ne key j drop m h = refl
lookup-saved_ne key j (keep r) m h = lookup-insert_ne key j r m h
lookup-saved_ne key j (persist r) m h = lookup-insert_ne key j r m h

-- A grant that is not an error is the one that was decided.
grant-save_grant :
    (written : Bool) (key : String) (g : Grant) (s : Save) (b : BudgetStore)
    → g.error ≡ false
    → (save_grant written key (g, s) b).1.error ≡ false
    → (save_grant written key (g, s) b).1 ≡ g
unfolding save_grant persist_locked
grant-save_grant written key g drop b h k = refl
grant-save_grant written key g (keep r) b h k = refl
grant-save_grant written key g (persist r) b h k = ground arith

record_of-insert :
    (key : String) (r : CircuitRecord) (m : Dict CircuitRecord) → record_of key (insert key r m) ≡ r
unfolding record_of
record_of-insert key r m = ap or_blank (lookup-insert_self key r m)

release_probe_lem :
    (written : Bool) (key : String) (r : CircuitRecord) (b : BudgetStore)
    → (release_probe written key (some r) b ≡ (b, false))
      ⊎ (release_probe written key (some r) b
          ≡ persist_locked written
              (record b { records = insert key (record r { half_open = false }) b.records }))
unfolding release_probe
release_probe_lem written key r b = ground arith

release_probe-other :
    (written : Bool) (key j : String) (o : Option CircuitRecord) (b : BudgetStore)
    → key ≢ j
    → lookup j (release_probe written key o b).0.records ≡ lookup j b.records
release_probe-other written key j none b h = unfold release_probe in refl
release_probe-other written key j (some r) b h = elim (release_probe_lem written key r b) [
  | inl e ↦ ap (λ (p : BudgetStore × Bool). lookup j p.0.records) e
  | inr e ↦
      ap (λ (p : BudgetStore × Bool). lookup j p.0.records) e
      ∙ ap (lookup j) (records-persist_locked written _)
      ∙ lookup-insert_ne key j (record r { half_open = false }) b.records h
]

abbrev pub first : Grant
first = record { attempt = 1; state = closed; allowed = true; error = false }

abbrev Keeps : Grant → Grant × Save → Type 0
Keeps g p = (r : CircuitRecord) × (p ≡ (g, keep r))

first_grant :
    (written : Bool) (key : String) (b : BudgetStore) {p : Grant × Save}
    → Keeps first p
    → (save_grant written key p b).1 ≡ first
unfolding save_grant
first_grant written key b {p} (r, e) = ap (λ (q : Grant × Save). (save_grant written key q b).1) e

first_attempt :
    (code hash : String) (budget : Budget) (now later : ℕ) (r : CircuitRecord)
    → 0 < pos_part budget.max_attempts
    → Keeps first (
        decide budget later
          (refresh code hash budget.window later (settle code hash budget now true r).0))
unfolding decide refresh settle
first_attempt code hash budget now later r h = (
  refresh code hash budget.window later (settle code hash budget now true r).0,
  ground (arith, pos_only budget.max_attempts h),
)

module _ (digest : String → String) (event : ErrorEvent) where
  abbrev circuit : String
  circuit = (event_key digest event).0

  abbrev current : Budget → ℕ → BudgetStore → CircuitRecord
  current budget now b =
      refresh event.code (event_key digest event).1 budget.window now (record_of circuit b.records)

  -- begin, in terms of its parts.
  begin_lem :
      (budget : Budget) (now : ℕ) (written : Bool) (b : BudgetStore)
      → leb_ℤ budget.max_attempts (pos 0) ≡ false
      → begin digest event budget now written b
        ≡ save_grant written circuit (decide budget now (current budget now b)) b
  unfolding begin
  begin_lem budget now written b h = rw h

  complete_lem :
      (budget : Budget) (now : ℕ) (success written : Bool) (b : BudgetStore)
      → (complete digest event budget now success written b).0
        ≡ (persist_locked written (record b {
          records =
              insert circuit
                (settle event.code
                  (event_key digest event).1
                  budget
                  now
                  success
                  (record_of circuit b.records)).0
                b.records;
        })).0
  unfolding complete
  complete_lem budget now success written b = refl

  begin_disabled :
      (budget : Budget) (now : ℕ) (written : Bool) (b : BudgetStore)
      → leb_ℤ budget.max_attempts (pos 0) ≡ true
      → (begin digest event budget now written b).0 ≡ b
  unfolding begin
  begin_disabled budget now written b h = rw h

  begin-other :
      (budget : Budget) (now : ℕ) (written : Bool) (b : BudgetStore) (j : String)
      → circuit ≢ j
      → lookup j (begin digest event budget now written b).0.records ≡ lookup j b.records
  begin-other budget now written b j h = elim (Bool-cases (leb_ℤ budget.max_attempts (pos 0))) [
    | inl off ↦
        ap (λ (c : BudgetStore). lookup j c.records) (begin_disabled budget now written b off)
    | inr on ↦
        let (g, s) = decide budget now (current budget now b) in
        rw (begin_lem budget now written b on) (
          ap (lookup j) (records-save_grant written circuit g s b)
          ∙ lookup-saved_ne circuit j s b.records h)
  ]

  complete-other :
      (budget : Budget) (now : ℕ) (success written : Bool) (b : BudgetStore) (j : String)
      → circuit ≢ j
      → lookup j (complete digest event budget now success written b).0.records ≡ lookup j b.records
  complete-other budget now success written b j h =
      rw (complete_lem budget now success written b) (
        ap (lookup j) (records-persist_locked written _) ∙ lookup-insert_ne circuit j _ b.records h)

  cancel-other :
      (written : Bool) (b : BudgetStore) (j : String)
      → circuit ≢ j
      → lookup j (cancel_half_open digest event written b).0.records ≡ lookup j b.records
  unfolding cancel_half_open
  cancel-other written b j h = release_probe-other written circuit j (lookup circuit b.records) b h

  -- A call of begin, complete or cancelHalfOpen leaves the circuits of other faults as they are.
  pub other_circuits :
      (budget : Budget) (now : ℕ) (success written : Bool) (b : BudgetStore) (j : String)
      → (event_key digest event).0 ≢ j
      → (lookup j (begin digest event budget now written b).0.records ≡ lookup j b.records)
        × (lookup j (complete digest event budget now success written b).0.records
            ≡ lookup j b.records)
        × (lookup j (cancel_half_open digest event written b).0.records ≡ lookup j b.records)
  other_circuits budget now success written b j h = (
    begin-other budget now written b j h,
    complete-other budget now success written b j h,
    cancel-other written b j h,
  )

  -- What complete leaves of its own circuit.
  record_of-complete :
      (budget : Budget) (now : ℕ) (success written : Bool) (b : BudgetStore)
      → record_of circuit (complete digest event budget now success written b).0.records
        ≡ (settle event.code
            (event_key digest event).1
            budget
            now
            success
            (record_of circuit b.records)).0
  record_of-complete budget now success written b = rw (complete_lem budget now success written b) (
      ap (record_of circuit) (records-persist_locked written _)
      ∙ record_of-insert circuit _ b.records)

  -- After a success begin admits a first attempt again, whenever it comes.
  pub begin-complete_success :
      (budget : Budget) (now later : ℕ) (written written' : Bool) (b : BudgetStore)
      → 0 < pos_part budget.max_attempts
      → (begin digest event budget later written'
          (complete digest event budget now true written b).0).1
        ≡ first
  begin-complete_success budget now later written written' b h =
      let b' = (complete digest event budget now true written b).0 in
      rw (begin_lem budget later written' b' (positive budget.max_attempts h)) (
        rw (record_of-complete budget now true written b) (
          first_grant written' circuit b' (
            first_attempt event.code (event_key digest event).1 budget now later
              (record_of circuit b.records) h)))
