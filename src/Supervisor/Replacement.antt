-- ===== src/Supervisor/Replacement.antt =====
-- internal/supervisor/supervisor.go: what SwapConfig and Restart bring about.
use navo.Base.{
  ℕ, ◌≡◌, ◌⊎◌, inl, inr, refl, String, true, false, not, ◌||◌, Option, [], ◌∷◌, ◌++◌, arith, str_eq,
  eq_iff, ap, sym, subst, ◌∙◌, List, Bool, if◌then◌else◌, Bool-cases, Option-cases,
}
use navo.Supervisor.State.{
  State, Event, next_state, last_row, valid_transitions, is_valid_transition,
}
use navo.Supervisor.Transitions.{calls-transition}
use navo.Supervisor.Lifecycle.{
  Supervisor, Call, host_stops, marks_dirty, marks_normal, call, transition, cancel_lifecycle,
  StartAnswers, start, stop, RestartAnswers, restart, SwapAnswers, restore, swap_config, in_state,
}
use navo.Supervisor.Starting.{IsRunning, IsDown, looks, start-down}

-- After the calls of `before`, and a reconciliation at most, the host was asked to start the core on the given
-- config, and the core runs on it.
abbrev pub RunsOn : List Call → String → Supervisor → Type 0
RunsOn before path s = (ctx : ℕ) × (looked : Bool) × IsRunning ctx (before ++ looks looked) path s

-- Among the calls that `later` has after those of `before`, the host is asked to stop the core.
pub data AsksToStop (before : List Call) : List Call → Type 0 where
  asks :
      {later : List Call} (force : Bool)
      → later ≡ before ++ host_stops force ∷ []
      → AsksToStop before later
  asks_after :
      {later : List Call} (force : Bool) (c : Call)
      → later ≡ (before ++ c ∷ []) ++ host_stops force ∷ []
      → AsksToStop before later
  and_more :
      {mid later : List Call} (c : Call)
      → AsksToStop before mid
      → later ≡ mid ++ c ∷ []
      → AsksToStop before later

-- The core was asked to stop, and then to start on the given config, and runs on it.
abbrev pub Replaces : List Call → String → Supervisor → Type 0
Replaces before path s =
    (stopped_with : List Call) × AsksToStop before stopped_with × RunsOn stopped_with path s

-- What is left when a replacement has failed.
abbrev pub IsRestored : String → Supervisor → Type 0
IsRestored previous s =
    ((before : List Call) × RunsOn before previous s)
    ⊎ (s.state ≡ State.failed)
    ⊎ ((previous ≡ "") × (s.state ≡ State.stopped))

restore-IsRestored :
    (answers : StartAnswers) (previous : String) (s : Supervisor)
    → IsDown s
    → IsRestored previous (restore answers previous s)
unfolding restore
restore-IsRestored answers previous s down = elim (Bool-cases (str_eq previous "")) [
  | inl e ↦ rw e (elim down [
    | inl h ↦ inr (inr (ground (arith, eq_iff previous ""), h))
    | inr f ↦ inr (inl f)
  ])
  | inr e ↦ rw e (elim (start-down answers previous s down) [
    | inl (ok, runs) ↦ inl (s.calls, (s.contexts, s.has_reconciler, runs))
    | inr (refused, f) ↦ inr (inl f)
  ])
]

-- The supervisor once SwapConfig has asked the host to stop.
abbrev swap_stop : Supervisor → Supervisor
swap_stop s =
    let r =
      cancel_lifecycle (record (transition Event.config_swap s).0 { state = State.stopping }) in
    record r { calls = r.calls ++ host_stops false ∷ [] }

swaps-running :
    (s : Supervisor)
    → s.state ≡ State.running
    → (not (in_state State.running s) || not (transition Event.config_swap s).1) ≡ false
unfolding transition next_state last_row valid_transitions
swaps-running s e = rw e refl

calls-cancel_lifecycle : (s : Supervisor) → (cancel_lifecycle s).calls ≡ s.calls
unfolding cancel_lifecycle
calls-cancel_lifecycle s = elim (Option-cases s.cancel) [
  | inl e ↦ rw (cancel_lifecycle, e) refl
  | inr (ctx, e) ↦ rw (cancel_lifecycle, e) refl
]

swap_stop-asks : (s : Supervisor) → AsksToStop s.calls (swap_stop s).calls
swap_stop-asks s =
    let stopping : Supervisor = record (transition Event.config_swap s).0 {
      state = State.stopping;
    } in
    asks false (
      ap (λ calls. calls ++ host_stops false ∷ [])
        (calls-cancel_lifecycle stopping ∙ calls-transition Event.config_swap s))

swap_halted-asks :
    (s : Supervisor) → AsksToStop s.calls (transition Event.stop_done (swap_stop s)).0.calls
swap_halted-asks s =
    subst (AsksToStop s.calls) (sym (calls-transition Event.stop_done (swap_stop s)))
      (swap_stop-asks s)

-- SwapConfig on a running supervisor does one of these things. It asks the host to stop the core and then, as the
-- last thing, to start it on the new config, and leaves it running on that. Or it reports an error and leaves the
-- core running on the previous config, which is the last one that the host was asked to start; or leaves the
-- supervisor failed, or stopped if there was no previous config.
pub swap_config-IsRestored :
    (answers : SwapAnswers) (path : String) (s : Supervisor)
    → s.state ≡ State.running
    → let (r, ok) = swap_config answers path s in
      ((ok ≡ true) × Replaces s.calls path r) ⊎ ((ok ≡ false) × IsRestored s.active_config_path r)
unfolding swap_config
swap_config-IsRestored answers path s e =
    let asked = swap_stop s in
    let halted = record (transition Event.stop_done asked).0 { state = State.stopped } in
    let replaced = start answers.replacement path halted in
    elim (Option-cases answers.stop_error) [
      | inr (message, stuck) ↦ elim (Option-cases answers.force_error) [
        | inr (worse, held) ↦ inr (rw (swaps-running s e, stuck, held) (refl, inr (inl refl)))
        | inl gone ↦ inr (
            rw (swaps-running s e, stuck, gone)
              (refl, restore-IsRestored answers.restoration s.active_config_path _ (inl refl)))
      ]
      | inl gone ↦ elim (start-down answers.replacement path halted (inl refl)) [
        | inl (ok, runs) ↦ inl (
            rw (swaps-running s e, gone, ok)
              (
                refl,
                (halted.calls, swap_halted-asks s, (halted.contexts, halted.has_reconciler, runs)),
              ))
        | inr (refused, f) ↦ inr (
            rw (swaps-running s e, gone, refused)
              (refl, restore-IsRestored answers.restoration s.active_config_path _ (inr f)))
      ]
    ]

pub stop-stopped :
    (error : Option String) (s : Supervisor)
    → (stop error s).1 ≡ true
    → (stop error s).0.state ≡ State.stopped
unfolding stop
stop-stopped error s ok = elim (Bool-cases (in_state State.stopped s)) [
  | inl idle ↦ absurd (ground arith)
  | inr up ↦ elim (Option-cases error) [
    | inl fine ↦ rw (up, fine) refl
    | inr (message, stuck) ↦ absurd (ground arith)
  ]
]

stop_call-asks :
    (force : Bool) (s r : Supervisor) (marked : Bool)
    → r.calls ≡ s.calls
    → AsksToStop s.calls ((if marked then call marks_dirty r else r).calls ++ host_stops force ∷ [])
stop_call-asks force s r true e =
    asks_after force marks_dirty
      (ap (λ calls. (calls ++ marks_dirty ∷ []) ++ host_stops force ∷ []) e)
stop_call-asks force s r false e = asks force (ap (λ calls. calls ++ host_stops force ∷ []) e)

maybe_more :
    (before : List Call) (r : Supervisor) (marked : Bool)
    → AsksToStop before r.calls
    → AsksToStop before (if marked then call marks_normal r else r).calls
maybe_more before r true h = and_more marks_normal h refl
maybe_more before r false h = h

-- What Stop has asked for when it ends without an error, and otherwise.
stop-asks :
    (error : Option String) (s : Supervisor)
    → AsksToStop s.calls (stop error s).0.calls
      ⊎ (((stop error s).1 ≡ false) × ((stop error s).0.calls ≡ s.calls))
unfolding stop
stop-asks error s =
    let force = not (in_state State.running s || in_state State.degraded s) in
    let canceled = cancel_lifecycle (record s { warm_idle = false }) in
    let announced =
      if is_valid_transition s.state Event.stop
      then (transition Event.stop canceled).0
      else canceled in
    let stopping : Supervisor = record announced { state = State.stopping } in
    let asked =
      call (host_stops force) (if s.has_reconciler then call marks_dirty stopping else stopping) in
    let normal = if s.has_reconciler then call marks_normal asked else asked in
    let same : announced.calls ≡ s.calls =
      announced-calls (is_valid_transition s.state Event.stop) s in
    let told = stop_call-asks force s stopping s.has_reconciler same in
    elim (Bool-cases (in_state State.stopped s)) [
      | inl idle ↦ rw idle (inr (refl, refl))
      | inr up ↦ elim (Option-cases error) [
        | inl fine ↦
            rw (up, fine)
              (inl (
                subst (AsksToStop s.calls) (sym (calls-transition Event.stop_done normal))
                  (maybe_more s.calls asked s.has_reconciler told)))
        | inr (message, stuck) ↦ rw (up, stuck) (inl told)
      ]
    ]
  where
    announced-calls :
        (valid : Bool) (s : Supervisor)
        → (if valid
            then (transition Event.stop (cancel_lifecycle (record s { warm_idle = false }))).0
            else cancel_lifecycle (record s { warm_idle = false })).calls
          ≡ s.calls
    announced-calls true s =
        calls-transition Event.stop (cancel_lifecycle (record s { warm_idle = false }))
        ∙ calls-cancel_lifecycle (record s { warm_idle = false })
    announced-calls false s = calls-cancel_lifecycle (record s { warm_idle = false })

stop-done :
    (error : Option String) (s : Supervisor)
    → (stop error s).1 ≡ true
    → AsksToStop s.calls (stop error s).0.calls
stop-done error s done = elim (stop-asks error s) [
  | inl told ↦ told
  | inr (refused, same) ↦ absurd (ground (arith, done, refused))
]

stop-forced :
    (error : Option String) (s : Supervisor)
    → AsksToStop s.calls ((stop error s).0.calls ++ host_stops true ∷ [])
stop-forced error s = elim (stop-asks error s) [
  | inl told ↦ and_more (host_stops true) told refl
  | inr (refused, same) ↦ asks true (ap (λ calls. calls ++ host_stops true ∷ []) same)
]

-- Restart, from any state, asks the host to stop the core and then, as the last thing, to start it on the given
-- config, and leaves it running on that; or it reports an error and leaves the supervisor failed.
pub restart-RunsOn :
    (answers : RestartAnswers) (path : String) (s : Supervisor)
    → let (r, ok) = restart answers path s in
      ((ok ≡ true) × Replaces s.calls path r) ⊎ ((ok ≡ false) × (r.state ≡ State.failed))
unfolding restart
restart-RunsOn answers path s =
    let (halted, ok) = stop answers.stop_error s in
    let forced = record halted {
      calls = halted.calls ++ host_stops true ∷ [];
      state = State.stopped;
    } in
    elim (Bool-cases ok) [
      | inl clean ↦
          elim (start-down answers.started path halted
            (inl (stop-stopped answers.stop_error s clean))) [
              | inl (done, runs) ↦ inl (
                  rw (clean, done)
                    (
                      refl,
                      (
                        halted.calls,
                        stop-done answers.stop_error s clean,
                        (halted.contexts, halted.has_reconciler, runs),
                      ),
                    ))
              | inr (refused, f) ↦ inr (rw (clean, refused) (refl, f))
            ]
      | inr stuck ↦ elim (Option-cases answers.force_error) [
        | inr (worse, held) ↦ inr (rw (stuck, held) (refl, refl))
        | inl gone ↦ elim (start-down answers.started path forced (inl refl)) [
          | inl (done, runs) ↦ inl (
              rw (stuck, gone, done)
                (
                  refl,
                  (
                    forced.calls,
                    stop-forced answers.stop_error s,
                    (halted.contexts, halted.has_reconciler, runs),
                  ),
                ))
          | inr (refused, f) ↦ inr (rw (stuck, gone, refused) (refl, f))
        ]
      ]
    ]
