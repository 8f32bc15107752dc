-- ===== src/Service/Capture/Health/Watch.antt =====
-- internal/service/capture_transition.go, monitorTUNAdapter: what a tick of the watch changes.
use navo.Base.{
  ◌≤◌, ◌≡◌, ◌≢◌, inl, inr, subst, String, Bool, true, none, some, eq_iff, is_some, arith,
  Bool-cases, Option-cases,
}
use navo.Service.Capture.State.{Service, Machine}
use navo.Service.Capture.Health.Threshold.{History, tracker_of, streak, observe-fires}
use navo.Service.Capture.Health.{
  Expectation, observe, current_expectation, actionable_tun_observation, tun_observation_healthy,
  confirm, watch_tick, same_expectation,
}

module _ {E M V W : Type 0} (machine : Machine E M V W) where
  observe-repeated :
      (session_id : String) (actionable : Bool) (history : History)
      → session_id ≢ ""
      → (observe session_id actionable (tracker_of history)).1 ≡ true
      → (actionable ≡ true) × (2 ≤ streak session_id history)
  observe-repeated session_id actionable history named fires =
      let (sick, long) = (observe-fires session_id actionable history named).0 fires in
      (sick, omega (arith, long))

  expectation_named :
      (s : Service E M V W) {expected : Expectation}
      → current_expectation s ≡ some expected
      → expected.session_id ≢ ""
  unfolding current_expectation
  expectation_named s {expected} there =
      λ same. ground (arith, there, same, eq_iff s.tun.session_id "")

  fired-first :
      (history : History) (s : Service E M V W) {expected : Expectation}
      → (watch_tick machine (tracker_of history) s).2 ≡ some expected
      → (current_expectation s ≡ some expected)
        × ((actionable_tun_observation expected (machine.inspect_adapter s.env).1 ≡ true)
            × (2 ≤ streak expected.session_id history))
  unfolding watch_tick
  fired-first history s {expected} fired =
      let t = tracker_of history in
      elim (Option-cases (current_expectation s)) [
        | inl nothing ↦ absurd (ground (arith, nothing, fired))
        | inr (seen, there) ↦
            let looked = machine.inspect_adapter s.env in
            let actionable = actionable_tun_observation seen looked.1 in
            elim (Bool-cases (tun_observation_healthy seen looked.1)) [
              | inl healthy ↦ absurd (ground (arith, there, healthy, fired))
              | inr sick ↦ elim (Bool-cases (observe seen.session_id actionable t).1) [
                | inr quiet ↦ absurd (ground (arith, there, sick, quiet, fired))
                | inl fires ↦
                    let same : seen ≡ expected = ground (arith, there, sick, fires, fired) in
                    subst
                      (λ now.
                        (current_expectation s ≡ some now)
                        × ((actionable_tun_observation now looked.1 ≡ true)
                            × (2 ≤ streak now.session_id history)))
                      same
                      (
                        there,
                        observe-repeated seen.session_id actionable history
                            (expectation_named s there) fires,
                      )
              ]
            ]
      ]

  -- What the second look finds, where it reports.
  confirm-reports :
      (expected : Expectation) (s : Service E M V W)
      → s.fault ≡ none
      → is_some (confirm machine expected s).fault ≡ true
      → (current : Expectation) × (current_expectation s ≡ some current)
        × (same_expectation current expected ≡ true)
        × (actionable_tun_observation current (machine.inspect_adapter s.env).1 ≡ true)
  unfolding confirm
  confirm-reports expected s clear told = elim (Option-cases (current_expectation s)) [
    | inl nothing ↦ absurd (ground (arith, nothing, clear, told))
    | inr (current, there) ↦
        (current, there, ground (arith, there, clear, told), ground (arith, there, clear, told))
  ]

  same_expectation-same :
      (a b : Expectation)
      → same_expectation a b ≡ true
      → (a.session_id ≡ b.session_id) × (a.guid ≡ b.guid) × (a.index ≡ b.index)
  same_expectation-same a b h =
      ground (arith, eq_iff a.session_id b.session_id, eq_iff a.guid b.guid)

  -- Whatever the tracker has observed before the tick, and whatever happens to the service between the two looks of
  -- it, of which the second finds no fault yet: the tick reports a fault only if the first look is at a committed
  -- session, if right before it at least two observations in a row were actionable ones of that session, if the second
  -- look is at the same session and adapter, and if what either look sees is actionable.
  pub watch_tick-reports :
      (history : History) (s later : Service E M V W) {expected : Expectation}
      → (watch_tick machine (tracker_of history) s).2 ≡ some expected
      → later.fault ≡ none
      → is_some (confirm machine expected later).fault ≡ true
      → (current : Expectation) × (current_expectation s ≡ some expected)
        × (current_expectation later ≡ some current)
        × ((current.session_id ≡ expected.session_id)
            × (current.guid ≡ expected.guid)
            × (current.index ≡ expected.index))
        × (2 ≤ streak expected.session_id history)
        × (actionable_tun_observation expected (machine.inspect_adapter s.env).1 ≡ true)
        × (actionable_tun_observation current (machine.inspect_adapter later.env).1 ≡ true)
  watch_tick-reports history s later {expected} fired clear told =
      let second = confirm-reports expected later clear told in
      let first = fired-first history s fired in
      (
        second.0,
        first.0,
        second.1,
        same_expectation-same second.0 expected second.2,
        first.1.1,
        first.1.0,
        second.3,
      )
