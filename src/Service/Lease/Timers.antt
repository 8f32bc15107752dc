-- ===== src/Service/Lease/Timers.antt =====
-- internal/service/warm_lease.go: the runs of operations, timers and callbacks, and what each step keeps.
use navo.Base.{
  ℕ, ◌≡◌, ◌≢◌, ◌⊎◌, inl, inr, refl, sym, ap, subst, ◌∙◌, Bool, true, false, not, ◌||◌, Option, none,
  some, some-injective, List, [], ◌∷◌, ◌++◌, ◌==◌, if-either, if◌then◌else◌, arith, Option-cases,
}
use navo.Base.Int.{ℤ, pos, leb_ℤ}
use navo.Service.Lease.{
  Lease, World, Warm, remember, retain, remaining, current_identity, active_matches, reusable,
  no_lease, invalidate, remember_warm, retain_warm, resume_warm, fire, expire_warm,
}
use navo.Service.Lease.Refines.{
  Operation, remembering, retaining, resuming, invalidating, perform, IsTimed,
}

-- One of the callbacks is of the generation.
abbrev pub Has : ℕ → List ℕ → Type 0
Has g [] = ⊥
Has g (c ∷ cs) = (g ≡ c) ⊎ Has g cs

other-Has :
    (g c : ℕ) (before after : List ℕ)
    → g ≢ c
    → Has g (before ++ c ∷ after)
    → Has g (before ++ after)
other-Has g c [] after other (inl same) = absurd (other same)
other-Has g c [] after other (inr h) = h
other-Has g c (b ∷ before) after other (inl same) = inl same
other-Has g c (b ∷ before) after other (inr h) = inr (other-Has g c before after other h)

module _ {V : Type 0} (blank : V) where
  -- An operation, a timer that fires, or a callback that has fired and gets captureMu.
  pub data Step : Warm V → Warm V → Type 0 where
    performs : (op : Operation V) (world : World) (w : Warm V) → Step w (perform blank op world w).0
    fires : (w : Warm V) → Step w (fire blank w)
    expires :
        (before : List ℕ) (g : ℕ) (after : List ℕ) (now : ℕ) (w : Warm V)
        → w.callbacks ≡ before ++ g ∷ after
        → Step w (record (expire_warm blank g now w).0 { callbacks = before ++ after })

  abbrev pub initial : Warm V
  initial = record {
    lease = no_lease blank;
    generation = 0;
    timer = none;
    callbacks = [];
    warm_idle = false;
  }

  pub data Reach : Warm V → Type 0 where
    begins : Reach initial
    goes : (w w' : Warm V) → Reach w → Step w w' → Reach w'

  -- An idle lease has an end, and a timer or a callback of its generation.
  pub record IsTended (w : Warm V) : Type 0 where
    pub timed : IsTimed w.lease
    pub remembered : w.lease.idle ≡ true → w.lease.remembered ≡ true
    pub tended : w.lease.idle ≡ true → (w.timer ≡ some w.generation) ⊎ Has w.generation w.callbacks

  not_idle-IsTended : (w : Warm V) → w.lease.idle ≡ false → IsTended w
  not_idle-IsTended w e = record {
    timed = λ idle. absurd (ground (arith, e, idle));
    remembered = λ idle. absurd (ground (arith, e, idle));
    tended = λ idle. absurd (ground (arith, e, idle));
  }

  if-known :
      {A : Type 0} (P : A → Type 0) (b : Bool) {x y : A}
      → (b ≡ true → P x)
      → (b ≡ false → P y)
      → P (if b then x else y)
  if-known P true hx hy = hx refl
  if-known P false hx hy = hy refl

  retain_lem :
      (now : ℕ) (ttl : ℤ) (l : Lease V)
      → (retain now ttl l).1 ≡ true
      → ((retain now ttl l).0.expires_at ≢ 0) × ((retain now ttl l).0.remembered ≡ true)
  unfolding retain
  retain_lem now ttl l h = (ground (arith, h), ground (arith, h))

  pub perform-IsTended :
      (op : Operation V) (world : World) (w : Warm V)
      → IsTended w
      → IsTended (perform blank op world w).0
  unfolding remember_warm retain_warm resume_warm invalidate remember retain
  perform-IsTended (remembering v) world w t =
      elim (Option-cases (current_identity world.status world.runtime)) [
        | inl e ↦ not_idle-IsTended (remember_warm blank world v w) (ground (arith, e))
        | inr (c, e) ↦ not_idle-IsTended (remember_warm blank world v w) (ground (arith, e))
      ]
  perform-IsTended (retaining ttl) world w t =
      elim (Option-cases (current_identity world.status world.runtime)) [
        | inl e ↦
            rw (retain_warm, e)
              (if-either (λ (x : Warm V × Option (V × ℕ)). IsTended x.0) (leb_ℤ ttl (pos 0)) t t)
        | inr (c, e) ↦
            let P = λ (x : Warm V × Option (V × ℕ)). IsTended x.0 in
            rw (retain_warm, e)
              (if-either P (leb_ℤ ttl (pos 0)) t (
                if-either P (not world.healthy) t (
                  if-either P (not (active_matches c world.status w.lease)) t (
                    if-known P (not (retain world.now ttl w.lease).1) (λ lost. t)
                      (λ kept.
                        let (end, there) =
                          retain_lem world.now ttl w.lease (ground (arith, kept)) in
                        record {
                          timed = λ i. end;
                          remembered = λ i. there;
                          tended = λ i. inl refl;
                        })))))
      ]
  perform-IsTended resuming world w t =
      elim (Option-cases (current_identity world.status world.runtime)) [
        | inl e ↦ rw (resume_warm, e) t
        | inr (c, e) ↦
            let P = λ (x : Warm V × Option (V × ℕ)). IsTended x.0 in
            rw (resume_warm, e)
              (if-either P (not world.healthy) t (
                if-either P (not (reusable c world.status world.now w.lease)) t
                  (not_idle-IsTended _ refl)))
      ]
  perform-IsTended invalidating world w t = not_idle-IsTended (invalidate blank w) refl

  passed_over :
      (before : List ℕ) (g : ℕ) (after : List ℕ) (w : Warm V)
      → w.callbacks ≡ before ++ g ∷ after
      → IsTended w
      → (w.lease.idle ≡ true → g ≢ w.generation)
      → IsTended (record w { callbacks = before ++ after })
  passed_over before g after w here t other = record {
    timed = t.timed;
    remembered = t.remembered;
    tended = λ i. elim (t.tended i) [
      | inl armed ↦ inl armed
      | inr h ↦ inr (
          other-Has w.generation g before after (λ e. other i (sym e))
            (subst (Has w.generation) here h))
    ];
  }

  expire_warm-IsTended :
      (before : List ℕ) (g : ℕ) (after : List ℕ) (now : ℕ) (w : Warm V)
      → w.callbacks ≡ before ++ g ∷ after
      → IsTended w
      → IsTended (record (expire_warm blank g now w).0 { callbacks = before ++ after })
  unfolding expire_warm invalidate
  expire_warm-IsTended before g after now w here t =
      let P = λ (x : Warm V × Bool). IsTended (record x.0 { callbacks = before ++ after }) in
      if-known P (not (g == w.generation) || not w.lease.idle)
        (λ passed. passed_over before g after w here t (λ i same. ground (arith, passed, i, same)))
        (λ due.
          let same : g ≡ w.generation = ground (arith, due) in
          if-known P (not (remaining now w.lease == 0))
            (λ early. record {
              timed = t.timed;
              remembered = t.remembered;
              tended = λ i. inl (ap some same);
            })
            (λ late. not_idle-IsTended _ refl))

  fire-IsTended : (w : Warm V) → IsTended w → IsTended (fire blank w)
  fire-IsTended w t = go w.timer refl
    where
      go :
          (o : Option ℕ)
          → w.timer ≡ o
          → IsTended (elim o [
            | none ↦ w
            | some g ↦ record w { timer = none; callbacks = g ∷ w.callbacks }
          ])
      go none e = t
      go (some g) e = record {
        timed = t.timed;
        remembered = t.remembered;
        tended = λ i. elim (t.tended i) [
          | inl armed ↦ inr (inl (some-injective w.generation g (sym armed ∙ e)))
          | inr h ↦ inr (inr h)
        ];
      }

  Step-IsTended : (w w' : Warm V) → Step w w' → IsTended w → IsTended w'
  Step-IsTended w _ (performs op world _) t = perform-IsTended op world w t
  Step-IsTended w _ (fires _) t = fire-IsTended w t
  Step-IsTended w _ (expires before g after now _ here) t =
      expire_warm-IsTended before g after now w here t

  pub Reach-IsTended : (w : Warm V) → Reach w → IsTended w
  Reach-IsTended _ begins = not_idle-IsTended initial refl
  Reach-IsTended w' (goes w _ r step) = Step-IsTended w w' step (Reach-IsTended w r)
