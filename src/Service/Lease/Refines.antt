-- ===== src/Service/Lease/Refines.antt =====
-- internal/service/warm_lease.go against what a lease is for: a core that was verified is used, then idle until a
-- time, and nobody is told of a verification that was not made for what is running now.
use navo.Base.{
  ℕ, ◌-◌, ◌≡◌, ◌≢◌, inl, inr, refl, sym, ap, Bool, true, false, not, ◌&&◌, Option, none, some,
  some-injective, ltb, ◌==◌, if◌then◌else◌, arith, Option-cases,
}
use navo.Base.Int.{ℤ, pos, leb_ℤ, add_time}
use navo.Service.Lease.{
  Identity, same_identity, Status, is_running, Lease, remember, retain, reusable, active_matches,
  remaining, Runtime, current_identity, World, Warm, invalidate, remember_warm, retain_warm,
  resume_warm,
}

-- What a lease stands for.
pub data LeaseView (V : Type 0) : Type 0 where
  nothing : LeaseView V
  in_use : Identity → V → LeaseView V
  idle_until : Identity → V → ℕ → LeaseView V

-- The core that runs now is healthy and is the one that the identity names.
abbrev pub is_current : World → Identity → Bool
is_current world identity = world.healthy && elim (current_identity world.status world.runtime) [
  | none ↦ false
  | some current ↦ same_identity current identity
]

pub data Operation (V : Type 0) : Type 0 where
  remembering : V → Operation V
  retaining : ℤ → Operation V
  resuming invalidating : Operation V

module _ {V : Type 0} where
  abbrev pub view : Lease V → LeaseView V
  view l =
      if not l.remembered
      then nothing
      else if l.idle
      then idle_until l.identity l.verification l.expires_at
      else in_use l.identity l.verification

  -- What each operation promises.
  abbrev pub promised : Operation V → World → LeaseView V → LeaseView V × Option (V × ℕ)
  promised (remembering v) world x = elim (current_identity world.status world.runtime) [
    | none ↦ (nothing, none)
    | some identity ↦ (in_use identity v, none)
  ]
  promised (retaining ttl) world (in_use identity v) =
      if is_current world identity && not (leb_ℤ ttl (pos 0))
      then (idle_until identity v (add_time world.now ttl), some (v, add_time world.now ttl))
      else (in_use identity v, none)
  promised (retaining ttl) world x = (x, none)
  promised resuming world (idle_until identity v end) =
      if is_current world identity && ltb world.now end
      then (in_use identity v, some (v, end - world.now))
      else (idle_until identity v end, none)
  promised resuming world x = (x, none)
  promised invalidating world x = (nothing, none)

  -- What the code does.
  abbrev pub perform : V → Operation V → World → Warm V → Warm V × Option (V × ℕ)
  perform blank (remembering v) world w = (remember_warm blank world v w, none)
  perform blank (retaining ttl) world w = retain_warm blank ttl world w
  perform blank resuming world w = resume_warm blank world w
  perform blank invalidating world w = (invalidate blank w, none)

same_identity-pid : (a b : Identity) → same_identity a b ≡ true → a.pid ≡ b.pid
unfolding same_identity
same_identity-pid a b h = ground (arith, h)

guarded :
    {A : Type 0} (b : Bool) (x c : A)
    → (if b then none else some x) ≡ some c
    → (b ≡ false) × (x ≡ c)
guarded true x c h = absurd (ground (arith, h))
guarded false x c h = (refl, some-injective x c h)

current_identity-runs :
    (status : Status) (r : Runtime) (c : Identity)
    → current_identity status r ≡ some c
    → (is_running status.state ≡ true) × (status.pid ≢ 0) × (c.pid ≡ status.pid)
unfolding current_identity
current_identity-runs status r c h =
    let (open_to, same) = guarded _ _ c h in
    let pid : c.pid ≡ status.pid = sym (ap Identity.pid same) in
    (ground (arith, open_to), ground (arith, open_to), pid)

-- A core that is current passes the tests of its process in `reusable` and `activeMatches`.
module _ {V : Type 0} where
  reusable_lem :
      (world : World) (c : Identity) (l : Lease V)
      → current_identity world.status world.runtime ≡ some c
      → reusable c world.status world.now l ≡ (
          l.remembered
          && l.idle
          && not (l.expires_at == 0)
          && ltb world.now l.expires_at
          && same_identity c l.identity)
  unfolding reusable
  reusable_lem world c l e =
      let (runs, pid, same) = current_identity-runs world.status world.runtime c e in
      ground (arith, runs, pid, same, same_identity-pid c l.identity)

  active_matches_lem :
      (world : World) (c : Identity) (l : Lease V)
      → current_identity world.status world.runtime ≡ some c
      → active_matches c world.status l ≡ (l.remembered && not l.idle && same_identity c l.identity)
  unfolding active_matches
  active_matches_lem world c l e =
      let (runs, pid, same) = current_identity-runs world.status world.runtime c e in
      ground (arith, runs, pid, same, same_identity-pid c l.identity)

  -- An idle lease has an end.
  abbrev pub IsTimed : Lease V → Type 0
  IsTimed l = l.idle ≡ true → l.expires_at ≢ 0

  resume_warm-promised :
      (blank : V) (world : World) (w : Warm V)
      → IsTimed w.lease
      → (view (perform blank resuming world w).0.lease, (perform blank resuming world w).1)
        ≡ promised resuming world (view w.lease)
  unfolding resume_warm remaining
  resume_warm-promised blank world w timed =
      elim (Option-cases (current_identity world.status world.runtime)) [
        | inl e ↦ ground (arith, e)
        | inr (c, e) ↦ ground (arith, e, reusable_lem world c w.lease e, timed)
      ]

  retain_warm-promised :
      (blank : V) (ttl : ℤ) (world : World) (w : Warm V)
      → (
        view (perform blank (retaining ttl) world w).0.lease,
        (perform blank (retaining ttl) world w).1,
      )
        ≡ promised (retaining ttl) world (view w.lease)
  unfolding retain_warm retain
  retain_warm-promised blank ttl world w =
      elim (Option-cases (current_identity world.status world.runtime)) [
        | inl e ↦ ground (arith, e)
        | inr (c, e) ↦ ground (arith, e, active_matches_lem world c w.lease e)
      ]

  -- Each operation leaves the lease and answers as its promise says, from every lease that has an end if it is idle.
  pub perform-promised :
      (blank : V) (op : Operation V) (world : World) (w : Warm V)
      → IsTimed w.lease
      → (view (perform blank op world w).0.lease, (perform blank op world w).1)
        ≡ promised op world (view w.lease)
  unfolding remember_warm invalidate remember
  perform-promised blank (remembering v) world w timed =
      elim (Option-cases (current_identity world.status world.runtime)) [
        | inl e ↦ ground (arith, e)
        | inr (c, e) ↦ ground (arith, e)
      ]
  perform-promised blank (retaining ttl) world w timed = retain_warm-promised blank ttl world w
  perform-promised blank resuming world w timed = resume_warm-promised blank world w timed
  perform-promised blank invalidating world w timed = refl
