-- ===== src/Service/Lease/Expiry.antt =====
-- internal/service/warm_lease.go: the timers of the leases, in any order of the operations and the callbacks.
use navo.Base.{
  ℕ, ◌-◌, ◌≡◌, ◌≤◌, ◌<◌, ◌⊎◌, inl, inr, refl, sym, ap, ◌∙◌, true, false, Option, some, ltb, arith,
  Bool-cases,
}
use navo.Base.Int.{ℤ, pos, leb_ℤ, add_time}
use navo.Service.Lease.{
  Identity, World, Warm, remaining, invalidate, retain_warm, resume_warm, expire_warm,
}
use navo.Service.Lease.Refines.{
  retaining, resuming, LeaseView, nothing, in_use, idle_until, view, promised, perform-promised,
  is_current,
}
use navo.Service.Lease.Timers.{Has, Reach, Reach-IsTended, perform-IsTended}

module _ {V : Type 0} (blank : V) where
  -- In every run an idle lease has a timer or a callback of its generation, and any callback of that generation
  -- that gets captureMu when the lease has come to its end ends it and goes on to stop the core.
  pub Reach-expires :
      (w : Warm V)
      → Reach blank w
      → w.lease.idle ≡ true
      → ((w.timer ≡ some w.generation) ⊎ Has w.generation w.callbacks)
        × ((now : ℕ)
            → w.lease.expires_at ≤ now
            → ((expire_warm blank w.generation now w).1 ≡ true)
              × (view (expire_warm blank w.generation now w).0.lease ≡ nothing))
  unfolding expire_warm invalidate remaining
  Reach-expires w r idle = (
    (Reach-IsTended blank w r).tended idle,
    λ now late. (ground (arith, idle, late), ground (arith, idle, late)),
  )

  -- In every run a callback goes on to stop the core only if the lease is idle and has come to its end; otherwise
  -- it leaves the lease as it is.
  pub Reach-keeps :
      (w : Warm V) (g now : ℕ)
      → Reach blank w
      → ((view (expire_warm blank g now w).0.lease ≡ view w.lease)
          × ((expire_warm blank g now w).1 ≡ false))
        ⊎ ((w.lease.expires_at ≤ now)
            × (view w.lease ≡ idle_until w.lease.identity w.lease.verification w.lease.expires_at))
  unfolding expire_warm remaining
  Reach-keeps w g now r = elim (Bool-cases (expire_warm blank g now w).1) [
    | inl stops ↦
        let idle : w.lease.idle ≡ true = ground (arith, stops) in
        let there = (Reach-IsTended blank w r).remembered idle in
        inr (ground (arith, stops), ground (arith, idle, there))
    | inr goes_on ↦ inl (ground (arith, goes_on), goes_on)
  ]

  -- In every run a lease in use that is retained for a positive time, with a healthy core that is the lease's, is
  -- resumed before that time is over, with a healthy core that is the lease's: the answer is its verification with
  -- the time that was left, and the lease is in use as before.
  pub resume_warm-retain_warm :
      (w : Warm V) (ttl : ℤ) (retained resumed : World) (identity : Identity) (v : V)
      → Reach blank w
      → view w.lease ≡ in_use identity v
      → is_current retained identity ≡ true
      → is_current resumed identity ≡ true
      → leb_ℤ ttl (pos 0) ≡ false
      → resumed.now < add_time retained.now ttl
      → ((resume_warm blank resumed (retain_warm blank ttl retained w).0).1
          ≡ some (v, add_time retained.now ttl - resumed.now))
        × (view (resume_warm blank resumed (retain_warm blank ttl retained w).0).0.lease
            ≡ view w.lease)
  resume_warm-retain_warm w ttl retained resumed identity v r used current1 current2 positive
        early =
      let w1 = (retain_warm blank ttl retained w).0 in
      let end = add_time retained.now ttl in
      let idle = idle_until identity v end in
      let t = Reach-IsTended blank w r in
      let viewed : view w1.lease ≡ idle =
        ap (λ (x : LeaseView V × Option (V × ℕ)). x.0)
          (perform-promised blank (retaining ttl) retained w t.timed)
        ∙ ap (λ (x : LeaseView V). (promised (retaining ttl) retained x).0) used
        ∙ rw (current1, positive) refl in
      let answered =
        perform-promised blank resuming resumed w1
          (perform-IsTended blank (retaining ttl) retained w t).timed
        ∙ ap (λ (x : LeaseView V). promised resuming resumed x) viewed in
      let before : ltb resumed.now end ≡ true = ground (arith, early) in
      (
        ap (λ (x : LeaseView V × Option (V × ℕ)). x.1) answered ∙ rw (current2, before) refl,
        ap (λ (x : LeaseView V × Option (V × ℕ)). x.0) answered ∙ rw (current2, before) (sym used),
      )
