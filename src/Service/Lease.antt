-- ===== src/Service/Lease.antt =====
-- internal/service/warm_lease.go: a core that is kept running for a while after the system proxy is switched off.
-- Every operation holds captureMu, so each is one step. Process ids are not negative; the zero time is 0.

pub mod Refines
pub mod Timers
pub mod Expiry
use navo.Base.{
  ℕ, ◌+◌, ◌-◌, ◌%◌, ◌^◌, String, Bool, true, false, not, ◌&&◌, ◌||◌, Option, none, some, List, [],
  ◌∷◌, str_eq, ltb, ◌==◌, if◌then◌else◌,
}
use navo.Base.Int.{ℤ, pos, leb_ℤ, add_time}
use navo.Supervisor.State.{State, state_code, running}

-- systemProxyWarmIdentity
pub record Identity : Type 0 where
  pub core_id : String
  pub selected_outbound : String
  pub revision_id : String
  pub config_hash : String
  pub config_path : String
  pub host_config_hash : String
  pub pid : ℕ

abbrev pub no_identity : Identity
no_identity = record {
  core_id = "";
  selected_outbound = "";
  revision_id = "";
  config_hash = "";
  config_path = "";
  host_config_hash = "";
  pid = 0;
}

-- `==` on two identities.
unfoldable pub same_identity : Identity → Identity → Bool
same_identity a b =
    str_eq a.core_id b.core_id
    && str_eq a.selected_outbound b.selected_outbound
    && str_eq a.revision_id b.revision_id
    && str_eq a.config_hash b.config_hash
    && str_eq a.config_path b.config_path
    && str_eq a.host_config_hash b.host_config_hash
    && a.pid == b.pid

-- What a lease reads of the supervisor's status.
pub record Status : Type 0 where
  pub state : State
  pub pid : ℕ
  pub config_hash : String

abbrev pub is_running : State → Bool
is_running state = state_code state == state_code running

-- systemProxyWarmLease, over the type of the verifications.
pub record Lease (V : Type 0) : Type 0 where
  pub identity : Identity
  pub verification : V
  pub remembered : Bool
  pub idle : Bool
  pub expires_at : ℕ

module _ {V : Type 0} where
  unfoldable pub remember : Identity → V → Lease V → Lease V
  remember identity verification l = record {
    identity = identity;
    verification = verification;
    remembered = true;
    idle = false;
    expires_at = 0;
  }

  unfoldable pub retain : ℕ → ℤ → Lease V → Lease V × Bool
  retain now ttl l =
      if not l.remembered || leb_ℤ ttl (pos 0)
      then (l, false)
      else (record l { idle = true; expires_at = add_time now ttl }, true)

  unfoldable pub reusable : Identity → Status → ℕ → Lease V → Bool
  reusable identity status now l =
      if not l.remembered || not l.idle || l.expires_at == 0 || not (ltb now l.expires_at)
      then false
      else if not (is_running status.state) || status.pid == 0 || not (status.pid == l.identity.pid)
      then false
      else same_identity identity l.identity

  unfoldable pub active_matches : Identity → Status → Lease V → Bool
  active_matches identity status l =
      if not l.remembered || l.idle || not (is_running status.state) || status.pid == 0
      then false
      else status.pid == l.identity.pid && same_identity identity l.identity

  -- activate
  abbrev pub activate_lease : Lease V → Lease V
  activate_lease l = record l { idle = false; expires_at = 0 }

  unfoldable pub remaining : ℕ → Lease V → ℕ
  remaining now l =
      if not l.idle || l.expires_at == 0 || not (ltb now l.expires_at)
      then 0
      else l.expires_at - now

-- What is read of the runtime's state and the configuration.
pub record Runtime : Type 0 where
  pub core_id : String
  pub selected_outbound : String
  pub active_outbound : String
  pub revision_id : String
  pub revision_status : String
  pub config_hash : String
  pub config_path : String
  pub tun_enabled : Bool

unfoldable pub active_outbound_id : Runtime → String
active_outbound_id r =
    if not (str_eq r.active_outbound "")
    then r.active_outbound
    else if not (str_eq r.revision_status "candidate")
    then r.selected_outbound
    else ""

-- currentSystemProxyWarmIdentity, of a service that has a supervisor.
unfoldable pub current_identity : Status → Runtime → Option Identity
current_identity status r =
    if not (is_running status.state)
      || status.pid == 0
      || r.tun_enabled
      || not (str_eq r.revision_status "active")
      || str_eq r.revision_id ""
      || str_eq r.config_hash ""
      || str_eq r.config_path ""
      || not (str_eq (active_outbound_id r) r.selected_outbound)
    then none
    else some (record {
      core_id = r.core_id;
      selected_outbound = r.selected_outbound;
      revision_id = r.revision_id;
      config_hash = r.config_hash;
      config_path = r.config_path;
      host_config_hash = status.config_hash;
      pid = status.pid;
    })

-- What an operation sees: the supervisor, the runtime, the answer of the core's health check and the clock.
pub record World : Type 0 where
  pub status : Status
  pub runtime : Runtime
  pub healthy : Bool
  pub now : ℕ

-- The service's part in the lease. `timer` is the generation of the timer that is armed, `callbacks` are
-- those of the callbacks that have fired, and `warm_idle` is the supervisor's flag.
pub record Warm (V : Type 0) : Type 0 where
  pub lease : Lease V
  pub generation : ℕ
  pub timer : Option ℕ
  pub callbacks : List ℕ
  pub warm_idle : Bool

-- A uint64 that goes up by one.
abbrev pub next_generation : ℕ → ℕ
next_generation g = (g + 1) % 2 ^ 64

module _ {V : Type 0} (blank : V) where
  abbrev pub no_lease : Lease V
  no_lease = record {
    identity = no_identity;
    verification = blank;
    remembered = false;
    idle = false;
    expires_at = 0;
  }

  -- invalidateSystemProxyWarmLocked
  unfoldable pub invalidate : Warm V → Warm V
  invalidate w = record w {
    lease = no_lease;
    generation = next_generation w.generation;
    timer = none;
    warm_idle = false;
  }

  -- rememberSystemProxyWarmLocked
  unfoldable pub remember_warm : World → V → Warm V → Warm V
  remember_warm world verification w = elim (current_identity world.status world.runtime) [
    | none ↦ invalidate w
    | some identity ↦ record w {
      lease = remember identity verification w.lease;
      generation = next_generation w.generation;
      timer = none;
    }
  ]

  -- retainSystemProxyWarmLocked
  unfoldable pub retain_warm : ℤ → World → Warm V → Warm V × Option (V × ℕ)
  retain_warm ttl world w =
      let (lease, retained) = retain world.now ttl w.lease in
      let generation = next_generation w.generation in
      if leb_ℤ ttl (pos 0) then (w, none) else elim (current_identity world.status world.runtime) [
        | none ↦ (w, none)
        | some identity ↦
            if not world.healthy
            then (w, none)
            else if not (active_matches identity world.status w.lease)
            then (w, none)
            else if not retained
            then (w, none)
            else (
              record w {
                lease = lease;
                generation = generation;
                timer = some generation;
                warm_idle = is_running world.status.state;
              },
              some (lease.verification, lease.expires_at),
            )
      ]

  -- resumeSystemProxyWarmLocked
  unfoldable pub resume_warm : World → Warm V → Warm V × Option (V × ℕ)
  resume_warm world w = elim (current_identity world.status world.runtime) [
    | none ↦ (w, none)
    | some identity ↦
        if not world.healthy
        then (w, none)
        else if not (reusable identity world.status world.now w.lease)
        then (w, none)
        else (
          record w {
            lease = activate_lease w.lease;
            generation = next_generation w.generation;
            timer = none;
            warm_idle = false;
          },
          some (w.lease.verification, remaining world.now w.lease),
        )
  ]

  -- The timer fires: from then on it cannot be stopped.
  abbrev pub fire : Warm V → Warm V
  fire w = elim w.timer [
    | none ↦ w
    | some g ↦ record w { timer = none; callbacks = g ∷ w.callbacks }
  ]

  -- expireSystemProxyWarm of a callback that has got captureMu, and whether it goes on to stop the core.
  -- One that has not got it tries again with the same generation, 25 milliseconds later.
  unfoldable pub expire_warm : ℕ → ℕ → Warm V → Warm V × Bool
  expire_warm generation now w =
      if not (generation == w.generation) || not w.lease.idle
      then (w, false)
      else if not (remaining now w.lease == 0)
      then (record w { timer = some generation }, false)
      else (invalidate w, true)
