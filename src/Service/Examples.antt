-- ===== src/Service/Examples.antt =====
-- The theorems about the replay cache and the lease, on a cache that answers its first request and on a lease that
-- is retained for 90 and resumed after 50.
use navo.Base.{ℕ, ◌≡◌, ◌≤◌, ◌⊎◌, refl, true, false, some, [], ◌∷◌, arith, length, All}
use navo.Base.Int.{pos}
use navo.Supervisor.State.{running}
use navo.Service.Lease.{
  Identity, same_identity, remember, retain, active_matches, current_identity, active_outbound_id,
  World, Warm, remember_warm, retain_warm, resume_warm, expire_warm,
}
use navo.Service.Lease.Refines.{
  remembering, retaining, resuming, nothing, in_use, idle_until, view, promised, perform,
  perform-promised, IsTimed,
}
use navo.Service.Lease.Timers.{Has, initial, Reach, begins, goes, performs}
use navo.Service.Lease.Expiry.{Reach-expires, Reach-keeps, resume_warm-retain_warm}
use navo.Base.Dict.{lookup}
use navo.Service.Replay.{ReplayCache, replay_limit, admit_request}
use navo.Service.Replay.AtMostOnce.{IsSound, History, IsReplayed, here, admits, Reach-IsReplayed}

abbrev answered_cache : ReplayCache
answered_cache = record {
  entries = ("1", record { fingerprint = "ab"; response = some "ok" }) ∷ [];
  completed = "1" ∷ [];
}

abbrev first_log : History
first_log = ("1", ("ab", "ok")) ∷ []

answered_cache-IsSound : IsSound answered_cache first_log
unfolding lookup
answered_cache-IsSound = record {
  bounded = omega arith;
  differ = (tt, tt);
  answered = (("ab", "ok", refl, refl), tt);
}

abbrev second_request : ReplayCache
second_request = (admit_request "2" "cd" answered_cache).0

Reach-IsReplayed_example :
    (length second_request.completed ≤ replay_limit)
    × All (IsReplayed second_request first_log) second_request.completed
Reach-IsReplayed_example =
    Reach-IsReplayed answered_cache first_log second_request first_log (admits "2" "cd" here refl)
      answered_cache-IsSound

abbrev small_world : World
small_world = record {
  status = record { state = running; pid = 7; config_hash = "h" };
  runtime = record {
    core_id = "sing-box";
    selected_outbound = "n1";
    active_outbound = "n1";
    revision_id = "r1";
    revision_status = "active";
    config_hash = "c";
    config_path = "core.json";
    tun_enabled = false;
  };
  healthy = true;
  now = 100;
}

abbrev small_identity : Identity
small_identity = record {
  core_id = "sing-box";
  selected_outbound = "n1";
  revision_id = "r1";
  config_hash = "c";
  config_path = "core.json";
  host_config_hash = "h";
  pid = 7;
}

abbrev later : World
later = record small_world { now = 150 }

abbrev used_warm : Warm ℕ
used_warm = (perform 0 (remembering 5) small_world (initial 0)).0

abbrev idle_warm : Warm ℕ
idle_warm = (perform 0 (retaining (pos 90)) small_world used_warm).0

used_warm-Reach : Reach 0 used_warm
used_warm-Reach =
    goes (initial 0) used_warm begins (performs (remembering 5) small_world (initial 0))

idle_warm-Reach : Reach 0 idle_warm
idle_warm-Reach =
    goes used_warm idle_warm used_warm-Reach (performs (retaining (pos 90)) small_world used_warm)

idle_warm-idle : idle_warm.lease.idle ≡ true
unfolding remember_warm retain_warm retain remember current_identity active_outbound_id
    active_matches same_identity
idle_warm-idle = refl

idle_warm-IsTimed : IsTimed idle_warm.lease
unfolding remember_warm retain_warm retain remember current_identity active_outbound_id
    active_matches same_identity
idle_warm-IsTimed = λ idle end. absurd (ground (arith, end))

used_warm-view : view used_warm.lease ≡ in_use small_identity 5
unfolding remember_warm remember current_identity active_outbound_id
used_warm-view = refl

perform-promised_example :
    (view (perform 0 resuming later idle_warm).0.lease, (perform 0 resuming later idle_warm).1)
    ≡ promised resuming later (view idle_warm.lease)
perform-promised_example = perform-promised 0 resuming later idle_warm idle_warm-IsTimed

Reach-expires_example :
    ((idle_warm.timer ≡ some idle_warm.generation) ⊎ Has idle_warm.generation idle_warm.callbacks)
    × ((now : ℕ)
        → idle_warm.lease.expires_at ≤ now
        → ((expire_warm 0 idle_warm.generation now idle_warm).1 ≡ true)
          × (view (expire_warm 0 idle_warm.generation now idle_warm).0.lease ≡ nothing))
Reach-expires_example = Reach-expires 0 idle_warm idle_warm-Reach idle_warm-idle

Reach-keeps_example :
    ((view (expire_warm 0 2 150 idle_warm).0.lease ≡ view idle_warm.lease)
      × ((expire_warm 0 2 150 idle_warm).1 ≡ false))
    ⊎ ((idle_warm.lease.expires_at ≤ 150)
        × (view idle_warm.lease
            ≡ idle_until idle_warm.lease.identity idle_warm.lease.verification
                idle_warm.lease.expires_at))
Reach-keeps_example = Reach-keeps 0 idle_warm 2 150 idle_warm-Reach

resume_warm-retain_warm_example :
    ((resume_warm 0 later (retain_warm 0 (pos 90) small_world used_warm).0).1 ≡ some (5, 40))
    × (view (resume_warm 0 later (retain_warm 0 (pos 90) small_world used_warm).0).0.lease
        ≡ view used_warm.lease)
unfolding current_identity active_outbound_id same_identity
resume_warm-retain_warm_example =
    resume_warm-retain_warm 0 used_warm (pos 90) small_world later small_identity 5 used_warm-Reach
      used_warm-view refl refl refl (omega arith)
