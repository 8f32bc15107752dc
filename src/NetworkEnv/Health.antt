-- ===== src/NetworkEnv/Health.antt =====
-- When internal/networkenv/store.go still vouches for the health of a snapshot.
use navo.Base.{ℕ, ◌+◌, ◌≤◌, ◌<◌, ◌≡◌, ◌⊎◌, true, false, arith}
use navo.NetworkEnv.Model.{Snapshot, checking, stale_after}
use navo.NetworkEnv.Store.{publish, load_at}

-- What Load gives of a snapshot that was published: with a time of collection at most ten seconds ago it is
-- fresh and keeps its health, and otherwise it is stale and its health is `checking`; its findings stay.
pub load_at-publish :
    (now : ℕ) (snapshot store : Snapshot)
    → let r = load_at now (publish snapshot store) in
      (r.findings ≡ snapshot.findings)
      × ((0 < snapshot.collected_at)
            × (now ≤ snapshot.collected_at + stale_after)
            × (r.stale ≡ false)
            × (r.health ≡ snapshot.health)
          ⊎ ((snapshot.collected_at ≡ 0) ⊎ (snapshot.collected_at + stale_after < now))
            × (r.stale ≡ true)
            × (r.health ≡ checking))
unfolding load_at publish
load_at-publish now snapshot store = ground arith
