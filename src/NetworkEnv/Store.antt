-- ===== src/NetworkEnv/Store.antt =====
-- internal/networkenv/store.go: the snapshot that was published last, and when it is too old. cloneSnapshot
-- copies lists, which cannot change here.
use navo.Base.{ℕ, ◌+◌, true, false, ◌||◌, [], ltb, ◌==◌, if◌then◌else◌}
use navo.NetworkEnv.Model.{Snapshot, checking, snapshot_version, stale_after}

-- NewStore, over the zero value of the fields that it does not set.
unfoldable pub new_store : Snapshot → Snapshot
new_store zero = record zero {
  version = snapshot_version;
  health = checking;
  stale = true;
  findings = [];
}

-- Publish
unfoldable pub publish : Snapshot → Snapshot → Snapshot
publish snapshot store = record snapshot {
  version = if snapshot.version == 0 then snapshot_version else snapshot.version;
  stale = false;
}

-- LoadAt. Sub saturates at the longest Duration, which is longer than the limit.
unfoldable pub load_at : ℕ → Snapshot → Snapshot
load_at now store =
    if store.collected_at == 0 || ltb (store.collected_at + stale_after) now
    then record store { stale = true; health = checking }
    else store
