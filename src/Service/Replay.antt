-- ===== src/Service/Replay.antt =====
-- internal/service/ipc_replay.go: the cache that answers a repeated request id with the first response.
-- Each critical section of execute is a step; a fingerprint is a text, and `none` stands for a response that
-- is still awaited. cloneIPCResponse copies, which cannot be seen here.
pub mod AtMostOnce
use navo.Base.{
  ℕ, String, Bool, true, false, not, Option, none, some, List, [], ◌∷◌, ◌++◌, str_eq, ltb,
  if◌then◌else◌, length,
}
use navo.Base.Dict.{Dict, lookup, insert, delete}

-- serviceIPCReplayLimit
abbrev pub replay_limit : ℕ
replay_limit = 256

pub record ReplayEntry : Type 0 where
  pub fingerprint : String
  pub response : Option String

pub record ReplayCache : Type 0 where
  pub entries : Dict ReplayEntry
  pub completed : List String

pub data Admission : Type 0 where
  runs_handler reuse_refused : Admission
  -- The response of the first request, once there is one.
  replays : Option String → Admission

-- execute, up to the first Unlock.
unfoldable pub admit_request : String → String → ReplayCache → ReplayCache × Admission
admit_request id fingerprint c = elim (lookup id c.entries) [
  | some e ↦
      if not (str_eq e.fingerprint fingerprint) then (c, reuse_refused) else (c, replays e.response)
  | none ↦ (
    record c {
      entries = insert id (record { fingerprint = fingerprint; response = none }) c.entries;
    },
    runs_handler,
  )
]

-- The loop that forgets the oldest ids.
unfoldable pub expire : List String → Dict ReplayEntry → ReplayCache
expire [] entries = record { entries = entries; completed = [] }
expire (id ∷ rest) entries =
    let shorter = expire rest (delete id entries) in
    if ltb replay_limit (length (id ∷ rest))
    then shorter
    else record { entries = entries; completed = id ∷ rest }

-- execute, from the handler's return on, with the entry that it made.
unfoldable pub complete_request : String → ReplayEntry → String → ReplayCache → ReplayCache
complete_request id entry response c =
    expire (c.completed ++ id ∷ [])
      (insert id (record entry { response = some response }) c.entries)
