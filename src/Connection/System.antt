-- ===== src/Connection/System.antt =====
-- The coordinator of internal/connection/coordinator.go among its callers: critical sections in any
-- order, each by some goroutine. `live` holds the granted transactions whose `once` has not run, also
-- one that is still in the channel of a waiter.
use navo.Base.{
  ℕ, ◌+◌, ◌^◌, ◌<◌, String, ◌≡◌, Bool, Option, none, some, List, [], ◌∷◌, get_elem?, remove_at,
}
use navo.Connection.Policy.{Request}
use navo.Connection.Coordinator.{
  Coordinator, Transaction, Waiter, Phase, Entry, granted, new_coordinator, begin, try_begin,
  remove_waiter, set_phase, finish,
}

pub record System : Type 0 where
  pub coordinator : Coordinator
  pub live : List Transaction

unfoldable pub initial : System
unfolding new_coordinator
initial = record { coordinator = new_coordinator; live = [] }

abbrev pub with_entry : Entry → List Transaction → List Transaction
with_entry (granted t) live = t ∷ live
with_entry _ live = live

abbrev pub entered : System → Coordinator × Entry → System
entered s (c, e) = record { coordinator = c; live = with_entry e s.live }

abbrev pub with_grant : Option (Waiter × Transaction) → List Transaction → List Transaction
with_grant none live = live
with_grant (some (w, t)) live = t ∷ live

-- The transaction at place `i` is finished, and the next one, if any, is granted.
abbrev pub finished : System → ℕ → Coordinator × Option (Waiter × Transaction) → System
finished s i (c, grant) = record { coordinator = c; live = with_grant grant (remove_at i s.live) }

-- `finishes` is also what Begin does with a transaction that it was granted while its context ended.
pub data Step (s u : System) : Type 0 where
  begins :
      (has_context : Bool) (now : ℕ) (request : Request)
      → u ≡ entered s (begin has_context now request s.coordinator)
      → Step s u
  tries :
      (now : ℕ) (request : Request) → u ≡ entered s (try_begin now request s.coordinator) → Step s u
  withdraws :
      (ticket : ℕ)
      → u ≡ record s { coordinator = (remove_waiter ticket s.coordinator).0 }
      → Step s u
  sets_phase :
      (t : Option Transaction) (phase : Phase)
      → u ≡ record s { coordinator = (set_phase t phase s.coordinator).0 }
      → Step s u
  finishes :
      (now : ℕ) (result : Option String) (i : ℕ) (t : Transaction)
      → get_elem? s.live i ≡ some t
      → u ≡ finished s i (finish now result (some t) s.coordinator)
      → Step s u

-- A run in which the 64-bit ticket counter does not wrap round.
pub data Reach (s : System) : System → Type 0 where
  here : Reach s s
  next : {t u : System} → Reach s t → t.coordinator.seq + 1 < 2 ^ 64 → Step t u → Reach s u
