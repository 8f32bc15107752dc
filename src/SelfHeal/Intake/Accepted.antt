-- ===== src/SelfHeal/Intake/Accepted.antt =====
-- What the queue of internal/selfheal/engine.go accepts, and what becomes of it.
use navo.Base.{◌<◌, ◌≡◌, refl, true, false, some, String, List, [], ◌∷◌, arith, length}
use navo.Base.Int.{pos_part}
use navo.Base.Dict.{lookup}
use navo.SelfHeal.Event.{ErrorEvent}
use navo.SelfHeal.Intake.{Engine, start, stop, request_stop, finish_stop, send, take}

module _ (digest : String → String) where
  abbrev stopped : Engine → Engine
  stopped e = record e { started = false; stopping = true; queue = []; pending = [] }

  stop_lem : (e : Engine) → e.started ≡ true → e.stopping ≡ false → stop e ≡ stopped e
  unfolding stop request_stop finish_stop
  stop_lem e running going = rw (running, going) refl

  send-stopped :
      (event : ErrorEvent) (e : Engine)
      → 0 < pos_part e.cfg.queue_size
      → (send digest event (stopped e)).0 ≡ record (stopped e) { queue = event ∷ [] }
  unfolding send length
  send-stopped event e room = ground arith

  start-stopped :
      (queue : List ErrorEvent) (e : Engine)
      → e.cfg.enabled ≡ true
      → (start (record (stopped e) { queue = queue })).0
        ≡ record (stopped e) { queue = queue; started = true; stopping = false }
  unfolding start
  start-stopped queue e on = rw on refl

  -- A Submit that Stop overtakes between its two halves leaves its event in the queue that Stop has made,
  -- so an engine that is enabled processes the event of the last run first when it is started again.
  pub take-send_after_stop :
      (event : ErrorEvent) (e : Engine)
      → e.cfg.enabled ≡ true
      → e.started ≡ true
      → e.stopping ≡ false
      → 0 < pos_part e.cfg.queue_size
      → let restarted = (start (send digest event (stop e)).0).0 in
        take digest restarted ≡ some (event, record restarted { queue = [] })
  unfolding take send stop start lookup
  take-send_after_stop event e on running going room =
      rw (stop_lem e running going)
        (rw (send-stopped event e room) (rw (start-stopped (event ∷ []) e on) refl))
