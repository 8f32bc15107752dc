-- ===== src/SelfHeal/Intake.antt =====
-- internal/selfheal/engine.go: the engine's queue of faults, and the faults that wait in it. Submit
-- works in two steps, since it gives `e.mu` up before it sends, and so does Stop, which gives it up to wait
-- for the worker.
pub mod Accepted
use navo.Base.{
  ℕ, ◌+◌, ◌%◌, ◌^◌, Bool, true, false, not, ◌||◌, Option, none, some, String, List, [], ◌∷◌, ◌++◌,
  ltb, leb, ◌==◌, if◌then◌else◌, length,
}
use navo.Base.Int.{pos_part, neg_part}
use navo.Base.Dict.{Dict, lookup, insert, delete}
use navo.SelfHeal.Event.{ErrorEvent, is_valid, event_key}
use navo.SelfHeal.Registry.{Policy}
use navo.SelfHeal.Engine.{Config}

pub record PendingEvent : Type 0 where
  pub last : ℕ
  pub count : ℕ  -- uint64

pub record Engine : Type 0 where
  pub cfg : Config
  pub policies : Dict Policy
  pub started : Bool
  pub stopping : Bool
  pub pending : Dict PendingEvent
  pub queue : List ErrorEvent

-- Start; the flag is a nil error.
unfoldable pub start : Engine → Engine × Bool
start e =
    if e.started
    then (e, false)
    else if not e.cfg.enabled
    then (e, true)
    else (record e { started = true; stopping = false }, true)

-- Stop's first critical section; the flag tells whether this caller goes on to wait for the worker.
unfoldable pub request_stop : Engine → Engine × Bool
request_stop e =
    if not e.started || e.stopping then (e, false) else (record e { stopping = true }, true)

-- Stop's second critical section, when the worker has ended: what was accepted is thrown away.
unfoldable pub finish_stop : Engine → Engine
finish_stop e = record e { started = false; queue = []; pending = [] }

-- Stop, when nobody comes between its two critical sections.
unfoldable pub stop : Engine → Engine
unfolding request_stop finish_stop
stop e =
    let (stopping, goes_on) = request_stop e in if goes_on then finish_stop stopping else stopping

abbrev stamped : ℕ → ErrorEvent → ErrorEvent
stamped now event = record event {
  occurred_at = if event.occurred_at == 0 then now else event.occurred_at;
  count = if event.count == 0 then 1 else event.count;
}

module _ (digest : String → String) where
  -- Submit's critical section: `false` if the event is refused, `true` with the event that is still to
  -- be sent to the queue, if it was not merged into a pending one.
  unfoldable pub register_pending : ErrorEvent → Engine → Engine × Bool × Option ErrorEvent
  unfolding lookup insert event_key
  register_pending event e =
      let key = (event_key digest event).0 in
      let fresh : PendingEvent = record { last = event.occurred_at; count = event.count } in
      let added : Engine × Bool × Option ErrorEvent =
        (record e { pending = insert key fresh e.pending }, true, some event) in
      if not e.started || e.stopping then (e, false, none) else elim (lookup key e.pending) [
        | none ↦ added
        | some p ↦
            if leb (event.occurred_at + neg_part e.cfg.dedupe_window)
              (p.last + pos_part e.cfg.dedupe_window)
            then (
              record e {
                pending =
                    insert key
                      (record {
                        last = event.occurred_at;
                        count = (p.count + event.count) % 2 ^ 64;
                      })
                      e.pending;
              },
              true,
              none,
            )
            else added
      ]

  -- The send to the queue channel, which has room for QueueSize events.
  unfoldable pub send : ErrorEvent → Engine → Engine × Bool
  unfolding delete event_key
  send event e =
      if ltb (length e.queue) (pos_part e.cfg.queue_size)
      then (record e { queue = e.queue ++ event ∷ [] }, true)
      else (record e { pending = delete (event_key digest event).0 e.pending }, false)

  -- Submit, when nobody comes between its two steps.
  unfoldable pub submit : ErrorEvent → ℕ → Engine → Engine × Bool
  unfolding register_pending send is_valid lookup
  submit event now e =
      if not (is_valid event) || not e.cfg.enabled
      then (e, false)
      else elim (lookup event.code e.policies) [
        | none ↦ (e, false)
        | some policy ↦
            let (e', accepted, rest) = register_pending (stamped now event) e in
            elim rest [ none ↦ (e', accepted) | some ev ↦ send ev e' ]
      ]

  -- One round of run, up to process: the event, with the count of all that were merged into it. The
  -- flag of a stopping engine ends the worker instead.
  unfoldable pub take : Engine → Option (ErrorEvent × Engine)
  unfolding lookup event_key
  take e = elim e.queue [
    | [] ↦ none
    | event ∷ rest ↦
        let merged : ErrorEvent = elim (lookup (event_key digest event).0 e.pending) [
          | none ↦ event
          | some p ↦ record event { count = p.count }
        ] in
        if e.stopping then none else some (merged, record e { queue = rest })
  ]

  -- The end of the round, once process is over.
  unfoldable pub forget : ErrorEvent → Engine → Engine
  unfolding delete event_key
  forget event e = record e { pending = delete (event_key digest event).0 e.pending }
