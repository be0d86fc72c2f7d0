-- ===== src/Blocking/Actor/Delivery.antt =====
-- No event is lost while the flushes succeed, and a failed transaction loses all that was buffered.
pub mod Lost
use digital_wellbeing.Common.{
  ℕ, ◌<◌, ◌≤◌, ◌≡◌, refl, ◌∙◌, true, false, leb, some, List, [], ◌∷◌, ◌++◌, length, append_assoc,
  append-nil, arith, inl, inr, Bool-cases, Option-cases,
}
use digital_wellbeing.Blocking.Actor.{Services, Actor, AppCache}
use digital_wellbeing.Blocking.Actor.Evaluate.{
  policies_for, app_id_of, decide, evaluate_single_app, evaluate_and_apply,
}
use digital_wellbeing.Blocking.Actor.Flush.{flush_buffer}
use digital_wellbeing.Blocking.Actor.Handlers.{
  handle_event, buffer_event, should_evaluate, evaluate_event, flush_if_long,
}
use digital_wellbeing.Blocking.Buffer.{len, drain}
use digital_wellbeing.Blocking.Buffer.Fifo.{push_room}
use digital_wellbeing.Platform.{PlatformEvent, TimedEvent, event_app_class, event_uid}
use digital_wellbeing.Policy.{Policy}
use digital_wellbeing.Values.AppClass.{AppClass}
use digital_wellbeing.Values.Blocked.{Uid}
use digital_wellbeing.Values.DateTime.{DateTime}

-- The events on record: committed first, then those in the buffer.
abbrev pub on_record : {Proxy : Type 0} → Actor Proxy → List TimedEvent
on_record a = a.persisted ++ a.event_buffer.events

-- The database answers: the lookup finds users and the transaction commits.
pub record Commits {Proxy : Type 0} (s : Services Proxy) : Type 0 where
  pub open_uids : List Uid
  pub lookup : s.uids_with_open_intervals ≡ some open_uids
  pub commits :
      (events : List TimedEvent) (us : List Uid) (now : DateTime) (cache : AppCache)
      → (s.flush_with_deltas events us now cache).0 ≡ true

-- Between two events the buffer is short of the flush threshold, and holds 100 events at least.
pub record IsShort {Proxy : Type 0} (a : Actor Proxy) : Type 0 where
  pub short : length a.event_buffer.events < 100
  pub room : 100 ≤ a.event_buffer.max_capacity

module _ {Proxy : Type 0} (s : Services Proxy) where
  abbrev Keeps : Actor Proxy → Actor Proxy → Type 0
  Keeps a b = (b.event_buffer ≡ a.event_buffer) × (b.persisted ≡ a.persisted)

  app_id_of-Keeps : (app : AppClass) (a : Actor Proxy) → Keeps a (app_id_of s app a).1
  unfolding app_id_of
  app_id_of-Keeps app a = ground arith

  decide-Keeps :
      (id : ℕ) (ps : List Policy) (uid : Uid) (app : AppClass) (now : DateTime) (a : Actor Proxy)
      → Keeps a (decide s id ps uid app now a).1
  unfolding decide
  decide-Keeps id [] uid app now a = (refl, refl)
  decide-Keeps id (p ∷ ps) uid app now a = (refl, refl)

  evaluate_single_app-Keeps :
      (uid : Uid) (app : AppClass) (now : DateTime) (a : Actor Proxy)
      → Keeps a (evaluate_single_app s uid app now a).1
  unfolding evaluate_single_app
  evaluate_single_app-Keeps uid app now a = elim (Option-cases (app_id_of s app a).0) [
    | inl gone ↦ rw (gone, evaluate_single_app) (app_id_of-Keeps app a)
    | inr (id, found) ↦
        let (same, also) =
          decide-Keeps id (policies_for s id app uid) uid app now (app_id_of s app a).1 in
        let (same', also') = app_id_of-Keeps app a in
        rw (found, evaluate_single_app) (same ∙ same', also ∙ also')
  ]

  evaluate_and_apply-Keeps :
      (uid : Uid) (app : AppClass) (now : DateTime) (a : Actor Proxy)
      → Keeps a (evaluate_and_apply s uid app now a)
  unfolding evaluate_and_apply
  evaluate_and_apply-Keeps uid app now a = evaluate_single_app-Keeps uid app now a

  evaluate_event-Keeps :
      (event : PlatformEvent) (a : Actor Proxy) → Keeps a (evaluate_event s event a)
  unfolding evaluate_event
  evaluate_event-Keeps event a = elim (Bool-cases (should_evaluate event)) [
    | inl seen ↦ elim (Option-cases (event_app_class event)) [
      | inl desktop ↦ rw (seen, evaluate_event) (rw desktop (refl, refl))
      | inr (app, named) ↦
          rw (seen, evaluate_event)
            (rw named (evaluate_and_apply-Keeps (event_uid event) app (s.clock 1) a))
    ]
    | inr ignored ↦ rw ignored (refl, refl)
  ]

  -- A flush that commits leaves nothing in the buffer and nothing off the record.
  flush_buffer-Commits :
      (now : DateTime) (a : Actor Proxy)
      → Commits s
      → ((flush_buffer s now a).1.event_buffer.events ≡ [])
        × ((flush_buffer s now a).1.event_buffer.max_capacity ≡ a.event_buffer.max_capacity)
        × (on_record (flush_buffer s now a).1 ≡ on_record a)
  unfolding flush_buffer drain
  flush_buffer-Commits now a c =
      rw (c.lookup, flush_buffer) (refl, refl, rw (c.commits) (append-nil _))

  -- The event as it is buffered, with the first reading of the clock.
  abbrev pub timed : PlatformEvent → TimedEvent
  timed event = record { event = event; timestamp = (s.clock 0).millis }

  evaluate_event-buffer_event :
      (event : PlatformEvent) (a : Actor Proxy)
      → IsShort a
      → let b = evaluate_event s event (buffer_event s event 0 a) in
        (on_record b ≡ on_record a ++ timed event ∷ []) × (100 ≤ b.event_buffer.max_capacity)
  unfolding buffer_event
  evaluate_event-buffer_event event a h =
      let full : leb a.event_buffer.max_capacity (length a.event_buffer.events) ≡ false =
        let p = h.short in let q = h.room in ground arith in
      let (same, also) = evaluate_event-Keeps event (buffer_event s event 0 a) in
      let buffer = same ∙ push_room (timed event) a.event_buffer full in
      (rw (also, buffer, append_assoc), rw buffer h.room)

  -- The end of the handler, for a buffer that grew by one event.
  flush_if_long-Commits :
      (a : Actor Proxy)
      → Commits s
      → 100 ≤ a.event_buffer.max_capacity
      → (on_record (flush_if_long s a) ≡ on_record a) × IsShort (flush_if_long s a)
  unfolding flush_if_long len
  flush_if_long-Commits a c room = elim (Bool-cases (leb 100 (length a.event_buffer.events))) [
    | inl long ↦
        let (empty, same, kept) = flush_buffer-Commits (s.clock 2) a c in
        rw (long) (kept, record { short = rw empty (omega arith); room = rw same room })
    | inr short ↦ rw short (refl, record { short = ground arith; room = room })
  ]

  -- If the database commits, and the buffer holds fewer than 100 events and has room for 100 at
  -- least, handling a platform event puts that event, with the time of its handling, at the end of
  -- the record, changes nothing else of the record, and leaves the buffer again with fewer than 100
  -- events and with room for 100 at least.
  pub handle_event-on_record :
      (event : PlatformEvent) (a : Actor Proxy)
      → Commits s
      → IsShort a
      → (on_record (handle_event s event a) ≡ on_record a ++ timed event ∷ [])
        × IsShort (handle_event s event a)
  unfolding handle_event
  handle_event-on_record event a c h =
      let (grown, room) = evaluate_event-buffer_event event a h in
      let b : Actor Proxy = evaluate_event s event (buffer_event s event 0 a) in
      let (kept, short) = flush_if_long-Commits b c room in (kept ∙ grown, short)
