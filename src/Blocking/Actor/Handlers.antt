-- ===== src/Blocking/Actor/Handlers.antt =====
-- `handle_event` of crates/daemon/src/blocking/core/handlers.rs, and `handle_internal_event` and the
-- loop of `run` of crates/daemon/src/blocking/core/mod.rs. The interleaving that `select!` chooses
-- is a list of inputs, each with the answers that the outside gives while it is handled.
use digital_wellbeing.Common.{
  ℕ, suc, Bool, true, false, leb, if◌then◌else◌, none, some, List, [], ◌∷◌, ◌++◌,
}
use digital_wellbeing.Blocking.Actor.{Services, Actor}
use digital_wellbeing.Blocking.Actor.Evaluate.{
  evaluate_and_apply, evaluate_and_enforce, handle_policy_mutation,
}
use digital_wellbeing.Blocking.Actor.Flush.{flush_buffer, maybe_midnight_reset}
use digital_wellbeing.Blocking.Buffer.{push, len, uids, distinct}
use digital_wellbeing.Platform.{PlatformEvent, PowerEventKind, event_uid, event_app_class}
use digital_wellbeing.Platform.Registry.{registered_uids}
use digital_wellbeing.Values.Blocked.{Uid}

-- The flag of `flush` and `shutdown` is whether an acknowledgement is awaited.
pub data InternalEvent : Type 0 where
  flush shutdown : Bool → InternalEvent
  policy_changed : Uid → InternalEvent

-- `matches!(event, Focus { .. } | Block { .. })`
unfoldable pub should_evaluate : PlatformEvent → Bool
should_evaluate (PlatformEvent.focus _ _ _) = true
should_evaluate (PlatformEvent.block _ _ _) = true
should_evaluate _ = false

module _ {Proxy : Type 0} (s : Services Proxy) where
  -- The event with the time of its handling, into the buffer.
  unfoldable pub buffer_event : PlatformEvent → ℕ → Actor Proxy → Actor Proxy
  buffer_event event reading a = record a {
    event_buffer = push event (s.clock reading).millis a.event_buffer;
  }

  unfoldable pub evaluate_event : PlatformEvent → Actor Proxy → Actor Proxy
  evaluate_event event a =
      if should_evaluate event
      then elim (event_app_class event) [
        | some app ↦ evaluate_and_apply s (event_uid event) app (s.clock 1) a
        | none ↦ a
      ]
      else a

  unfoldable pub flush_if_long : Actor Proxy → Actor Proxy
  flush_if_long a = if leb 100 (len a.event_buffer) then (flush_buffer s (s.clock 2) a).1 else a

  unfoldable pub handle_event : PlatformEvent → Actor Proxy → Actor Proxy
  handle_event event a = flush_if_long (evaluate_event event (buffer_event event 0 a))

  abbrev acknowledge : Bool → Actor Proxy → Actor Proxy
  acknowledge ack a = if ack then record a { acks = suc a.acks } else a

  -- A shutdown event for each user of the list, each with a reading of its own.
  unfoldable pub push_shutdowns : ℕ → List Uid → Actor Proxy → Actor Proxy
  push_shutdowns reading [] a = a
  push_shutdowns reading (uid ∷ us) a =
      push_shutdowns (suc reading) us
        (buffer_event (PlatformEvent.power_event PowerEventKind.shutdown uid) reading a)

  -- The users that a shutdown is recorded for; a failed lookup leaves the database's users out.
  unfoldable pub shutdown_uids : Actor Proxy → List Uid
  shutdown_uids a = distinct [] (
      registered_uids a.registry
      ++ uids a.event_buffer
      ++ elim s.uids_with_open_intervals [ some db_uids ↦ db_uids | none ↦ [] ])

  -- The evaluation on the minute's tick, if the flush went well.
  unfoldable pub flush_tick : Actor Proxy → Actor Proxy
  flush_tick a =
      let (flushed, a') = flush_buffer s (s.clock 0) a in
      if flushed then evaluate_and_enforce s (s.clock 1) a' else a'

  unfoldable pub handle_internal_event : InternalEvent → Actor Proxy → Actor Proxy
  handle_internal_event (flush ack) a = acknowledge ack (maybe_midnight_reset s (flush_tick a))
  handle_internal_event (shutdown ack) a =
      acknowledge ack (flush_buffer s (s.clock 1) (push_shutdowns 2 (shutdown_uids a) a)).1
  handle_internal_event (policy_changed owner_id) a =
      handle_policy_mutation s owner_id (s.clock 0) a

pub data Input : Type 0 where
  platform : PlatformEvent → Input
  internal : InternalEvent → Input

unfoldable pub handle : {Proxy : Type 0} → Services Proxy → Input → Actor Proxy → Actor Proxy
handle s (platform event) a = handle_event s event a
handle s (internal event) a = handle_internal_event s event a

unfoldable pub run : {Proxy : Type 0} → List (Services Proxy × Input) → Actor Proxy → Actor Proxy
run [] a = a
run ((s, input) ∷ inputs) a = run inputs (handle s input a)
