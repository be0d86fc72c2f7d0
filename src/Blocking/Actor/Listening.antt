-- ===== src/Blocking/Actor/Listening.antt =====
-- Every handler keeps the signals in step with the blocked-apps map, so every run does.
use digital_wellbeing.Common.{
  ◌⊎◌, ℕ, suc, ◌≡◌, refl, true, false, leb, List, [], ◌∷◌, arith, inl, inr, Bool-cases,
  Option-cases,
}
use digital_wellbeing.Blocking.Actor.{Services, Actor}
use digital_wellbeing.Blocking.Actor.Evaluate.{evaluate_and_enforce}
use digital_wellbeing.Blocking.Actor.Flush.{flush_buffer, maybe_midnight_reset}
use digital_wellbeing.Blocking.Actor.Handlers.{
  InternalEvent, Input, handle_event, buffer_event, should_evaluate, evaluate_event, flush_if_long,
  handle_internal_event, flush_tick, push_shutdowns, handle, run,
}
use digital_wellbeing.Blocking.Buffer.{len}
use digital_wellbeing.Blocking.Actor.Consistency.{
  IsConsistent, evaluate_and_apply-IsConsistent, evaluate_uids-IsConsistent,
  handle_policy_mutation-IsConsistent,
}
use digital_wellbeing.Blocking.Signals.{midnight_reset}
use digital_wellbeing.Blocking.Signals.Mirror.{Mirrors}
use digital_wellbeing.Blocking.Signals.Reset.{midnight_reset-Mirrors}
use digital_wellbeing.Platform.{PlatformEvent, event_app_class, event_uid}
use digital_wellbeing.Values.Blocked.{Uid}
use digital_wellbeing.Values.DateTime.{DateTime}

module _ {Proxy : Type 0} (s : Services Proxy) where
  flush_buffer-told : (now : DateTime) (a : Actor Proxy) → (flush_buffer s now a).1.told ≡ a.told
  unfolding flush_buffer
  flush_buffer-told now a = elim (Option-cases s.uids_with_open_intervals) [
    | inl failed ↦ rw (failed, flush_buffer)
    | inr (us, found) ↦ rw (found, flush_buffer)
  ]

  flush_if_long-IsConsistent : (a : Actor Proxy) → IsConsistent a → IsConsistent (flush_if_long s a)
  unfolding flush_if_long
  flush_if_long-IsConsistent a m = elim (Bool-cases (leb 100 (len a.event_buffer))) [
    | inl long ↦ rw long (rw (flush_buffer-told (s.clock 2) a) m)
    | inr short ↦ rw short m
  ]

  evaluate_event-IsConsistent :
      (event : PlatformEvent) (a : Actor Proxy)
      → IsConsistent a
      → IsConsistent (evaluate_event s event a)
  unfolding evaluate_event
  evaluate_event-IsConsistent event a m = elim (Bool-cases (should_evaluate event)) [
    | inl seen ↦ elim (Option-cases (event_app_class event)) [
      | inl desktop ↦ rw (seen, evaluate_event) (rw desktop m)
      | inr (app, named) ↦
          rw (seen, evaluate_event)
            (rw named (evaluate_and_apply-IsConsistent s (event_uid event) app (s.clock 1) a m))
    ]
    | inr ignored ↦ rw ignored m
  ]

  maybe_midnight_reset-told :
      (a : Actor Proxy)
      → ((maybe_midnight_reset s a).told ≡ a.told)
        ⊎ ((maybe_midnight_reset s a).told ≡ midnight_reset a.told)
  unfolding maybe_midnight_reset
  maybe_midnight_reset-told a = ground arith

  maybe_midnight_reset-IsConsistent :
      (a : Actor Proxy) → IsConsistent a → IsConsistent (maybe_midnight_reset s a)
  maybe_midnight_reset-IsConsistent a m = elim (maybe_midnight_reset-told a) [
    | inl same ↦ rw same m
    | inr reset ↦ rw reset (midnight_reset-Mirrors a.told m)
  ]

  push_shutdowns-told :
      (reading : ℕ) (us : List Uid) (a : Actor Proxy)
      → (push_shutdowns s reading us a).told ≡ a.told
  unfolding push_shutdowns buffer_event
  push_shutdowns-told reading [] a = refl
  push_shutdowns-told reading (uid ∷ us) a = push_shutdowns-told (suc reading) us _

  flush_tick-IsConsistent : (a : Actor Proxy) → IsConsistent a → IsConsistent (flush_tick s a)
  unfolding flush_tick evaluate_and_enforce
  flush_tick-IsConsistent a m =
      let m' : IsConsistent (flush_buffer s (s.clock 0) a).1 =
        rw (flush_buffer-told (s.clock 0) a) m in
      elim (Bool-cases (flush_buffer s (s.clock 0) a).0) [
        | inl flushed ↦
            rw flushed
              (evaluate_uids-IsConsistent s (s.clock 1) _ (flush_buffer s (s.clock 0) a).1 m')
        | inr failed ↦ rw failed m'
      ]

  handle_internal_event-IsConsistent :
      (event : InternalEvent) (a : Actor Proxy)
      → IsConsistent a
      → IsConsistent (handle_internal_event s event a)
  unfolding handle_internal_event
  handle_internal_event-IsConsistent (InternalEvent.flush true) a m =
      maybe_midnight_reset-IsConsistent _ (flush_tick-IsConsistent a m)
  handle_internal_event-IsConsistent (InternalEvent.flush false) a m =
      maybe_midnight_reset-IsConsistent _ (flush_tick-IsConsistent a m)
  handle_internal_event-IsConsistent (InternalEvent.shutdown true) a m =
      rw (flush_buffer-told, push_shutdowns-told) m
  handle_internal_event-IsConsistent (InternalEvent.shutdown false) a m =
      rw (flush_buffer-told, push_shutdowns-told) m
  handle_internal_event-IsConsistent (InternalEvent.policy_changed owner) a m =
      handle_policy_mutation-IsConsistent s owner (s.clock 0) a m

  handle_event-IsConsistent :
      (event : PlatformEvent) (a : Actor Proxy)
      → IsConsistent a
      → IsConsistent (handle_event s event a)
  unfolding handle_event buffer_event
  handle_event-IsConsistent event a m =
      flush_if_long-IsConsistent _ (evaluate_event-IsConsistent event _ m)

-- After any sequence of platform and internal events, with any answers from the database, the
-- clocks and the plugins, the newest AppBlocked signal about an application says of it what the
-- blocked-apps map says: the listeners that follow the signals know the map exactly.
pub run-Mirrors :
    {Proxy : Type 0} (inputs : List (Services Proxy × Input)) (a : Actor Proxy)
    → Mirrors a.told
    → Mirrors (run inputs a).told
unfolding run handle
run-Mirrors [] a m = m
run-Mirrors ((s, Input.platform event) ∷ inputs) a m =
    run-Mirrors inputs _ (handle_event-IsConsistent s event a m)
run-Mirrors ((s, Input.internal event) ∷ inputs) a m =
    run-Mirrors inputs _ (handle_internal_event-IsConsistent s event a m)
