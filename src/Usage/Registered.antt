-- ===== src/Usage/Registered.antt =====
-- The users whose intervals are accumulated are those of the events.
use digital_wellbeing.Common.{
  ℕ, Option, List, [], ◌∷◌, All, map, any, ◌==◌, inl, inr, Bool-cases, Option-cases,
}
use digital_wellbeing.Common.Map.{remove}
use digital_wellbeing.Blocking.Buffer.{distinct}
use digital_wellbeing.Clock.{split_by_utc_day}
use digital_wellbeing.Platform.{TimedEvent, event_uid, event_type, is_close_event}
use digital_wellbeing.Usage.{
  Agg, OpenFocus, AggKeyApp, app_key_eq, accumulate_segments, accumulate_range, accumulate_closed,
}
use digital_wellbeing.Usage.Dates.{daily_date_str}
use digital_wellbeing.Usage.Deltas.{
  Deltas, process_uid, phase_a, refresh_uid, phase_b, accumulate, of_uid, sort_by_time, has_events,
}
use digital_wellbeing.Usage.Walk.{EventRow, AppCache, Walk, close_at, step, walk}
use digital_wellbeing.Values.AppClass.{AppClass}
use digital_wellbeing.Values.Blocked.{Uid}
use digital_wellbeing.Values.EventType
use digital_wellbeing.Values.EventType.{EventType}

module _ (P : Uid → Type 0) where
  -- The keys' users have the property.
  abbrev pub UsersIn : List ((Uid × AggKeyApp) × ℕ) → Type 0
  UsersIn m = All (λ e. P e.0.0) m

  remove-UsersIn :
      (k : Uid × AggKeyApp) (m : List ((Uid × AggKeyApp) × ℕ))
      → UsersIn m
      → UsersIn (remove app_key_eq k m)
  remove-UsersIn k [] h = tt
  remove-UsersIn k ((j, v) ∷ m) h = elim (Bool-cases (app_key_eq.beq j k)) [
    | inl same ↦ rw same (remove-UsersIn k m h.1)
    | inr other ↦ rw other (h.0, remove-UsersIn k m h.1)
  ]

  module _ (uid : Uid) (is : P uid) where
    segments-UsersIn :
        (f : OpenFocus) (segs : List (ℕ × ℕ)) (agg : Agg)
        → UsersIn agg.by_app
        → UsersIn (accumulate_segments f uid segs agg).by_app
    unfolding accumulate_segments
    segments-UsersIn f [] agg h = h
    segments-UsersIn f ((day, dur) ∷ segs) agg h =
        segments-UsersIn f segs _
          (is, remove-UsersIn (uid, (daily_date_str day, f.app_id)) agg.by_app h)

    close_at-UsersIn :
        (ts : ℕ) (w : Walk) → UsersIn w.closed.by_app → UsersIn (close_at ts uid w).closed.by_app
    unfolding close_at accumulate_closed accumulate_range
    close_at-UsersIn ts w h = elim (Option-cases w.open_focus) [
      | inl nothing ↦ rw (nothing, close_at) h
      | inr (prev, opened) ↦
          rw (opened, close_at) (segments-UsersIn prev (split_by_utc_day prev.ts_ms ts) w.closed h)
    ]

    walk-UsersIn :
        (ensure : AppClass → Option ℕ) (events : List TimedEvent) (w : Walk)
        → UsersIn w.closed.by_app
        → UsersIn (walk ensure uid events w).closed.by_app
    unfolding walk step
    walk-UsersIn ensure [] w h = h
    walk-UsersIn ensure (timed ∷ events) w h =
        walk-UsersIn ensure events (step ensure uid timed w)
          (elim (Bool-cases (EventType.same (event_type timed.event) EventType.focus)) [
            | inl focus ↦ rw focus (close_at-UsersIn timed.timestamp w h)
            | inr other ↦ elim (Bool-cases (is_close_event timed.event)) [
              | inl closes ↦ rw (other, closes) (close_at-UsersIn timed.timestamp w h)
              | inr ignored ↦ rw (other, ignored) h
            ]
          ])

  module _ (ensure : AppClass → Option ℕ) (last_events : Uid → Option EventRow) (now : ℕ) where
    phase_a-UsersIn :
        (events : List TimedEvent) (uids : List Uid) (d : Deltas)
        → All P uids
        → UsersIn d.agg_closed.by_app
        → UsersIn (phase_a ensure last_events now events uids d).agg_closed.by_app
    unfolding phase_a process_uid
    phase_a-UsersIn events [] d are h = h
    phase_a-UsersIn events (uid ∷ uids) d are h =
        phase_a-UsersIn events uids (process_uid ensure last_events now events uid d) are.1
          (walk-UsersIn uid are.0 ensure (sort_by_time (of_uid uid events)) _ h)

    phase_b-UsersIn :
        (events : List TimedEvent) (uids : List Uid) (d : Deltas)
        → UsersIn d.agg_closed.by_app
        → UsersIn (phase_b ensure last_events now events uids d).agg_closed.by_app
    unfolding phase_b refresh_uid
    phase_b-UsersIn events [] d h = h
    phase_b-UsersIn events (uid ∷ uids) d h =
        phase_b-UsersIn events uids (refresh_uid ensure last_events now events uid d)
          (elim (Bool-cases (has_events uid events)) [
            | inl some_event ↦ rw some_event h
            | inr no_event ↦ rw no_event h
          ])

    distinct-All : (seen us : List Uid) → All P us → All P (distinct seen us)
    unfolding distinct
    distinct-All seen [] h = tt
    distinct-All seen (u ∷ us) h = elim (Bool-cases (any (λ s. s == u) seen)) [
      | inl old ↦ rw old (distinct-All seen us h.1)
      | inr fresh ↦ rw fresh (h.0, distinct-All (u ∷ seen) us h.1)
    ]

    uids-All :
        (events : List TimedEvent)
        → All (λ t. P (event_uid t.event)) events
        → All P (map (λ t. event_uid t.event) events)
    uids-All [] h = tt
    uids-All (t ∷ events) h = (h.0, uids-All events h.1)

    -- The closed aggregate has keys only for users of the events.
    pub accumulate-UsersIn :
        (events : List TimedEvent) (all_uids : List Uid) (cache : AppCache)
        → All (λ t. P (event_uid t.event)) events
        → UsersIn (accumulate ensure last_events now events all_uids cache).agg_closed.by_app
    unfolding accumulate
    accumulate-UsersIn events all_uids cache are = phase_b-UsersIn events all_uids _ (
        phase_a-UsersIn events (distinct [] (map (λ t. event_uid t.event) events)) _
          (distinct-All [] (map (λ t. event_uid t.event) events) (uids-All events are)) tt)
