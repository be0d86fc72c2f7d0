-- ===== src/Usage/FocusTime.antt =====
-- The two phases of `process_all_deltas` together give each registered user's focus time.
use digital_wellbeing.Common.{
  ℕ, ◌+◌, ◌-◌, ◌≤◌, ◌≡◌, refl, sym, ◌∙◌, ap, Bool, false, if◌then◌else◌, ◌==◌, Option, none, some,
  is_some, unwrap_or, List, [], ◌∷◌, map, any, if_same, ◌||◌, inl, inr, Bool-cases, arith,
}
use digital_wellbeing.Blocking.Buffer.{distinct}
use digital_wellbeing.Focus.{focus_ms}
use digital_wellbeing.Platform.{TimedEvent, event_uid}
use digital_wellbeing.Usage.{Agg, OpenFocus, accumulate_open, empty}
use digital_wellbeing.Usage.Accounting.{
  Accounts, walk-Accounts, moments, elapsed, elapsed_split, OpenBy, user_ms, user_title_ms,
}
use digital_wellbeing.Usage.Deltas.{
  Deltas, of_uid, sort_by_time, refresh_open, has_events, process_uid, phase_a, refresh_uid,
  phase_b, accumulate,
}
use digital_wellbeing.Usage.Once.{times, times-once, times-distinct}
use digital_wellbeing.Usage.Order.{Within, sort_by_time-InOrder}
use digital_wellbeing.Usage.Totals.{IsAgg, accumulate_range-total}
use digital_wellbeing.Usage.Walk.{EventRow, AppCache, Walk, walk, seed, open_focus_from_row}
use digital_wellbeing.Values.AppClass.{AppClass}
use digital_wellbeing.Values.Blocked.{Uid}
use digital_wellbeing.Values.EventType
use digital_wellbeing.Values.EventType.{EventType, same}

-- Whether the last persisted event left an application in focus, and since when.
abbrev pub was_focused : Option EventRow → Bool
was_focused none = false
was_focused (some row) =
    EventType.same (unwrap_or (EventType.try_from row.event_type) EventType.focus) EventType.focus

abbrev pub since : Option EventRow → ℕ
since none = 0
since (some row) = row.timestamp

-- The closed and the open time of a user.
abbrev pub spent : Uid → Deltas → ℕ
spent u d = user_ms u d.agg_closed + user_ms u d.agg_open

abbrev pub spent_by_title : Uid → Deltas → ℕ
spent_by_title u d = user_title_ms u d.agg_closed + user_title_ms u d.agg_open

-- Keyed aggregates with the given times of a user.
pub record Holds (u : Uid) (apps titles : ℕ) (d : Deltas) : Type 0 where
  pub closed_keyed : IsAgg d.agg_closed
  pub open_keyed : IsAgg d.agg_open
  pub apps_are : spent u d ≡ apps
  pub titles_are : spent_by_title u d ≡ titles

hold :
    {u : Uid} {apps apps' titles titles' : ℕ} {d : Deltas}
    → apps ≡ apps'
    → titles ≡ titles'
    → Holds u apps titles d
    → Holds u apps' titles' d
hold eq eq' h = record {
  closed_keyed = h.closed_keyed;
  open_keyed = h.open_keyed;
  apps_are = h.apps_are ∙ eq;
  titles_are = h.titles_are ∙ eq';
}

of_uid-none :
    (uid : Uid) (events : List TimedEvent) → has_events uid events ≡ false → of_uid uid events ≡ []
unfolding of_uid
of_uid-none uid [] h = refl
of_uid-none uid (t ∷ ts) h = ground (arith, of_uid-none uid ts)

-- With no event of the user, only the interval that was open counts.
focus_ms-none :
    (on : Bool) (from now : ℕ) (uid : Uid) (events : List TimedEvent)
    → has_events uid events ≡ false
    → focus_ms on from (moments (sort_by_time (of_uid uid events))) now
      ≡ (if on then now - from else 0)
unfolding focus_ms sort_by_time
focus_ms-none on from now uid events h = rw (of_uid-none uid events h) refl

any-map_uid :
    (u : Uid) (events : List TimedEvent)
    → any (λ v. v == u) (map (λ t. event_uid t.event) events) ≡ has_events u events
any-map_uid u [] = refl
any-map_uid u (t ∷ ts) = ap (λ b. (event_uid t.event == u) || b) (any-map_uid u ts)

refresh_open-total :
    (u uid : Uid) (o : Option OpenFocus) (now : ℕ) (agg : Agg)
    → IsAgg agg
    → IsAgg (refresh_open o now uid agg)
      × (user_ms u (refresh_open o now uid agg)
          ≡ user_ms u agg + (if uid == u then elapsed now o else 0))
      × (user_title_ms u (refresh_open o now uid agg)
          ≡ user_title_ms u agg + (if uid == u then elapsed now o else 0))
unfolding refresh_open accumulate_open
refresh_open-total u uid none now agg h = (h, ground arith, ground arith)
refresh_open-total u uid (some f) now agg h =
    accumulate_range-total (λ v app. v == u) f uid now agg h

module _ (ensure : AppClass → Option ℕ) where
  -- The seed opens at the last event, if that was a focus.
  seed_lem :
      (o : Option EventRow) (cache : AppCache)
      → (is_some (seed ensure o cache).0 ≡ was_focused o)
        × (elapsed (since o) (seed ensure o cache).0 ≡ 0)
        × OpenBy (since o) (seed ensure o cache).0
  unfolding seed open_focus_from_row
  seed_lem none cache = (refl, refl, tt)
  seed_lem (some row) cache =
      elim (Bool-cases
        (same (unwrap_or (EventType.try_from row.event_type) EventType.focus) EventType.focus)) [
          | inl focus ↦ rw focus (refl, omega arith, omega arith)
          | inr other ↦ rw other (refl, refl, tt)
        ]

  module _ (last_events : Uid → Option EventRow) (now : ℕ) (events : List TimedEvent) where
    -- The focus time of a user since the last persisted event.
    abbrev pub focused : Uid → ℕ
    focused u =
        focus_ms (was_focused (last_events u)) (since (last_events u))
          (moments (sort_by_time (of_uid u events))) now

    -- The buffered events are no earlier than the user's last persisted one and no later than now.
    abbrev pub InTime : Uid → Type 0
    InTime u = (since (last_events u) ≤ now) × Within (since (last_events u)) now (of_uid u events)

    process_uid-Holds :
        (u uid : Uid) (apps titles : ℕ) (d : Deltas)
        → InTime uid
        → Holds u apps titles d
        → let more = if uid == u then focused uid else 0 in
          Holds u (apps + more) (titles + more) (process_uid ensure last_events now events uid d)
    unfolding process_uid
    process_uid-Holds u uid apps titles d time h =
        let o = last_events uid in
        let (open_iff, none_yet, by) = seed_lem o d.cache in
        let w : Walk = record {
          open_focus = (seed ensure o d.cache).0;
          closed = d.agg_closed;
          cache = (seed ensure o d.cache).1;
        } in
        let start : Accounts uid u (since o) (user_ms u d.agg_closed) (user_title_ms u d.agg_closed)
            (is_some w.open_focus) w =
          record {
            keyed = h.closed_keyed;
            apps_are = ground arith;
            titles_are = ground arith;
            by = by;
            open_iff = refl;
          } in
        let walked =
          walk-Accounts uid u ensure (sort_by_time (of_uid uid events)) (since o) now _ _ w
            (sort_by_time-InOrder (since o) now (of_uid uid events) time.0 time.1) start in
        let w' = walk ensure uid (sort_by_time (of_uid uid events)) w in
        let (keyed, apps', titles') =
          refresh_open-total u uid w'.open_focus now d.agg_open h.open_keyed in
        let a = walked.apps_are in
        let t = walked.titles_are in
        let a' = h.apps_are in
        let t' = h.titles_are in
        rw (sym open_iff) (record {
          closed_keyed = walked.keyed;
          open_keyed = keyed;
          apps_are = ground arith;
          titles_are = ground arith;
        })

    phase_a-Holds :
        (u : Uid) (uids : List Uid) (apps titles : ℕ) (d : Deltas)
        → ((v : Uid) → InTime v)
        → Holds u apps titles d
        → let more = times u (focused u) uids in
          Holds u (apps + more) (titles + more) (phase_a ensure last_events now events uids d)
    unfolding phase_a
    phase_a-Holds u [] apps titles d time h = hold (omega arith) (omega arith) h
    phase_a-Holds u (uid ∷ uids) apps titles d time h =
        let next = process_uid-Holds u uid apps titles d (time uid) h in
        let rest =
          phase_a-Holds u uids _ _ (process_uid ensure last_events now events uid d) time next in
        let alike = if_same focused 0 u uid in hold (ground arith) (ground arith) rest

    -- What phase B gives a user.
    abbrev unseen : Uid → ℕ
    unseen u = if has_events u events then 0 else focused u

    refresh_uid-Holds :
        (u uid : Uid) (apps titles : ℕ) (d : Deltas)
        → InTime uid
        → Holds u apps titles d
        → let more = if uid == u then unseen uid else 0 in
          Holds u (apps + more) (titles + more) (refresh_uid ensure last_events now events uid d)
    unfolding refresh_uid
    refresh_uid-Holds u uid apps titles d time h =
        let o = last_events uid in
        let (open_iff, none_yet, by) = seed_lem o d.cache in
        let grown = elapsed_split (since o) now (seed ensure o d.cache).0 time.0 by in
        let (keyed, apps', titles') =
          refresh_open-total u uid (seed ensure o d.cache).0 now d.agg_open h.open_keyed in
        let a = h.apps_are in
        let t = h.titles_are in
        elim (Bool-cases (has_events uid events)) [
          | inl some_event ↦ rw some_event (hold (ground arith) (ground arith) h)
          | inr no_event ↦
              let still = focus_ms-none (was_focused o) (since o) now uid events no_event in
              rw no_event (
                rw (still) (
                  rw (sym open_iff) (record {
                    closed_keyed = h.closed_keyed;
                    open_keyed = keyed;
                    apps_are = ground arith;
                    titles_are = ground arith;
                  })))
        ]

    phase_b-Holds :
        (u : Uid) (uids : List Uid) (apps titles : ℕ) (d : Deltas)
        → ((v : Uid) → InTime v)
        → Holds u apps titles d
        → let more = times u (unseen u) uids in
          Holds u (apps + more) (titles + more) (phase_b ensure last_events now events uids d)
    unfolding phase_b
    phase_b-Holds u [] apps titles d time h = hold (omega arith) (omega arith) h
    phase_b-Holds u (uid ∷ uids) apps titles d time h =
        let next = refresh_uid-Holds u uid apps titles d (time uid) h in
        let rest =
          phase_b-Holds u uids _ _ (refresh_uid ensure last_events now events uid d) time next in
        let alike = if_same unseen 0 u uid in hold (ground arith) (ground arith) rest

    -- A user that is registered once has, in the closed and the open time of the day rows together,
    -- exactly the focus time of the log since the last persisted event, whether the user has
    -- buffered events or not; the rows by title hold the same time as the rows by application. The
    -- events may come in any order, if none is before the user's last persisted event or after now.
    pub accumulate-focus_ms :
        (u : Uid) (all_uids : List Uid) (cache : AppCache)
        → ((v : Uid) → InTime v)
        → times u 1 all_uids ≡ 1
        → let d = accumulate ensure last_events now events all_uids cache in
          (spent u d ≡ focused u) × (spent_by_title u d ≡ focused u)
    unfolding accumulate
    accumulate-focus_ms u all_uids cache time once =
        let start : Deltas = record { agg_closed = empty; agg_open = empty; cache = cache } in
        let h : Holds u 0 0 start = record {
          closed_keyed = (tt, tt);
          open_keyed = (tt, tt);
          apps_are = refl;
          titles_are = refl;
        } in
        let uids = distinct [] (map (λ t. event_uid t.event) events) in
        let a = phase_a-Holds u uids 0 0 start time h in
        let b =
          phase_b-Holds u all_uids _ _ (phase_a ensure last_events now events uids start) time a in
        let first = times-distinct u (focused u) [] (map (λ t. event_uid t.event) events) in
        let second = times-once u (unseen u) all_uids once in
        let same = any-map_uid u events in
        let apps = b.apps_are in let titles = b.titles_are in (ground arith, ground arith)
