-- ===== src/Timeline/Recorded.antt =====
-- The client's total for a day and the time that the daemon records for the same events.
use digital_wellbeing.Common.{ℕ, ◌≡◌, ◌∙◌, refl, sym, ap, false, Option, none, List, [], ◌∷◌}
use digital_wellbeing.Focus.{focus_ms, InOrder}
use digital_wellbeing.Platform.{TimedEvent}
use digital_wellbeing.Timeline.{DayEventRow, Names, build_day_timeline, seed_pending}
use digital_wellbeing.Timeline.Agreement.{row_moments, build_day_timeline-seeded}
use digital_wellbeing.Usage.Accounting.{moments}
use digital_wellbeing.Usage.Deltas.{accumulate, sort_by_time, of_uid}
use digital_wellbeing.Usage.FocusTime.{InTime, was_focused, since, spent, accumulate-focus_ms}
use digital_wellbeing.Usage.Once.{times}
use digital_wellbeing.Usage.Walk.{EventRow, AppCache}
use digital_wellbeing.Values.AppClass.{AppClass}
use digital_wellbeing.Values.Blocked.{Uid}
use digital_wellbeing.Values.EventType.{EventType}

-- While nothing has the focus, the moment that the log is read from does not matter.
focus_ms-off :
    (from from' now : ℕ) (log : List (EventType × ℕ))
    → focus_ms false from log now ≡ focus_ms false from' log now
unfolding focus_ms
focus_ms-off from from' now [] = refl
focus_ms-off from from' now ((t, at) ∷ log) = refl

-- If no application had the focus before the events, the total that the client shows for the day
-- is the time that the daemon records for the user, closed and open together, for the same
-- events: rows with the user's event types and times, in the order of time, from midnight to now.
pub build_day_timeline-accumulate :
    (ensure : AppClass → Option ℕ) (last_events : Uid → Option EventRow) (now : ℕ)
    (events : List TimedEvent) (u : Uid) (all_uids : List Uid) (cache : AppCache)
    (rows : List DayEventRow) (day_start : ℕ) (names : Names)
    → ((v : Uid) → InTime ensure last_events now events v)
    → times u 1 all_uids ≡ 1
    → was_focused (last_events u) ≡ false
    → row_moments rows ≡ moments (sort_by_time (of_uid u events))
    → InOrder day_start (row_moments rows) now
    → (build_day_timeline rows day_start names now none).total_focus_millis
      ≡ spent u (accumulate ensure last_events now events all_uids cache)
unfolding seed_pending
build_day_timeline-accumulate ensure last_events now events u all_uids cache rows day_start names
      time once off same order =
    let client = build_day_timeline-seeded rows day_start now names none order in
    let (daemon, titles) =
      accumulate-focus_ms ensure last_events now events u all_uids cache time once in
    let log = moments (sort_by_time (of_uid u events)) in
    client
    ∙ ap (λ l. focus_ms false day_start l now) same
    ∙ focus_ms-off day_start (since (last_events u)) now log
    ∙ ap (λ on. focus_ms on (since (last_events u)) log now) (sym off)
    ∙ sym daemon
