-- ===== src/Dashboard/Seed/Midnight.antt =====
-- What the dashboard's timeline says of the event log.
use Prim.Native.String.{String}
use mathlib.Core.List.{reverse, map-append}
use digital_wellbeing.Common.{
  ℕ, ◌+◌, ◌-◌, ◌%◌, ◌≤◌, ◌≡◌, refl, sym, ◌∙◌, ap, true, false, Option, some, List, [], ◌∷◌, ◌++◌,
  map, All, leb, ltb, ◌==◌, ◌&&◌, arith,
}
use digital_wellbeing.Clock.{day_ms}
use digital_wellbeing.Dashboard.{Floats, DashboardViewModel}
use digital_wellbeing.Dashboard.Derive.{recompute_derived, app_names}
use digital_wellbeing.Dashboard.Repo.{DashboardRepo, fetch_all, get_pre_midnight_seed, last_focus}
use digital_wellbeing.Dashboard.Seed.{Earlier, seed-after_all}
use digital_wellbeing.Focus.{focus_ms, InOrder}
use digital_wellbeing.Focus.Append.{focus_ms-append}
use digital_wellbeing.Store.{as_i32}
use digital_wellbeing.Store.Events.{EventTable, get_day_events, day_row}
use digital_wellbeing.Store.Events.Order.{Ordered, chosen-Ordered}
use digital_wellbeing.Store.Events.Split.{Before, rows_of, rows_of-append, rows_of-Before}
use digital_wellbeing.Timeline.{DayEventRow, DayTimeline, Names, build_day_timeline}
use digital_wellbeing.Timeline.Agreement.{row_moments, build_day_timeline-seeded}
use digital_wellbeing.Usage.Walk.{EventRow}
use digital_wellbeing.Values.Blocked.{Uid}

abbrev seen : EventTable → List DayEventRow
seen rows = map (λ e. day_row e.1) rows

seen-Earlier : (day : ℕ) (rows : EventTable) → Before day rows → Earlier day (seen rows)
unfolding day_row
seen-Earlier day [] h = tt
seen-Earlier day ((id, e) ∷ rows) h = (h.0, seen-Earlier day rows h.1)

seen-InOrder :
    (from to : ℕ) (rows : EventTable)
    → Ordered from rows to
    → InOrder from (row_moments (seen rows)) to
unfolding day_row
seen-InOrder from to [] h = h
seen-InOrder from to ((id, e) ∷ rows) h = (h.0, seen-InOrder e.timestamp to rows h.1)

-- Rows that are not after a moment are in order up to it.
InOrder-until :
    (from to now : ℕ) (rows : List DayEventRow)
    → InOrder from (row_moments rows) to
    → from ≤ now
    → All (λ r. r.timestamp ≤ now) rows
    → InOrder from (row_moments rows) now
InOrder-until from to now [] order le h = le
InOrder-until from to now (r ∷ rows) order le h =
    (order.0, InOrder-until r.timestamp to now rows order.1 h.0 h.1)

rows_of-Ordered :
    (uid : Uid) (start finish : ℕ) (t : EventTable)
    → start ≤ finish
    → Ordered start (rows_of uid start finish t) finish
rows_of-Ordered uid start finish t le =
    chosen-Ordered
      (λ e. e.1.user_id == as_i32 uid && leb start e.1.timestamp && ltb e.1.timestamp finish) start
      finish t
      (λ (e : ℕ × EventRow)
          (h : ((e.1.user_id == as_i32 uid) && leb start e.1.timestamp && ltb e.1.timestamp finish)
            ≡ true).
        (ground arith, ground arith))
      le

get_day_events-append :
    (uid : Uid) (day finish : ℕ) (t : EventTable)
    → day ≤ finish
    → get_day_events uid 0 finish t ≡ get_day_events uid 0 day t ++ get_day_events uid day finish t
unfolding get_day_events
get_day_events-append uid day finish t le =
    ap seen (rows_of-append uid 0 day finish t (omega arith) le)
    ∙ map-append (λ (e : ℕ × EventRow). day_row e.1) (rows_of uid 0 day t)
        (rows_of uid day finish t)

-- The total of a timeline that is seeded with the rows before the day.
seeded-total :
    (day now : ℕ) (history events : List DayEventRow) (names : Names)
    → InOrder 0 (row_moments history) day
    → Earlier day history
    → InOrder day (row_moments events) now
    → focus_ms false 0 (row_moments (history ++ events)) now
      ≡ focus_ms false 0 (row_moments history) day
        + (build_day_timeline events day names now
            (last_focus (reverse history))).total_focus_millis
seeded-total day now history events names past early order =
    let total =
      build_day_timeline-seeded events day now names (last_focus (reverse history)) order in
    ap (λ l. focus_ms false 0 l now)
      (map-append (λ (e : DayEventRow). (e.event_type, e.timestamp)) history events)
    ∙ focus_ms-append false 0 day now (row_moments history) (row_moments events) past order
    ∙ ap (λ n. focus_ms false 0 (row_moments history) day + n)
        (sym (
          total
          ∙ ap (λ on. focus_ms on day (row_moments events) now) (seed-after_all day history early)))

-- After a fetch in which the daemon answers for the day's rows and for all rows before it from a user's
-- event table, and while no row of the table is later than now, the timeline that the dashboard
-- shows has as its total exactly what the focus time of the user's whole event log gains after midnight:
-- with the focus time up to midnight it adds up to the focus time up to now.
pub recompute_derived-day_total :
    (f : Floats) (to_datetime : ℕ → Option ℕ) (vm : DashboardViewModel f) (repo : DashboardRepo)
    (uid : Uid) (t : EventTable) (start finish : String) (day_now card_now now : ℕ)
    → repo.day_events ≡ (λ first last. some (get_day_events uid first last t))
    → day_now - day_now % day_ms ≡ now - now % day_ms
    → All
        (λ r. r.timestamp ≤ now)
        (get_day_events uid (now - now % day_ms) (now - now % day_ms + day_ms) t)
    → let day = now - now % day_ms in
      let fetched = record vm { found = some (fetch_all repo start finish day_now) } in
      (tl : DayTimeline) × ((recompute_derived f to_datetime card_now now fetched).day_timeline
        ≡ some tl)
      × (focus_ms false 0 (row_moments (get_day_events uid 0 (day + day_ms) t)) now
          ≡ focus_ms false 0 (row_moments (get_day_events uid 0 day t)) day + tl.total_focus_millis)
unfolding recompute_derived fetch_all get_pre_midnight_seed get_day_events
recompute_derived-day_total f to_datetime vm repo uid t start finish day_now card_now now answers
      same_day past =
    let day = now - now % day_ms in
    let names = app_names (fetch_all repo start finish day_now).app_categories in
    let history = get_day_events uid 0 day t in
    let events = get_day_events uid day (day + day_ms) t in
    let before : InOrder 0 (row_moments history) day =
      seen-InOrder 0 day (rows_of uid 0 day t) (rows_of-Ordered uid 0 day t (omega arith)) in
    let early : Earlier day history =
      seen-Earlier day (rows_of uid 0 day t) (rows_of-Before uid 0 day t) in
    let today : InOrder day (row_moments events) (day + day_ms) =
      seen-InOrder day (day + day_ms) (rows_of uid day (day + day_ms) t)
        (rows_of-Ordered uid day (day + day_ms) t (omega arith)) in
    let order = InOrder-until day (day + day_ms) now events today (omega arith) past in
    (
      build_day_timeline events day names now (last_focus (reverse history)),
      rw (answers, same_day) refl,
      ap (λ l. focus_ms false 0 (row_moments l) now)
            (get_day_events-append uid day (day + day_ms) t (omega arith))
          ∙ seeded-total day now history events names before early order,
    )
