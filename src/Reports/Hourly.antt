-- ===== src/Reports/Hourly.antt =====
-- crates/daemon/src/reports/core/aggregation.rs: the hours of a day from the event table, and the
-- interval that the last events leave open. A date is its opening midnight. `none` stands for the
-- panic of a slice that starts after its end.
mod Slots
pub mod Order
pub mod Shares
pub mod Bound
use Prim.Native.String.{String}
use digital_wellbeing.Common.{
  ℕ, zero, suc, ◌+◌, ◌-◌, ◌*◌, ◌/◌, min, max, Bool, false, ◌==◌, leb, if◌then◌else◌, Option, none,
  some, unwrap_or, List, [], ◌∷◌, filter, take,
}
use digital_wellbeing.Clock.{day_ms}
use digital_wellbeing.Store.{as_i32}
use digital_wellbeing.Store.Events.{EventTable, get_event_range, earlier}
use digital_wellbeing.Store.Usage.Reads.{sort_by}
use digital_wellbeing.Usage.Walk.{EventRow}
use digital_wellbeing.Values.Blocked.{Uid}
use digital_wellbeing.Values.EventType
use digital_wellbeing.Values.EventType.{EventType, try_from, is_close}

-- `HourlyUsageRow` of crates/daemon/src/reports/data/models.rs.
pub record HourlyUsageRow : Type 0 where
  pub hour : ℕ
  pub total_millis : ℕ

-- `hourly[h] += millis`
unfoldable pub add_at : ℕ → ℕ → List ℕ → List ℕ
add_at h millis [] = []
add_at zero millis (n ∷ ns) = (n + millis) ∷ ns
add_at (suc h) millis (n ∷ ns) = n ∷ add_at h millis ns

-- The slots of the slice, by the number of hours left.
unfoldable pub add_hours : ℕ → ℕ → ℕ → ℕ → ℕ → List ℕ → List ℕ
unfolding add_at
add_hours interval_start interval_end day_start zero h hourly = hourly
add_hours interval_start interval_end day_start (suc left) h hourly =
    let hour_start = day_start + h * 3600000 in
    let hour_end = hour_start + 3600000 in
    add_hours interval_start interval_end day_start left (h + 1)
      (add_at h (min interval_end hour_end - max interval_start hour_start) hourly)

unfoldable pub add_interval_to_hourly : List ℕ → ℕ → ℕ → ℕ → Option (List ℕ)
unfolding add_hours
add_interval_to_hourly hourly interval_start interval_end day_start =
    let start_hour = (interval_start - day_start) / 3600000 in
    let end_hour = min ((interval_end - day_start - 1) / 3600000) 23 in
    if leb start_hour (end_hour + 1)
    then some (
        add_hours interval_start interval_end day_start (end_hour + 1 - start_hour) start_hour
          hourly)
    else none

-- `EventType::try_from(event.event_type).is_ok_and(|et| et.is_close())`
unfoldable pub closes : EventRow → Bool
unfolding try_from is_close
closes event = elim (try_from event.event_type) [ some et ↦ is_close et | none ↦ false ]

-- The interval that a close event ends, if one is pending.
unfoldable pub close_interval : ℕ → ℕ → Option ℕ → List ℕ → Option (List ℕ)
unfolding add_interval_to_hourly
close_interval day_start at none hourly = some hourly
close_interval day_start at (some start_ts) hourly =
    add_interval_to_hourly hourly start_ts at day_start

-- The loop over the user's events, and the step after it.
unfoldable pub add_events : ℕ → ℕ → EventTable → Option ℕ → List ℕ → Option (List ℕ)
unfolding closes close_interval
add_events day_start day_end [] focus_start hourly =
    close_interval day_start day_end focus_start hourly
add_events day_start day_end ((id, event) ∷ events) focus_start hourly =
    let focused = add_events day_start day_end events (some event.timestamp) hourly in
    let closed : Option (List ℕ) =
      elim (close_interval day_start event.timestamp focus_start hourly) [
        | some hourly' ↦ add_events day_start day_end events none hourly'
        | none ↦ none
      ] in
    let ignored = add_events day_start day_end events focus_start hourly in
    if event.event_type == 0 then focused else if closes event then closed else ignored

unfoldable pub number_hours : ℕ → List ℕ → List HourlyUsageRow
number_hours hour [] = []
number_hours hour (n ∷ ns) = record { hour = hour; total_millis = n } ∷ number_hours (hour + 1) ns

unfoldable pub zeros : ℕ → List ℕ
zeros zero = []
zeros (suc n) = 0 ∷ zeros n

unfoldable pub get_hourly_usage : Uid → ℕ → EventTable → Option (List HourlyUsageRow)
unfolding add_events number_hours zeros get_event_range
get_hourly_usage uid date t =
    let events = filter (λ e. e.1.user_id == as_i32 uid) (get_event_range date (date + day_ms) t) in
    elim (add_events date (date + day_ms) events none (zeros 24)) [
      | some hourly ↦ some (number_hours 0 hourly)
      | none ↦ none
    ]

-- `ORDER BY timestamp DESC LIMIT 2`
unfoldable pub last_two : EventTable → EventTable
unfolding sort_by
last_two t = take 2 (sort_by (λ a b. earlier b a) t)

unfoldable pub is_paused : EventTable → Bool
is_paused [] = false
is_paused ((id, event) ∷ rest) = event.event_type == 2

unfoldable pub open_interval : EventTable → Option (String × ℕ × Bool)
unfolding is_paused
open_interval [] = none
open_interval ((id, event) ∷ rest) =
    if event.event_type == 0
    then some (unwrap_or event.app_class "", event.timestamp, is_paused rest)
    else none

unfoldable pub open_interval_at_startup : EventTable → Option (String × ℕ × Bool)
unfolding last_two open_interval
open_interval_at_startup t = open_interval (last_two t)
