-- ===== src/Reports/Hourly/Order.antt =====
-- One user's events of a date, in the order of time.
use digital_wellbeing.Common.{ℕ, ◌+◌, ◌≡◌, ◌==◌, ◌&&◌, true, leb, filter, arith}
use digital_wellbeing.Clock.{day_ms}
use digital_wellbeing.Store.{as_i32}
use digital_wellbeing.Store.Events.{EventTable, get_event_range}
use digital_wellbeing.Store.Events.Order.{Ordered, chosen-Ordered, filter-Ordered}
use digital_wellbeing.Usage.Walk.{EventRow}
use digital_wellbeing.Values.Blocked.{Uid}

-- One user's events of a date.
abbrev pub of_date : Uid → ℕ → EventTable → EventTable
of_date uid date t =
    filter (λ e. e.1.user_id == as_i32 uid) (get_event_range date (date + day_ms) t)

pub of_date-Ordered :
    (uid : Uid) (date : ℕ) (t : EventTable) → Ordered date (of_date uid date t) (date + day_ms)
unfolding get_event_range
of_date-Ordered uid date t =
    filter-Ordered (λ e. e.1.user_id == as_i32 uid) date (date + day_ms)
      (get_event_range date (date + day_ms) t)
      (chosen-Ordered (λ e. leb date e.1.timestamp && leb e.1.timestamp (date + day_ms)) date
        (date + day_ms) t
        (λ (e : ℕ × EventRow)
            (h : (leb date e.1.timestamp && leb e.1.timestamp (date + day_ms)) ≡ true).
          (ground arith, ground arith))
        (omega arith))
