-- ===== src/Examples/Hourly.antt =====
-- The hourly report on a small event table.
use digital_wellbeing.Common.{ℕ, ◌+◌, ◌≤◌, ◌≡◌, refl, none, some, List, [], ◌∷◌, arith}
use digital_wellbeing.Clock.{day_ms}
use digital_wellbeing.Reports.Hourly.{HourlyUsageRow, get_hourly_usage, open_interval_at_startup}
use digital_wellbeing.Reports.Hourly.Bound.{get_hourly_usage-le_hour}
use digital_wellbeing.Reports.Hourly.Order.{of_date}
use digital_wellbeing.Reports.Hourly.Shares.{intervals, hour_share, row_at, get_hourly_usage-row_at}
use digital_wellbeing.Store.Events.{EventTable}
use digital_wellbeing.Usage.Walk.{EventRow}

abbrev row : ℕ → ℕ → EventRow
row code at = record {
  event_type = code;
  user_id = 1000;
  timestamp = at;
  app_class = none;
  title = none;
}

abbrev events : EventTable
events =
    (1, row 0 3500000)
    ∷ (2, row 2 3700000)
    ∷ (3, row 0 4000000)
    ∷ (4, row 0 4500000)
    ∷ (5, row 1 5000000)
    ∷ []

abbrev first_hours : List HourlyUsageRow → ℕ × ℕ
first_hours [] = (0, 0)
first_hours (r ∷ []) = (r.total_millis, 0)
first_hours (r ∷ q ∷ rest) = (r.total_millis, q.total_millis)

abbrev hours : ℕ × ℕ
hours = elim (get_hourly_usage 1000 0 events) [ some rows ↦ first_hours rows | none ↦ (0, 0) ]

-- The first interval is split at the hour; the second counts from the later of its focus events.
hours_lem : hours ≡ (100000, 600000)
unfolding get_hourly_usage
hours_lem = refl

get_hourly_usage-row_at_example :
    (rows : List HourlyUsageRow) × (get_hourly_usage 1000 0 events ≡ some rows)
    × (row_at 1 rows
        ≡ some (record {
          hour = 1;
          total_millis = hour_share 0 1 (intervals (0 + day_ms) (of_date 1000 0 events) none);
        }))
get_hourly_usage-row_at_example = get_hourly_usage-row_at 1000 0 events 1 (omega arith)

abbrev second_row : HourlyUsageRow
second_row = record { hour = 1; total_millis = 600000 }

abbrev report : List HourlyUsageRow
report = elim (get_hourly_usage 1000 0 events) [ some rows ↦ rows | none ↦ [] ]

answered : get_hourly_usage 1000 0 events ≡ some report
unfolding get_hourly_usage
answered = refl

second : row_at 1 report ≡ some second_row
unfolding get_hourly_usage
second = refl

get_hourly_usage-le_hour_example : second_row.total_millis ≤ 3600000
get_hourly_usage-le_hour_example =
    get_hourly_usage-le_hour 1000 0 events 1 (omega arith) answered second

nothing_open : open_interval_at_startup events ≡ none
unfolding open_interval_at_startup
nothing_open = refl
