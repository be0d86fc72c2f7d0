-- ===== src/Examples/Timeline.antt =====
-- A day's timeline with a focus from before midnight, a gap, and an application still in focus.
use digital_wellbeing.Common.{ℕ, ◌≡◌, refl, Option, some, List, [], ◌∷◌, arith}
use digital_wellbeing.Clock.{split_by_utc_day}
use digital_wellbeing.Focus.{focus_ms}
use digital_wellbeing.Timeline.{
  DayEventRow, DayTimeline, build_day_timeline, seed_pending, make_focus_block, open_block,
  focus_total, sum, fill_time_gaps, sort_by_start, push_blocks, close_pending, block_millis,
}
use digital_wellbeing.Timeline.Agreement.{row_moments, focused_before, build_day_timeline-focus_ms}
use digital_wellbeing.Timeline.Hours.{
  compute_hourly_buckets, sort_buckets, add_blocks, day_segment, block_end, empty_buckets,
}
use digital_wellbeing.Timeline.Hours.Shares.{
  total_at, blocks_share, compute_hourly_buckets-total_at,
}
use digital_wellbeing.Values.AppClass.{AppClass}
use digital_wellbeing.Values.EventType
use digital_wellbeing.Values.EventType.{EventType}

abbrev gimp : AppClass
gimp = record { text = "org.gimp" }

abbrev rows : List DayEventRow
rows =
    record { event_type = EventType.idle; timestamp = 86405000; app_class = gimp }
    ∷ record { event_type = EventType.focus; timestamp = 86410000; app_class = gimp }
    ∷ []

abbrev seed : Option (ℕ × AppClass)
seed = some (86300000, gimp)

build_day_timeline-focus_ms_example :
    (build_day_timeline rows 86400000 [] 86420000 seed).total_focus_millis
    ≡ focus_ms (focused_before 86400000 seed) 86400000 (row_moments rows) 86420000
build_day_timeline-focus_ms_example =
    build_day_timeline-focus_ms rows 86400000 86420000 [] seed
      (omega arith, (omega arith, omega arith))

build_total : (build_day_timeline rows 86400000 [] 86420000 seed).total_focus_millis ≡ 15000
unfolding build_day_timeline focus_total sum fill_time_gaps sort_by_start push_blocks EventType.same
    EventType.is_close close_pending seed_pending make_focus_block open_block block_millis
build_total = refl

-- A closed block across midnight and two hours, and an open one.
abbrev timeline : DayTimeline
timeline = record {
  date = 86400000;
  blocks =
      make_focus_block 86300000 90001000 "org.gimp" [] EventType.idle
      ∷ open_block 93600000 "org.gimp" []
      ∷ [];
  total_focus_millis = 0;
}

compute_hourly_buckets-total_at_example :
    total_at 1 (compute_hourly_buckets timeline 93700000)
    ≡ blocks_share 1 93700000 1 timeline.blocks
compute_hourly_buckets-total_at_example =
    compute_hourly_buckets-total_at 1 93700000 1 timeline refl (omega arith)

hour_total : total_at 1 (compute_hourly_buckets timeline 93700000) ≡ 1000
unfolding compute_hourly_buckets make_focus_block open_block sort_buckets add_blocks day_segment
    split_by_utc_day block_end empty_buckets
hour_total = refl
