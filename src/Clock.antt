-- ===== src/Clock.antt =====
-- crates/core/src/clock.rs: the split of a time span across UTC days. Times are milliseconds since
-- the epoch, as natural numbers; the loop runs on fuel, one round for each day and two to spare.
pub mod Split
use digital_wellbeing.Common.{
  ℕ, zero, suc, ◌+◌, ◌-◌, ◌/◌, ◌%◌, min, List, [], ◌∷◌, leb, ltb, if◌then◌else◌,
}

abbrev pub day_ms : ℕ
day_ms = 86400000

-- The `while cursor < end_ms` loop; a segment is the day's opening midnight and a duration.
unfoldable pub split_loop : ℕ → ℕ → ℕ → List (ℕ × ℕ)
split_loop zero cursor end_ms = []
split_loop (suc fuel) cursor end_ms =
    let day_start = cursor - cursor % day_ms in
    let seg_end = min end_ms (day_start + day_ms) in
    let rest = split_loop fuel seg_end end_ms in
    if ltb cursor end_ms then (day_start, seg_end - cursor) ∷ rest else []

unfoldable pub split_by_utc_day : ℕ → ℕ → List (ℕ × ℕ)
unfolding split_loop
split_by_utc_day start_ms end_ms =
    if leb end_ms start_ms
    then []
    else split_loop ((end_ms - start_ms) / day_ms + 2) start_ms end_ms
