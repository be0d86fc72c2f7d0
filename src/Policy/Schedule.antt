-- ===== src/Policy/Schedule.antt =====
-- When a schedule window is active.
use digital_wellbeing.Common.{ℕ, ◌+◌, ◌-◌, ◌%◌, ◌<◌, ◌≡◌, ◌≢◌, ltb, arith}
use digital_wellbeing.Policy.{TimeWindow, minute_matches}

-- The minutes of the day since the window last opened, and the window's length, on a clock of 1440
-- minutes.
abbrev pub since : ℕ → ℕ → ℕ
since start minute = (minute + 1440 - start) % 1440

-- For minutes of the day, a window whose ends differ is open exactly while the time since its
-- opening, taken round midnight, is shorter than its length taken round midnight.
pub minute_matches-cyclic :
    (w : TimeWindow) (minute : ℕ)
    → w.start_minute < 1440
    → w.end_minute < 1440
    → w.start_minute ≢ w.end_minute
    → minute < 1440
    → minute_matches w minute
      ≡ ltb (since w.start_minute minute) (since w.start_minute w.end_minute)
unfolding minute_matches
minute_matches-cyclic w minute hs he ne hm = ground arith
