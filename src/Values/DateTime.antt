-- ===== src/Values/DateTime.antt =====
-- DateTime<Utc> by what the program observes of it: epoch milliseconds, the day number since the
-- epoch (`date_naive`), `num_days_from_sunday`, `hour` and `minute`. chrono computes these.
use digital_wellbeing.Common.{ℕ, ◌<◌}

pub record DateTime : Type 0 where
  pub millis : ℕ
  pub date : ℕ
  pub weekday : ℕ
  pub hour : ℕ
  pub minute : ℕ

-- What chrono documents of the observations.
pub record IsDateTime (t : DateTime) : Type 0 where
  pub weekday_lt : t.weekday < 7
  pub hour_lt : t.hour < 24
  pub minute_lt : t.minute < 60
