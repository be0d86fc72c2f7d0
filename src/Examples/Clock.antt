-- ===== src/Examples/Clock.antt =====
-- Spans across midnight, after the tests of crates/core/src/clock.rs.
use digital_wellbeing.Common.{◌*◌, ◌≡◌, refl, [], ◌∷◌}
use digital_wellbeing.Clock.{day_ms, split_by_utc_day}
use digital_wellbeing.Clock.Split.{day_share, overlap, day_share-split}

split_three_days :
    split_by_utc_day 86399000 172805000 ≡ (0, 1000) ∷ (86400000, 86400000) ∷ (172800000, 5000) ∷ []
unfolding split_by_utc_day
split_three_days = refl

split_empty : split_by_utc_day 200 100 ≡ []
unfolding split_by_utc_day
split_empty = refl

day_share-split_example :
    day_share (1 * day_ms) (split_by_utc_day 86399000 172805000)
    ≡ overlap (1 * day_ms) 86399000 172805000
day_share-split_example = day_share-split 1 86399000 172805000
