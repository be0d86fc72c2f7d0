-- ===== src/Clock/Split.antt =====
-- What the split of a span across days guarantees.
use digital_wellbeing.Common.{
  ℕ, zero, suc, ◌+◌, ◌-◌, ◌*◌, ◌%◌, ◌≡◌, ◌<◌, ◌≤◌, min, max, List, [], ◌∷◌, leb, ltb, ◌==◌, inl,
  inr, Bool-cases, if◌then◌else◌, arith, ltb→lt,
}
use digital_wellbeing.Clock.{day_ms, split_loop, split_by_utc_day}

-- The time that the segments count for the day that opens at `day`.
abbrev pub day_share : ℕ → List (ℕ × ℕ) → ℕ
day_share day [] = 0
day_share day ((d, dur) ∷ segs) = (if d == day then dur else 0) + day_share day segs

abbrev pub total : List (ℕ × ℕ) → ℕ
total [] = 0
total ((d, dur) ∷ segs) = dur + total segs

-- The part of the span from `start_ms` to `end_ms` that lies in the day.
abbrev pub overlap : ℕ → ℕ → ℕ → ℕ
overlap day start_ms end_ms = min end_ms (day + day_ms) - max start_ms day

-- Fuel for every midnight up to the end, from the one that opens the cursor's day.
abbrev Reaches : ℕ → ℕ → ℕ → Type 0
Reaches fuel cursor end_ms = end_ms - cursor ≤ fuel * day_ms - cursor % day_ms

day_share-split_loop :
    (n fuel cursor end_ms : ℕ)
    → Reaches fuel cursor end_ms
    → day_share (n * day_ms) (split_loop fuel cursor end_ms) ≡ overlap (n * day_ms) cursor end_ms
unfolding split_loop
day_share-split_loop n zero cursor end_ms h = omega arith
day_share-split_loop n (suc fuel) cursor end_ms h = elim (Bool-cases (ltb cursor end_ms)) [
  | inl more ↦ rw more (
      ground (
        arith,
        day_share-split_loop n fuel (min end_ms (cursor - cursor % day_ms + day_ms)) end_ms,
      ))
  | inr done ↦ rw done (ground arith)
]

total-split_loop :
    (fuel cursor end_ms : ℕ)
    → Reaches fuel cursor end_ms
    → total (split_loop fuel cursor end_ms) ≡ end_ms - cursor
unfolding split_loop
total-split_loop zero cursor end_ms h = omega arith
total-split_loop (suc fuel) cursor end_ms h = elim (Bool-cases (ltb cursor end_ms)) [
  | inl more ↦ rw more (
      ground (arith, total-split_loop fuel (min end_ms (cursor - cursor % day_ms + day_ms)) end_ms))
  | inr done ↦ rw done (ground arith)
]

-- Every UTC day is credited with exactly its part of the span: the milliseconds of the span
-- between that day's midnight and the next, for every day and every span.
pub day_share-split :
    (n start_ms end_ms : ℕ)
    → day_share (n * day_ms) (split_by_utc_day start_ms end_ms)
      ≡ overlap (n * day_ms) start_ms end_ms
unfolding split_by_utc_day
day_share-split n start_ms end_ms = elim (Bool-cases (leb end_ms start_ms)) [
  | inl short ↦ rw short (ground arith)
  | inr long ↦ rw long (day_share-split_loop n _ start_ms end_ms (omega arith))
]

-- The durations of the segments add up to the length of the span, with no millisecond lost or
-- counted twice; a span that ends before it starts has none.
pub total-split :
    (start_ms end_ms : ℕ) → total (split_by_utc_day start_ms end_ms) ≡ end_ms - start_ms
unfolding split_by_utc_day
total-split start_ms end_ms = elim (Bool-cases (leb end_ms start_ms)) [
  | inl short ↦ rw short (ground arith)
  | inr long ↦ rw long (total-split_loop _ start_ms end_ms (omega arith))
]

-- A segment opens at a midnight, after `prev`, and is neither empty nor longer than a day.
abbrev pub DaysFrom : ℕ → List (ℕ × ℕ) → Type 0
DaysFrom from [] = Unit
DaysFrom from ((d, dur) ∷ segs) =
    (from ≤ d) × (d % day_ms ≡ 0) × (0 < dur) × (dur ≤ day_ms) × DaysFrom (d + day_ms) segs

DaysFrom-split_loop :
    (fuel cursor end_ms from : ℕ)
    → (cursor < end_ms → from ≤ cursor - cursor % day_ms)
    → DaysFrom from (split_loop fuel cursor end_ms)
unfolding split_loop
DaysFrom-split_loop zero cursor end_ms from h = tt
DaysFrom-split_loop (suc fuel) cursor end_ms from h = elim (Bool-cases (ltb cursor end_ms)) [
  | inl more ↦
      let lt = ltb→lt cursor end_ms more in
      rw more (
        h lt,
        omega arith,
        omega arith,
        omega arith,
        DaysFrom-split_loop fuel (min end_ms (cursor - cursor % day_ms + day_ms)) end_ms
            (cursor - cursor % day_ms + day_ms) (λ more'. omega arith),
      )
  | inr done ↦ rw done tt
]

-- The segments open at midnights, in increasing order and no two on the same day, and each lasts
-- more than nothing and at most a day.
pub DaysFrom-split : (start_ms end_ms : ℕ) → DaysFrom 0 (split_by_utc_day start_ms end_ms)
unfolding split_by_utc_day
DaysFrom-split start_ms end_ms = elim (Bool-cases (leb end_ms start_ms)) [
  | inl short ↦ rw short tt
  | inr long ↦ rw long (DaysFrom-split_loop _ start_ms end_ms 0 (λ h. omega arith))
]
