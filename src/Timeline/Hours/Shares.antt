-- ===== src/Timeline/Hours/Shares.antt =====
-- Each hour's bucket counts the time that the blocks have in that hour.
use digital_wellbeing.Common.{
  ℕ, zero, suc, ◌+◌, ◌-◌, ◌*◌, ◌/◌, ◌%◌, ◌≤◌, ◌<◌, ◌≡◌, refl, ◌∙◌, min, max, ◌==◌, leb, ltb, ◌&&◌,
  if◌then◌else◌, none, some, List, [], ◌∷◌, length, if_same, ap, ◌⊎◌, inl, inr, Bool-cases,
  Option-cases, arith,
}
use digital_wellbeing.Clock.{day_ms, split_by_utc_day}
use digital_wellbeing.Clock.Split.{day_share, overlap, DaysFrom, day_share-split, DaysFrom-split}
use digital_wellbeing.Timeline.{TimelineBlock, DayTimeline}
use digital_wellbeing.Timeline.Hours.{
  HourlyBucket, TimelineFragment, find_day, day_segment, push_fragment, hour_start, hour_end,
  fragment, fill_hours, block_end, add_block, add_blocks, empty_buckets, sort_buckets,
  compute_hourly_buckets,
}

-- The total of the bucket at an index.
abbrev pub total_at : ℕ → List HourlyBucket → ℕ
total_at k [] = 0
total_at zero (b ∷ bs) = b.total_millis
total_at (suc k) (b ∷ bs) = total_at k bs

-- The part of a span that lies in the hour `h` of the day.
abbrev pub hour_overlap : ℕ → ℕ → ℕ → ℕ → ℕ
hour_overlap day_start h start_ms end_ms =
    min end_ms (day_start + (h + 1) * 3600000) - max start_ms (day_start + h * 3600000)

total_at-push :
    (k h : ℕ) (f : TimelineFragment) (bs : List HourlyBucket)
    → h < length bs
    → (total_at k (push_fragment h f bs) ≡ total_at k bs + (if h == k then f.millis else 0))
      × (length (push_fragment h f bs) ≡ length bs)
unfolding push_fragment
total_at-push k h f [] le = ground arith
total_at-push zero zero f (b ∷ bs) le = (ground arith, refl)
total_at-push (suc k) zero f (b ∷ bs) le = (ground arith, refl)
total_at-push zero (suc h) f (b ∷ bs) le =
    let (same, long) = total_at-push zero h f bs (omega arith) in (ground arith, omega arith)
total_at-push (suc k) (suc h) f (b ∷ bs) le =
    let (same, long) = total_at-push k h f bs (omega arith) in (ground arith, omega arith)

module _ (day_start : ℕ) (block : TimelineBlock) (start_ms end_ms : ℕ) where
  fragment-overlap :
      (h : ℕ)
      → h < 24
      → (fragment day_start block start_ms end_ms h).millis
        ≡ hour_overlap day_start h start_ms end_ms
  unfolding fragment hour_start hour_end
  fragment-overlap h le = ground arith

  -- The hours that the loop visits get their part of the span, the others nothing.
  total_at-fill_hours :
      (k left h : ℕ) (bs : List HourlyBucket)
      → h + left ≤ 24
      → length bs ≡ 24
      → (total_at k (fill_hours day_start block start_ms end_ms left h bs)
          ≡ total_at k bs
            + (if leb h k && ltb k (h + left) then hour_overlap day_start k start_ms end_ms else 0))
        × (length (fill_hours day_start block start_ms end_ms left h bs) ≡ 24)
  unfolding fill_hours
  total_at-fill_hours k zero h bs le long = (ground arith, long)
  total_at-fill_hours k (suc left) h bs le long =
      let f = fragment day_start block start_ms end_ms h in
      let part = fragment-overlap h (omega arith) in
      let (pushed, kept) = total_at-push k h f bs (omega arith) in
      let alike = if_same (λ j. hour_overlap day_start j start_ms end_ms) 0 k h in
      elim (Bool-cases (f.millis == 0)) [
        | inl nothing ↦
            let (rest, long') = total_at-fill_hours k left (h + 1) bs (omega arith) long in
            rw nothing (ground arith, long')
        | inr more ↦
            let (rest, long') =
              total_at-fill_hours k left (h + 1) (push_fragment h f bs) (omega arith)
                (omega arith) in
            rw more (ground arith, long')
      ]

day_share-before :
    (day from : ℕ) (segs : List (ℕ × ℕ)) → day < from → DaysFrom from segs → day_share day segs ≡ 0
day_share-before day from [] lt h = refl
day_share-before day from ((d, dur) ∷ segs) lt h =
    let (le, opens, lasts, short, later) = h in
    ground (arith, day_share-before day (d + day_ms) segs (omega arith) later)

-- The segment that is found is the day's share.
find_day-share :
    (start_ms day from : ℕ) (segs : List (ℕ × ℕ))
    → DaysFrom from segs
    → ((find_day start_ms day segs ≡ none) × (day_share day segs ≡ 0))
      ⊎ (find_day start_ms day segs
          ≡ some (max start_ms day, max start_ms day + day_share day segs))
unfolding find_day
find_day-share start_ms day from [] h = inl (refl, refl)
find_day-share start_ms day from ((d, dur) ∷ segs) h =
    let (le, opens, lasts, short, later) = h in
    elim (Bool-cases (d == day)) [
      | inl same ↦
          let none_later = day_share-before day (d + day_ms) segs (ground arith) later in
          rw same (inr (ap (λ s. some (max start_ms day, max start_ms day + s)) (omega arith)))
      | inr other_day ↦ rw other_day (elim (find_day-share start_ms day (d + day_ms) segs later) [
        | inl (absent, nothing) ↦ inl (absent, omega arith)
        | inr found ↦
            inr (found ∙ ap (λ s. some (max start_ms day, max start_ms day + s)) (omega arith))
      ])
    ]

-- When a block ends: a closed one where it was closed, an open one now, but a millisecond after
-- its start at least.
abbrev pub lasts_until : ℕ → TimelineBlock → ℕ
lasts_until now b = elim b.finish [
  | some closed ↦ closed
  | none ↦ if ltb b.start now then now else b.start + 1
]

block_end-lasts_until : (now : ℕ) (b : TimelineBlock) → block_end now b ≡ lasts_until now b
unfolding block_end
block_end-lasts_until now b = elim (Option-cases b.finish) [
  | inl still ↦ rw (still, block_end) (ground arith)
  | inr (closed, ended) ↦ rw (ended, block_end) refl
]

-- A block's part of an hour.
abbrev pub block_share : ℕ → ℕ → ℕ → TimelineBlock → ℕ
block_share day_start now k b = hour_overlap day_start k b.start (lasts_until now b)

-- The hours from the one of a part's start to the one of its end are all that the span reaches.
visited_hours :
    (day start_ms end_ms k : ℕ)
    → k < 24
    → let from = max start_ms day in
      let to = from + overlap day start_ms end_ms in
      let first = (from - day) / 3600000 % 24 in
      let left = min ((to - 1 - day) / 3600000) 23 + 1 - first in
      (if leb first k && ltb k (first + left) then hour_overlap day k from to else 0)
      ≡ hour_overlap day k start_ms end_ms
visited_hours day start_ms end_ms k lt = ground arith

module _ (n now : ℕ) where
  add_block-share :
      (k : ℕ) (b : TimelineBlock) (bs : List HourlyBucket)
      → k < 24
      → length bs ≡ 24
      → (total_at k (add_block (n * day_ms) now b bs)
          ≡ total_at k bs + block_share (n * day_ms) now k b)
        × (length (add_block (n * day_ms) now b bs) ≡ 24)
  unfolding add_block day_segment
  add_block-share k b bs lt long =
      let day = n * day_ms in
      let share = day_share-split n b.start (block_end now b) in
      let same_end = ap (hour_overlap day k b.start) (block_end-lasts_until now b) in
      elim (find_day-share b.start day 0 (split_by_utc_day b.start (block_end now b))
        (DaysFrom-split b.start (block_end now b))) [
          | inl (absent, nothing) ↦ rw (absent, add_block) (omega (arith, same_end), long)
          | inr found ↦
              rw (found, add_block)
                (let from = max b.start day in
                  let to = from + day_share day (split_by_utc_day b.start (block_end now b)) in
                  let first = (from - day) / 3600000 % 24 in
                  let (filled, long') =
                    total_at-fill_hours day b from to k
                      (min ((to - 1 - day) / 3600000) 23 + 1 - first) first bs (omega arith) long in
                  (
                    filled
                        ∙ ap (λ x. total_at k bs + x)
                            (rw share (visited_hours day b.start (block_end now b) k lt)
                              ∙ same_end),
                    long',
                  ))
        ]

  -- The time that the blocks have in an hour.
  abbrev pub blocks_share : ℕ → List TimelineBlock → ℕ
  blocks_share k [] = 0
  blocks_share k (b ∷ bs) = block_share (n * day_ms) now k b + blocks_share k bs

  add_blocks-share :
      (k : ℕ) (blocks : List TimelineBlock) (buckets : List HourlyBucket)
      → k < 24
      → length buckets ≡ 24
      → total_at k (add_blocks (n * day_ms) now blocks buckets)
        ≡ total_at k buckets + blocks_share k blocks
  unfolding add_blocks
  add_blocks-share k [] buckets lt long = omega arith
  add_blocks-share k (b ∷ bs) buckets lt long =
      let (same, long') = add_block-share k b buckets lt long in
      let rest = add_blocks-share k bs (add_block (n * day_ms) now b buckets) lt long' in
      omega arith

total_at-sort : (k : ℕ) (bs : List HourlyBucket) → total_at k (sort_buckets bs) ≡ total_at k bs
unfolding sort_buckets
total_at-sort k [] = refl
total_at-sort zero (b ∷ bs) = refl
total_at-sort (suc k) (b ∷ bs) = total_at-sort k bs

empty_buckets_lem :
    (k left hour : ℕ)
    → (total_at k (empty_buckets left hour) ≡ 0) × (length (empty_buckets left hour) ≡ left)
unfolding empty_buckets
empty_buckets_lem k zero hour = (refl, refl)
empty_buckets_lem zero (suc left) hour =
    let (same, long) = empty_buckets_lem zero left (hour + 1) in (refl, omega arith)
empty_buckets_lem (suc k) (suc left) hour =
    let (same, long) = empty_buckets_lem k left (hour + 1) in (same, omega arith)

-- The total of each of the 24 hours is exactly the time that the timeline's blocks have between
-- that hour's start and the next, also for blocks that begin before the day or end after it; a
-- block that is still open lasts until now, and for a millisecond at least.
pub compute_hourly_buckets-total_at :
    (n now k : ℕ) (timeline : DayTimeline)
    → timeline.date ≡ n * day_ms
    → k < 24
    → total_at k (compute_hourly_buckets timeline now) ≡ blocks_share n now k timeline.blocks
unfolding compute_hourly_buckets
compute_hourly_buckets-total_at n now k timeline midnight lt =
    let (nothing, long) = empty_buckets_lem k 24 0 in
    let filled = add_blocks-share n now k timeline.blocks (empty_buckets 24 0) lt long in
    rw midnight (total_at-sort k _ ∙ filled ∙ omega arith)
