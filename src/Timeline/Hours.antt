-- ===== src/Timeline/Hours.antt =====
-- `day_segment` and `compute_hourly_buckets` of crates/gui/src/dashboard/timeline.rs. The hour starts
-- of a UTC date are an hour apart from its midnight on.
pub mod Shares
use Prim.Native.String.{String}
use digital_wellbeing.Common.{
  ℕ, zero, suc, ◌+◌, ◌-◌, ◌*◌, ◌/◌, ◌%◌, min, max, ◌==◌, leb, Bool, if◌then◌else◌, Option, none,
  some, unwrap_or, List, [], ◌∷◌, ◌++◌,
}
use digital_wellbeing.Clock.{split_by_utc_day}
use digital_wellbeing.Timeline.{TimelineBlock, DayTimeline}

-- The loop of `day_segment`.
unfoldable pub find_day : ℕ → ℕ → List (ℕ × ℕ) → Option (ℕ × ℕ)
find_day start_ms day_start [] = none
find_day start_ms day_start ((seg_day, dur) ∷ segs) =
    let seg_start = max start_ms day_start in
    if seg_day == day_start
    then some (seg_start, seg_start + dur)
    else find_day start_ms day_start segs

unfoldable pub day_segment : ℕ → ℕ → ℕ → Option (ℕ × ℕ)
unfolding find_day
day_segment start_ms end_ms day_start =
    find_day start_ms day_start (split_by_utc_day start_ms end_ms)

pub record TimelineFragment : Type 0 where
  pub app_class : String
  pub display_name : String
  pub millis : ℕ
  pub is_gap : Bool
  pub start_offset : ℕ

pub record HourlyBucket : Type 0 where
  pub hour : ℕ
  pub fragments : List TimelineFragment
  pub total_millis : ℕ

-- `buckets[h].fragments.push(fragment)` and `buckets[h].total_millis += millis`
unfoldable pub push_fragment : ℕ → TimelineFragment → List HourlyBucket → List HourlyBucket
push_fragment h f [] = []
push_fragment zero f (b ∷ bs) =
    record b { fragments = b.fragments ++ f ∷ []; total_millis = b.total_millis + f.millis } ∷ bs
push_fragment (suc h) f (b ∷ bs) = b ∷ push_fragment h f bs

unfoldable pub hour_start : ℕ → ℕ → ℕ
hour_start day_start h = day_start + h * 3600000

unfoldable pub hour_end : ℕ → ℕ → ℕ
unfolding hour_start
hour_end day_start h = if h == 23 then day_start + 86400000 else hour_start day_start (h + 1)

-- The part of a span that is in an hour, as a fragment.
unfoldable pub fragment : ℕ → TimelineBlock → ℕ → ℕ → ℕ → TimelineFragment
unfolding hour_start hour_end
fragment day_start block start_ms end_ms h =
    let from = max (hour_start day_start h) start_ms in
    record {
      app_class = block.app_class;
      display_name = block.display_name;
      millis = min end_ms (hour_end day_start h) - from;
      is_gap = block.is_gap;
      start_offset = from - hour_start day_start h;
    }

-- `for h in start_hour..=end_hour`, by the number of hours left; an empty part is skipped.
unfoldable pub fill_hours :
    ℕ → TimelineBlock → ℕ → ℕ → ℕ → ℕ → List HourlyBucket → List HourlyBucket
unfolding fragment push_fragment
fill_hours day_start block start_ms end_ms zero h buckets = buckets
fill_hours day_start block start_ms end_ms (suc left) h buckets =
    let f = fragment day_start block start_ms end_ms h in
    fill_hours day_start block start_ms end_ms left (h + 1)
      (if f.millis == 0 then buckets else push_fragment h f buckets)

-- The end of a block; an open one lasts until now, and for a millisecond at least.
unfoldable pub block_end : ℕ → TimelineBlock → ℕ
block_end now_ms block = unwrap_or block.finish (max now_ms (block.start + 1))

-- One round of the loop over the blocks.
unfoldable pub add_block : ℕ → ℕ → TimelineBlock → List HourlyBucket → List HourlyBucket
unfolding fill_hours
add_block day_start now_ms block buckets =
    elim (day_segment block.start (block_end now_ms block) day_start) [
      | some (start_ms, end_ms) ↦
          let start_hour = (start_ms - day_start) / 3600000 % 24 in
          let end_hour = min ((end_ms - 1 - day_start) / 3600000) 23 in
          fill_hours day_start block start_ms end_ms (end_hour + 1 - start_hour) start_hour buckets
      | none ↦ buckets
    ]

unfoldable pub add_blocks : ℕ → ℕ → List TimelineBlock → List HourlyBucket → List HourlyBucket
unfolding add_block
add_blocks day_start now_ms [] buckets = buckets
add_blocks day_start now_ms (b ∷ bs) buckets =
    add_blocks day_start now_ms bs (add_block day_start now_ms b buckets)

-- The empty buckets of the hours from one on.
unfoldable pub empty_buckets : ℕ → ℕ → List HourlyBucket
empty_buckets zero hour = []
empty_buckets (suc left) hour =
    record { hour = hour; fragments = []; total_millis = 0 } ∷ empty_buckets left (hour + 1)

-- `fragments.sort_by_key(|f| f.start_offset)` of every bucket.
unfoldable pub insert_by_offset : TimelineFragment → List TimelineFragment → List TimelineFragment
insert_by_offset f [] = f ∷ []
insert_by_offset f (g ∷ gs) =
    if leb f.start_offset g.start_offset then f ∷ g ∷ gs else g ∷ insert_by_offset f gs

unfoldable pub sort_by_offset : List TimelineFragment → List TimelineFragment
unfolding insert_by_offset
sort_by_offset [] = []
sort_by_offset (f ∷ fs) = insert_by_offset f (sort_by_offset fs)

unfoldable pub sort_buckets : List HourlyBucket → List HourlyBucket
unfolding sort_by_offset
sort_buckets [] = []
sort_buckets (b ∷ bs) = record b { fragments = sort_by_offset b.fragments } ∷ sort_buckets bs

unfoldable pub compute_hourly_buckets : DayTimeline → ℕ → List HourlyBucket
compute_hourly_buckets timeline now_ms =
    sort_buckets (add_blocks timeline.date now_ms timeline.blocks (empty_buckets 24 0))
