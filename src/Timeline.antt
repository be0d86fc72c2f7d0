-- ===== src/Timeline.antt =====
-- crates/gui/src/dashboard/timeline.rs: the client's day timeline from the day's event rows. A day
-- is known by its opening midnight, and `ms_to_dt` is the identity on epoch milliseconds.
pub mod Hours
pub mod Agreement
pub mod Recorded
use Prim.Native.String.{String}
use digital_wellbeing.Common.{
  ℕ, ◌+◌, ◌-◌, Bool, true, false, not, leb, ltb, if◌then◌else◌, Option, none, some, unwrap_or, List,
  [], ◌∷◌, ◌++◌, map, filter,
}
use digital_wellbeing.Common.Eq.{string_eq}
use digital_wellbeing.Common.Map.{get, keep_if}
use digital_wellbeing.Values.AppClass.{AppClass}
use digital_wellbeing.Values.EventType
use digital_wellbeing.Values.EventType.{EventType, is_close, same}

-- `DayEventRow` of crates/core, as far as it is read here.
pub record DayEventRow : Type 0 where
  pub event_type : EventType
  pub timestamp : ℕ
  pub app_class : AppClass

-- `TimelineBlock` of crates/gui/src/dashboard/domain.rs; `finish` is its field `end`.
pub record TimelineBlock : Type 0 where
  pub app_class : String
  pub display_name : String
  pub start : ℕ
  pub finish : Option ℕ
  pub event_type : EventType
  pub is_gap : Bool

abbrev pub Names : Type 0
Names = List (String × String)

unfoldable pub display_name : String → Names → String
display_name app_class names = unwrap_or (get string_eq app_class names) app_class

unfoldable pub make_focus_block : ℕ → ℕ → String → Names → EventType → TimelineBlock
make_focus_block start_ts end_ts app_class names event_type = record {
  app_class = app_class;
  display_name = display_name app_class names;
  start = start_ts;
  finish = some end_ts;
  event_type = event_type;
  is_gap = false;
}

-- The block that is still open after the last event.
unfoldable pub open_block : ℕ → String → Names → TimelineBlock
open_block start_ts app_class names = record {
  app_class = app_class;
  display_name = display_name app_class names;
  start = start_ts;
  finish = none;
  event_type = EventType.focus;
  is_gap = false;
}

abbrev pub Pending : Type 0
Pending = Option (ℕ × String)

-- `pending_focus.take()` and the block that is pushed if a focus was pending.
unfoldable pub close_pending : ℕ → EventType → Names → Pending → List TimelineBlock
close_pending at t names none = []
close_pending at t names (some (st, app)) = make_focus_block st at app names t ∷ []

-- The blocks that the loop over the events and the step after it push, in their order.
unfoldable pub push_blocks : Names → List DayEventRow → Pending → List TimelineBlock
push_blocks names [] none = []
push_blocks names [] (some (st, app)) = open_block st app names ∷ []
push_blocks names (event ∷ events) pending =
    let refocused = push_blocks names events (some (event.timestamp, event.app_class.text)) in
    let idle = push_blocks names events none in
    let kept = push_blocks names events pending in
    if same event.event_type EventType.focus
    then close_pending event.timestamp EventType.focus names pending ++ refocused
    else if is_close event.event_type
    then close_pending event.timestamp event.event_type names pending ++ idle
    else kept

-- `blocks.sort_by_key(|b| b.start)`, which is stable.
unfoldable pub insert_by_start : TimelineBlock → List TimelineBlock → List TimelineBlock
insert_by_start b [] = b ∷ []
insert_by_start b (c ∷ cs) = if leb b.start c.start then b ∷ c ∷ cs else c ∷ insert_by_start b cs

unfoldable pub sort_by_start : List TimelineBlock → List TimelineBlock
unfolding insert_by_start
sort_by_start [] = []
sort_by_start (b ∷ bs) = insert_by_start b (sort_by_start bs)

unfoldable pub gap_block : ℕ → ℕ → TimelineBlock
gap_block from to = record {
  app_class = "";
  display_name = "";
  start = from;
  finish = some to;
  event_type = EventType.block;
  is_gap = true;
}

-- The gap between a block and the next, if there is time between them.
unfoldable pub gap_between : TimelineBlock → TimelineBlock → List TimelineBlock
unfolding gap_block
gap_between b next = elim b.finish [
  | some prev_end ↦ if ltb prev_end next.start then gap_block prev_end next.start ∷ [] else []
  | none ↦ []
]

-- `fill_time_gaps`
unfoldable pub fill_time_gaps : List TimelineBlock → List TimelineBlock
unfolding gap_between
fill_time_gaps [] = []
fill_time_gaps (b ∷ []) = b ∷ []
fill_time_gaps (b ∷ next ∷ rest) = b ∷ gap_between b next ++ fill_time_gaps (next ∷ rest)

unfoldable pub sum : List ℕ → ℕ
sum [] = 0
sum (n ∷ ns) = n + sum ns

-- The time of a block; an open one lasts until now.
unfoldable pub block_millis : ℕ → TimelineBlock → ℕ
block_millis now_ms b = unwrap_or b.finish now_ms - b.start

unfoldable pub focus_total : ℕ → List TimelineBlock → ℕ
focus_total now_ms blocks = sum (map (block_millis now_ms) (filter (λ b. not b.is_gap) blocks))

pub record DayTimeline : Type 0 where
  pub date : ℕ
  pub blocks : List TimelineBlock
  pub total_focus_millis : ℕ

-- The pending focus that the trailing event of the days before gives.
unfoldable pub seed_pending : ℕ → Option (ℕ × AppClass) → Pending
seed_pending day_start_ms none = none
seed_pending day_start_ms (some (ts, app)) =
    if ltb ts day_start_ms then some (day_start_ms, app.text) else none

unfoldable pub build_day_timeline :
    List DayEventRow → ℕ → Names → ℕ → Option (ℕ × AppClass) → DayTimeline
build_day_timeline events day_start_ms app_names now_ms seed =
    let blocks =
      fill_time_gaps
        (sort_by_start (push_blocks app_names events (seed_pending day_start_ms seed))) in
    record { date = day_start_ms; blocks = blocks; total_focus_millis = focus_total now_ms blocks }
