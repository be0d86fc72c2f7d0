-- ===== src/Store/Events.antt =====
-- crates/daemon/src/store/daos/events.rs: the append-only event table, oldest row first, and the CHECKs of
-- its definition in migrations/2026-07-18-000001_initial_schema/up.sql.
pub mod Accepted
pub mod Order
pub mod Readback
pub mod Split
use Prim.Native.String.{String}
use digital_wellbeing.Common.{
  ℕ, zero, suc, ◌+◌, Bool, true, false, not, ◌&&◌, ◌||◌, ◌==◌, leb, ltb, if◌then◌else◌, Option,
  none, some, is_some, unwrap_or, List, [], ◌∷◌, ◌++◌, map, filter, any, All,
}
use digital_wellbeing.Common.Eq.{nat_eq}
use digital_wellbeing.Common.Map.{get, insert}
use digital_wellbeing.Platform.{
  TimedEvent, PlatformEvent, event_type, event_uid, event_app_class, event_title,
}
use digital_wellbeing.Store.{as_i32}
use digital_wellbeing.Store.Usage.Reads.{sort_by}
use digital_wellbeing.Timeline.{DayEventRow}
use digital_wellbeing.Usage.Walk.{EventRow, unknown_app}
use digital_wellbeing.Values.AppClass
use digital_wellbeing.Values.AppClass.{AppClass}
use digital_wellbeing.Values.Blocked.{Uid}
use digital_wellbeing.Values.EventType
use digital_wellbeing.Values.EventType.{EventType, is_ignored_by_measurement}

-- A row with its id.
abbrev pub EventTable : Type 0
EventTable = List (ℕ × EventRow)

unfoldable pub char_count : String → ℕ
char_count String.[] = 0
char_count (String.◌∷◌ c s) = suc (char_count s)

abbrev pub is_focus_or_block : ℕ → Bool
is_focus_or_block code = code == 0 || (code == 8)

-- The CHECKs: a code of an event type, a title of at most 1024 characters, and an application and
-- a title for the focus and block events only.
unfoldable pub check_event : EventRow → Bool
unfolding char_count
check_event r =
    leb r.event_type 8
    && elim r.title [ some t ↦ leb (char_count t) 1024 | none ↦ true ]
    && (if is_focus_or_block r.event_type
        then is_some r.app_class && is_some r.title
        else not (is_some r.app_class) && not (is_some r.title))

-- The parameters of one row.
unfoldable pub row_of_event : TimedEvent → EventRow
unfolding event_type event_uid event_app_class event_title EventType.to_code
row_of_event timed = record {
  event_type = EventType.to_code (event_type timed.event);
  user_id = as_i32 (event_uid timed.event);
  timestamp = timed.timestamp;
  app_class = elim (event_app_class timed.event) [ some a ↦ some a.text | none ↦ none ];
  title = elim (event_title timed.event) [ some t ↦ some t.text | none ↦ none ];
}

-- The rows with the ids from the next one on.
unfoldable pub number_rows : ℕ → List TimedEvent → EventTable
unfolding row_of_event
number_rows next_id [] = []
number_rows next_id (timed ∷ events) =
    (next_id, row_of_event timed) ∷ number_rows (suc next_id) events

unfoldable pub all_valid : EventTable → Bool
unfolding check_event
all_valid [] = true
all_valid ((id, r) ∷ rows) = check_event r && all_valid rows

-- One INSERT of all the rows: if a CHECK fails, nothing is inserted.
unfoldable pub batch_insert_events : ℕ → List TimedEvent → EventTable → Option EventTable
unfolding number_rows all_valid
batch_insert_events next_id events t =
    if all_valid (number_rows next_id events) then some (t ++ number_rows next_id events) else none

abbrev pub earlier : ℕ × EventRow → ℕ × EventRow → Bool
earlier a b = leb a.1.timestamp b.1.timestamp

unfoldable pub day_row : EventRow → DayEventRow
unfolding EventType.try_from AppClass.new
day_row r = record {
  event_type = unwrap_or (EventType.try_from r.event_type) EventType.focus;
  timestamp = r.timestamp;
  app_class = elim r.app_class [
    | some s ↦ unwrap_or (AppClass.new s) unknown_app
    | none ↦ unknown_app
  ];
}

unfoldable pub get_day_events : Uid → ℕ → ℕ → EventTable → List DayEventRow
unfolding day_row sort_by
get_day_events uid start_millis end_millis t =
    map (λ e. day_row e.1)
      (sort_by earlier (
        filter
          (λ e.
            e.1.user_id == as_i32 uid
            && leb start_millis e.1.timestamp
            && ltb e.1.timestamp end_millis)
          t))

unfoldable pub get_event_range : ℕ → ℕ → EventTable → EventTable
unfolding sort_by
get_event_range start finish t =
    sort_by earlier (filter (λ e. leb start e.1.timestamp && leb e.1.timestamp finish) t)

abbrev pub is_measured : EventRow → Bool
is_measured r = not (elim (EventType.try_from r.event_type) [
  | some et ↦ is_ignored_by_measurement et
  | none ↦ false
])

-- MAX(timestamp) of the user's measured rows.
unfoldable pub max_timestamp : ℕ → EventTable → Option ℕ
unfolding EventType.try_from is_ignored_by_measurement
max_timestamp user [] = none
max_timestamp user ((id, r) ∷ t) =
    let rest = max_timestamp user t in
    if r.user_id == user && is_measured r
    then some
        (elim rest [ some m ↦ (if leb m r.timestamp then r.timestamp else m) | none ↦ r.timestamp ])
    else rest

-- The loop over the result, which keeps the last row of each user.
unfoldable pub keep_rows :
    EventTable → EventTable → List (Uid × Option EventRow) → List (Uid × Option EventRow)
unfolding max_timestamp
keep_rows whole [] results = results
keep_rows whole ((id, r) ∷ t) results =
    if is_some (get nat_eq r.user_id results)
      && elim (max_timestamp r.user_id whole) [ some m ↦ m == r.timestamp | none ↦ false ]
    then keep_rows whole t (insert nat_eq r.user_id (some r) results)
    else keep_rows whole t results

unfoldable pub no_events : List Uid → List (Uid × Option EventRow)
no_events [] = []
no_events (uid ∷ uids) = insert nat_eq uid none (no_events uids)

unfoldable pub get_last_events_for_uids : List Uid → EventTable → List (Uid × Option EventRow)
unfolding no_events keep_rows
get_last_events_for_uids uids t = keep_rows t t (no_events uids)

-- Whether a row comes after another of the same user, by the time and then by the id.
abbrev pub later : ℕ × EventRow → ℕ × EventRow → Bool
later a b = ltb b.1.timestamp a.1.timestamp || (b.1.timestamp == a.1.timestamp && ltb b.0 a.0)

-- The rows that are the first of their user in the descending order, if they are a focus.
unfoldable pub open_users : EventTable → EventTable → List Uid
unfolding EventType.try_from is_ignored_by_measurement
open_users whole [] = []
open_users whole (e ∷ t) =
    if is_measured e.1
      && e.1.event_type == 0
      && not (any (λ f. f.1.user_id == e.1.user_id && is_measured f.1 && later f e) whole)
    then e.1.user_id ∷ open_users whole t
    else open_users whole t

unfoldable pub get_uids_with_open_intervals : EventTable → List Uid
unfolding open_users
get_uids_with_open_intervals t = open_users t t
