-- ===== src/Examples/Flush.antt =====
-- A flush into the tables, of a user with a focus left open by the last persisted event.
use digital_wellbeing.Common.{
  ℕ, ◌+◌, ◌≤◌, ◌≡◌, refl, true, ◌==◌, inl, inr, Bool-cases, some, none, List, [], ◌∷◌, arith,
}
use digital_wellbeing.Common.Map.{IsMap}
use digital_wellbeing.Blocking.Repo.{
  Database, upsert_deltas, flush_with_deltas, insert_events, last_of,
}
use digital_wellbeing.Blocking.Repo.Rows.{upsert_deltas-rows}
use digital_wellbeing.Store.Usage.{UsageTables}
use digital_wellbeing.Store.Usage.Batch.{row_at}
use digital_wellbeing.Blocking.Repo.Stored.{flush_with_deltas-stored, stored_for, deltas}
use digital_wellbeing.Platform.{PlatformEvent, TimedEvent, event_uid}
use digital_wellbeing.Store.Events.{get_last_events_for_uids, no_events, keep_rows}
use digital_wellbeing.Usage.{app_key_eq}
use digital_wellbeing.Usage.Accounting.{moments, user_ms}
use digital_wellbeing.Usage.Deltas.{Deltas, of_uid, sort_by_time}
use digital_wellbeing.Usage.FocusTime.{was_focused, since}
use digital_wellbeing.Usage.Order.{of_uid-Within}
use digital_wellbeing.Values.Blocked.{Uid}
use digital_wellbeing.Focus.{focus_ms}
use digital_wellbeing.Values.AppClass.{AppClass}
use digital_wellbeing.Values.WindowTitle.{WindowTitle}

abbrev firefox : AppClass
firefox = record { text = "org.mozilla.Firefox" }

abbrev win : WindowTitle
win = record { text = "win" }

abbrev new_id : AppClass → ℕ
new_id app = 7

abbrev log : List TimedEvent
log =
    record { event = PlatformEvent.focus firefox win 1000; timestamp = 4000 }
    ∷ record { event = PlatformEvent.unfocus 1000; timestamp = 9000 }
    ∷ []

abbrev db : Database
db = record {
  tables = record { apps = []; policies = []; schedules = []; app_categories = [] };
  usage = record { by_app = []; by_title = []; by_category = [] };
  events =
      (
        1,
        record {
          event_type = 0;
          user_id = 1000;
          timestamp = 500;
          app_class = some "org.gimp";
          title = none;
        },
      )
      ∷ [];
}

stored : (flush_with_deltas new_id 2 true log (1000 ∷ []) 10000 [] db).0 ≡ true
unfolding flush_with_deltas
stored = refl

last_event : (v : Uid) → since (last_of new_id (1000 ∷ []) db.events v) ≤ 500
unfolding last_of get_last_events_for_uids no_events keep_rows
last_event v = elim (Bool-cases (v == 1000)) [ inl same ↦ ground arith | inr other ↦ ground arith ]

flush_with_deltas-stored_example :
    let db' = (flush_with_deltas new_id 2 true log (1000 ∷ []) 10000 [] db).2 in
    let last = last_of new_id (1000 ∷ []) db.events 1000 in
    (stored_for 1000 db'.usage.by_app
        + user_ms 1000 (deltas new_id 2 log (1000 ∷ []) 10000 [] db).agg_open
      ≡ stored_for 1000 db.usage.by_app
        + focus_ms (was_focused last) (since last) (moments (sort_by_time (of_uid 1000 log))) 10000)
    × IsMap app_key_eq db'.usage.by_app
    × (insert_events 2 log db.events ≡ some db'.events)
unfolding event_uid
flush_with_deltas-stored_example =
    flush_with_deltas-stored new_id 2 log (1000 ∷ []) 10000 [] db true 1000 (omega arith)
      (omega arith, (omega arith, tt)) tt
      (λ v. (
        omega (arith, last_event v),
        of_uid-Within v _ 10000 log (
          (omega (arith, last_event v), omega arith),
          ((omega (arith, last_event v), omega arith), tt),
        ),
      ))
      refl stored

-- Two closed intervals of one application and one that is open, onto a row that has some of both.
abbrev intervals : Deltas
intervals = record {
  agg_closed = record {
    by_app = ((1000, ("1970-01-01", 7)), 60) ∷ ((1000, ("1970-01-01", 7)), 40) ∷ [];
    by_title = [];
  };
  agg_open = record { by_app = ((1000, ("1970-01-01", 7)), 25) ∷ []; by_title = [] };
  cache = [];
}

abbrev stored_before : UsageTables
stored_before = record db.usage {
  by_app = ((1000, ("1970-01-01", 7)), record { closed_millis = 500; open_millis = 90 }) ∷ [];
}

upsert_deltas-rows_example :
    let r =
      row_at app_key_eq
        (1000, ("1970-01-01", 7))
        (upsert_deltas db.tables intervals stored_before).by_app in
    (r.closed_millis ≡ 600) × (r.open_millis ≡ 25)
upsert_deltas-rows_example =
    upsert_deltas-rows "1970-01-01" 1000 7 db.tables intervals stored_before
