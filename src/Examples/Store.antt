-- ===== src/Examples/Store.antt =====
-- Statements on small tables: policies, categories, daily usage and events.
use digital_wellbeing.Common.{
  ◌≡◌, refl, true, false, none, some, unwrap_or, List, [], ◌∷◌, ◌++◌, map, All, ltb→lt,
}
use digital_wellbeing.Common.Map.{get}
use digital_wellbeing.Categorization.{AiClassifier}
use digital_wellbeing.Platform.{event_uid, TimedEvent, PlatformEvent}
use digital_wellbeing.Policy.Repo
use digital_wellbeing.Policy.Retarget.{update-keeps_target}
use digital_wellbeing.Policy.Rows.{PolicyInput}
use digital_wellbeing.Store.{PolicyTableRow, Tables}
use digital_wellbeing.Store.Apps.{ensure_app, load_app}
use digital_wellbeing.Store.Categories.{Pair, pair_eq, resolve_category_map}
use digital_wellbeing.Store.Categories.Batch.{resolve_category_map-categories_of}
use digital_wellbeing.Store.Events.{char_count, batch_insert_events, number_rows, get_day_events}
use digital_wellbeing.Store.Events.Accepted.{IsEvent, batch_insert_events-accepts}
use digital_wellbeing.Store.Events.Readback.{seen, get_day_events-of_batch}
use digital_wellbeing.Store.Policies.{resolve_policies_for_app_full, find_policy}
use digital_wellbeing.Store.Selection.{count}
use digital_wellbeing.Store.Selection.Described.{IsInOrder, resolve_policies_for_app_full-selects}
use digital_wellbeing.Store.Usage.{UsageTable, AppKey, ClosedAppItem, OpenAppItem}
use digital_wellbeing.Store.Usage.Bars.{whole, bars-app_usage_summary}
use digital_wellbeing.Store.Usage.Reads.{daily_bar_totals, app_usage_summary}
use digital_wellbeing.Values.AppClass
use digital_wellbeing.Values.AppClass.{AppClass, app_class_eq}
use digital_wellbeing.Values.EffectKind
use digital_wellbeing.Values.TargetType

abbrev pub app_row : PolicyTableRow
app_row = record {
  id = 1;
  name = "no games";
  priority = 10;
  effect = 1;
  target_type = 0;
  app_id = some 7;
  category = none;
  domain_pattern = none;
  time_limit_minutes = none;
  user_id = 1000;
  created_by = 1000;
}

abbrev pub any_row : PolicyTableRow
any_row = record {
  id = 2;
  name = "nights";
  priority = 5;
  effect = 2;
  target_type = 3;
  app_id = none;
  category = none;
  domain_pattern = none;
  time_limit_minutes = some 60;
  user_id = 1000;
  created_by = 0;
}

abbrev pub other_row : PolicyTableRow
other_row = record {
  id = 3;
  name = "breaks";
  priority = 5;
  effect = 3;
  target_type = 3;
  app_id = none;
  category = none;
  domain_pattern = none;
  time_limit_minutes = some 30;
  user_id = 2000;
  created_by = 2000;
}

abbrev pub tables : Tables
tables = record {
  apps = record { id = 7; app_class = "steam" } ∷ record { id = 8; app_class = "Code" } ∷ [];
  policies = other_row ∷ any_row ∷ app_row ∷ [];
  schedules = record { policy_id = 2; start_minute = 1320; end_minute = 360; day_mask = 127 } ∷ [];
  app_categories =
      record {
        app_id = 7;
        user_id = 0;
        category = 2;
        display_name = some "Steam";
        icon_path = none;
        ignore = false;
      }
      ∷ record {
        app_id = 8;
        user_id = 0;
        category = 4;
        display_name = none;
        icon_path = none;
        ignore = false;
      }
      ∷ record {
        app_id = 7;
        user_id = 1000;
        category = 3;
        display_name = none;
        icon_path = none;
        ignore = false;
      }
      ∷ [];
}

abbrev pub limit_input : PolicyInput
limit_input = record {
  name = "evenings";
  effect = EffectKind.time_limit;
  target_type = TargetType.category;
  app_class = record { text = "?" };
  category_name = "Social";
  domain_pattern = "?";
  priority = 20;
  time_limit_minutes = 45;
  schedule_json = "[]";
  user_id = 1000;
}

resolves_by_night :
    resolve_policies_for_app_full 7 (3 ∷ []) 1000 2 1400 tables ≡ app_row ∷ any_row ∷ []
unfolding resolve_policies_for_app_full
resolves_by_night = refl

resolves_by_day : resolve_policies_for_app_full 7 (3 ∷ []) 1000 2 600 tables ≡ app_row ∷ []
unfolding resolve_policies_for_app_full
resolves_by_day = refl

resolve_policies_for_app_full-selects_example :
    (count (λ r. true) (resolve_policies_for_app_full 7 (3 ∷ []) 1000 2 1400 tables) ≡ 2)
    × IsInOrder (resolve_policies_for_app_full 7 (3 ∷ []) 1000 2 1400 tables)
unfolding resolve_policies_for_app_full
resolve_policies_for_app_full-selects_example =
    resolve_policies_for_app_full-selects 7 (3 ∷ []) 1000 2 1400 tables (λ r. true)

ensures_once :
    ensure_app 9 (record { text = "kitty" }) tables
    ≡ (9, record tables { apps = tables.apps ++ record { id = 9; app_class = "kitty" } ∷ [] })
unfolding ensure_app
ensures_once = refl

update-keeps_target_example : Repo.update 9 1 limit_input tables ≡ none
unfolding find_policy TargetType.to_code
update-keeps_target_example = update-keeps_target 9 1 limit_input tables app_row 7 refl refl refl

abbrev pairs : List Pair
pairs = (1000, 7) ∷ (1000, 8) ∷ (2000, 7) ∷ (1000, 9) ∷ []

resolve_category_map-categories_of_example :
    get pair_eq (1000, 7) (resolve_category_map pairs tables) ≡ some (3 ∷ [])
resolve_category_map-categories_of_example = resolve_category_map-categories_of pairs tables 1000 7

falls_back : get pair_eq (2000, 7) (resolve_category_map pairs tables) ≡ some (2 ∷ [])
unfolding resolve_category_map
falls_back = refl

abbrev kitty : AppClass
kitty = record { text = "kitty" }

abbrev silent : AiClassifier
silent = record { classify = λ app_class title. none }

abbrev pub day : UsageTable AppKey
day =
    ((1000, ("2026-07-17", 7)), record { closed_millis = 100; open_millis = 40 })
    ∷ ((1000, ("2026-07-18", 7)), record { closed_millis = 5; open_millis = 0 })
    ∷ ((1000, ("2026-07-18", 8)), record { closed_millis = 30; open_millis = 0 })
    ∷ ((2000, ("2026-07-18", 8)), record { closed_millis = 70; open_millis = 0 })
    ∷ []

abbrev closed_items : List ClosedAppItem
closed_items = record { date = "2026-07-17"; uid = 1000; app_id = 7; delta_ms = 60 } ∷ []

abbrev open_items : List OpenAppItem
open_items = record { date = "2026-07-17"; uid = 1000; app_id = 8; open_ms = 9 } ∷ []

bars-app_usage_summary_example :
    whole (daily_bar_totals "2026-07-17" "2026-07-18" 1000 day)
    ≡ whole (app_usage_summary "2026-07-17" "2026-07-18" 1000 day tables.apps)
unfolding load_app
bars-app_usage_summary_example =
    bars-app_usage_summary "2026-07-17" "2026-07-18" 1000 day tables.apps
      (refl, (refl, (refl, (refl, tt))))

days_in_order :
    daily_bar_totals "2026-07-17" "2026-07-18" 1000 day
    ≡ ("2026-07-17", 140) ∷ ("2026-07-18", 35) ∷ []
unfolding daily_bar_totals
days_in_order = refl

abbrev logged : List TimedEvent
logged =
    record { event = PlatformEvent.focus kitty (record { text = "sh" }) 1000; timestamp = 5 }
    ∷ record { event = PlatformEvent.idle 1000; timestamp = 9 }
    ∷ []

logged-IsEvent : All IsEvent logged
unfolding AppClass.new char_count
logged-IsEvent = ((refl, refl), (tt, tt))

batch_insert_events-accepts_example : batch_insert_events 1 logged [] ≡ some (number_rows 1 logged)
batch_insert_events-accepts_example = batch_insert_events-accepts 1 logged [] logged-IsEvent

get_day_events-of_batch_example :
    get_day_events 1000 0 10 (unwrap_or (batch_insert_events 1 logged []) []) ≡ map seen logged
unfolding event_uid
get_day_events-of_batch_example =
    get_day_events-of_batch 1000 0 10 1 logged (ltb→lt 1000 4294967296 refl) logged-IsEvent
      (refl, tt) (refl, (refl, tt))
