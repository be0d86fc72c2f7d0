-- ===== src/Reports.antt =====
-- crates/daemon/src/reports/data/repo.rs and the summaries of crates/core/src/domain/usage_types.rs. The
-- queries answer with what the tables hold.
pub mod Hourly
use Prim.Native.String.{String}
use digital_wellbeing.Common.{ℕ, none, some, unwrap_or, List, [], ◌∷◌, map}
use digital_wellbeing.Store.{AppRow}
use digital_wellbeing.Store.Events
use digital_wellbeing.Store.Events.{EventTable}
use digital_wellbeing.Store.Usage.{UsageTables}
use digital_wellbeing.Store.Usage.Reads
use digital_wellbeing.Timeline.{DayEventRow}
use digital_wellbeing.Values.AppClass
use digital_wellbeing.Values.AppClass.{AppClass}
use digital_wellbeing.Values.Blocked.{Uid}
use digital_wellbeing.Values.Category
use digital_wellbeing.Values.Category.{Category}

pub record AppUsageSummary : Type 0 where
  pub app_class : AppClass
  pub total_millis : ℕ

pub record TitleUsageSummary : Type 0 where
  pub app_class : AppClass
  pub title : String
  pub total_millis : ℕ

pub record CategoryUsageSummary : Type 0 where
  pub category : Category
  pub total_millis : ℕ

pub record DateTotal : Type 0 where
  pub date : String
  pub total_millis : ℕ

-- `AppClass::new(&r.0).unwrap_or_else(|_| AppClass::new("?").unwrap())`
abbrev class_or_mark : String → AppClass
class_or_mark text = unwrap_or (AppClass.new text) (record { text = "?" })

unfoldable pub get_app_usage_summary :
    String → String → Uid → UsageTables → List AppRow → List AppUsageSummary
unfolding Reads.app_usage_summary
get_app_usage_summary first last uid t apps =
    map (λ r. record { app_class = class_or_mark r.0; total_millis = r.1 })
      (Reads.app_usage_summary first last uid t.by_app apps)

unfoldable pub get_title_usage_summary :
    String → String → Uid → UsageTables → List AppRow → List TitleUsageSummary
unfolding Reads.title_usage_summary
get_title_usage_summary first last uid t apps =
    map (λ r. record { app_class = class_or_mark r.0.0; title = r.0.1; total_millis = r.1 })
      (Reads.title_usage_summary first last uid t.by_title apps)

-- A total of an unknown category is dropped.
unfoldable pub known_totals : List (ℕ × ℕ) → List CategoryUsageSummary
known_totals [] = []
known_totals ((code, total) ∷ rows) = elim (Category.try_from code) [
  | some c ↦ record { category = c; total_millis = total } ∷ known_totals rows
  | none ↦ known_totals rows
]

unfoldable pub get_category_usage_summary :
    String → String → Uid → UsageTables → List CategoryUsageSummary
unfolding Reads.category_usage_summary known_totals
get_category_usage_summary first last uid t =
    known_totals (Reads.category_usage_summary first last uid t.by_category)

unfoldable pub get_daily_bar_totals : String → String → Uid → UsageTables → List DateTotal
unfolding Reads.daily_bar_totals
get_daily_bar_totals first last uid t =
    map (λ r. record { date = r.0; total_millis = r.1 })
      (Reads.daily_bar_totals first last uid t.by_app)

unfoldable pub get_day_events : Uid → ℕ → ℕ → EventTable → List DayEventRow
unfolding Events.get_day_events
get_day_events uid start_millis end_millis rows =
    Events.get_day_events uid start_millis end_millis rows
