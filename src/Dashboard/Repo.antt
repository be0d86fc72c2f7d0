-- ===== src/Dashboard/Repo.antt =====
-- crates/gui/src/dashboard/data/repo.rs: the calls of one fetch. An answer of `none` is a daemon that is not
-- reached, an error, or a call that took more than ten seconds.
use Prim.Native.String.{String}
use mathlib.Core.List.{reverse}
use digital_wellbeing.Common.{ℕ, ◌+◌, ◌-◌, ◌%◌, Option, none, some, unwrap_or, List, [], ◌∷◌}
use digital_wellbeing.Clock.{day_ms}
use digital_wellbeing.Dashboard.{DashboardData}
use digital_wellbeing.Reports.{AppUsageSummary, TitleUsageSummary, CategoryUsageSummary}
use digital_wellbeing.Store.Categories.{AppCategoryRow}
use digital_wellbeing.Timeline.{DayEventRow}
use digital_wellbeing.Values.AppClass.{AppClass}
use digital_wellbeing.Values.Blocked.{BlockedAppEntry}
use digital_wellbeing.Values.Category.{Category}
use digital_wellbeing.Values.EventType.{EventType}

-- What the repository's calls answer. A summary is asked for by two dates as texts.
pub record DashboardRepo : Type 0 where
  pub blocked_apps : Option (List BlockedAppEntry)
  pub day_events : ℕ → ℕ → Option (List DayEventRow)
  pub categories : Option (List Category)
  pub app_categories : Option (List AppCategoryRow)
  pub category_usage_summary : String → String → Option (List CategoryUsageSummary)
  pub app_usage_summary : String → String → Option (List AppUsageSummary)
  pub title_usage_summary : String → String → Option (List TitleUsageSummary)

-- The loop over the rows, latest first.
unfoldable pub last_focus : List DayEventRow → Option (ℕ × AppClass)
last_focus [] = none
last_focus (row ∷ rows) = elim row.event_type [
  | EventType.resume ↦ last_focus rows
  | EventType.focus ↦ some (row.timestamp, row.app_class)
  | EventType.unfocus ↦ none
  | EventType.idle ↦ none
  | EventType.suspend ↦ none
  | EventType.shut_down ↦ none
  | EventType.locked ↦ none
  | EventType.logged_out ↦ none
  | EventType.block ↦ none
]

-- `Ok(None)` and `Ok(Some(_))` of the source are the inner option.
unfoldable pub get_pre_midnight_seed : DashboardRepo → ℕ → Option (Option (ℕ × AppClass))
unfolding last_focus
get_pre_midnight_seed repo day_start_ms = elim (repo.day_events 0 day_start_ms) [
  | some rows ↦ some (last_focus (reverse rows))
  | none ↦ none
]

-- By the texts of the range's dates and the moment of the call.
unfoldable pub fetch_all : DashboardRepo → String → String → ℕ → DashboardData
unfolding get_pre_midnight_seed
fetch_all repo start finish now =
    let day_start_ms = now - now % day_ms in
    record {
      blocked = unwrap_or repo.blocked_apps [];
      day_events = unwrap_or (repo.day_events day_start_ms (day_start_ms + day_ms)) [];
      day_seed = unwrap_or (get_pre_midnight_seed repo day_start_ms) none;
      category_summary = unwrap_or (repo.category_usage_summary start finish) [];
      categories = unwrap_or repo.categories [];
      app_categories = unwrap_or repo.app_categories [];
      app_summary = unwrap_or (repo.app_usage_summary start finish) [];
      title_summary = unwrap_or (repo.title_usage_summary start finish) [];
    }
