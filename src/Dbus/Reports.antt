-- ===== src/Dbus/Reports.antt =====
-- The report methods of crates/daemon/src/dbus/methods/mod.rs, over an interface of the repositories that
-- answer them, and that interface filled by `ReportsRepo` on the tables. `none` is a query that failed.
use Prim.Native.String.{String}
use digital_wellbeing.Common.{ℕ, Option, some, List}
use digital_wellbeing.Categorization.{list_categories as list_categories_of}
use digital_wellbeing.Dbus.{Result, Call}
use digital_wellbeing.Dbus.Methods.{own_report, report_for_user}
use digital_wellbeing.Reports
use digital_wellbeing.Reports.{AppUsageSummary, TitleUsageSummary, CategoryUsageSummary, DateTotal}
use digital_wellbeing.Store.{AppRow}
use digital_wellbeing.Store.Events.{EventTable}
use digital_wellbeing.Store.Usage.{UsageTables}
use digital_wellbeing.Timeline.{DayEventRow}
use digital_wellbeing.Values.Blocked.{Uid}
use digital_wellbeing.Values.Category.{Category}

-- By the first and the last date, or by the first and the last millisecond.
pub record ReportsRepo : Type 0 where
  pub app_usage_summary : String → String → Uid → Option (List AppUsageSummary)
  pub title_usage_summary : String → String → Uid → Option (List TitleUsageSummary)
  pub category_usage_summary : String → String → Uid → Option (List CategoryUsageSummary)
  pub daily_bar_totals : String → String → Uid → Option (List DateTotal)
  pub day_events : Uid → ℕ → ℕ → Option (List DayEventRow)

-- The repository on a database that answers.
abbrev pub on_tables : UsageTables → EventTable → List AppRow → ReportsRepo
on_tables usage events apps = record {
  app_usage_summary =
      λ first last uid. some (Reports.get_app_usage_summary first last uid usage apps);
  title_usage_summary =
      λ first last uid. some (Reports.get_title_usage_summary first last uid usage apps);
  category_usage_summary =
      λ first last uid. some (Reports.get_category_usage_summary first last uid usage);
  daily_bar_totals = λ first last uid. some (Reports.get_daily_bar_totals first last uid usage);
  day_events = λ uid start finish. some (Reports.get_day_events uid start finish events);
}

module _ {Proxy : Type 0} (repo : ReportsRepo) (call : Call Proxy) where
  unfoldable pub get_app_usage_summary : String → String → Result (List AppUsageSummary)
  unfolding own_report
  get_app_usage_summary first last = own_report (repo.app_usage_summary first last) call

  unfoldable pub get_app_usage_summary_for_user :
      String → String → Uid → Result (List AppUsageSummary)
  unfolding report_for_user
  get_app_usage_summary_for_user first last uid =
      report_for_user (repo.app_usage_summary first last) call uid

  unfoldable pub get_title_usage_summary : String → String → Result (List TitleUsageSummary)
  unfolding own_report
  get_title_usage_summary first last = own_report (repo.title_usage_summary first last) call

  unfoldable pub get_title_usage_summary_for_user :
      String → String → Uid → Result (List TitleUsageSummary)
  unfolding report_for_user
  get_title_usage_summary_for_user first last uid =
      report_for_user (repo.title_usage_summary first last) call uid

  unfoldable pub get_category_usage_summary : String → String → Result (List CategoryUsageSummary)
  unfolding own_report
  get_category_usage_summary first last = own_report (repo.category_usage_summary first last) call

  unfoldable pub get_category_usage_summary_for_user :
      String → String → Uid → Result (List CategoryUsageSummary)
  unfolding report_for_user
  get_category_usage_summary_for_user first last uid =
      report_for_user (repo.category_usage_summary first last) call uid

  unfoldable pub get_daily_bar_totals : String → String → Result (List DateTotal)
  unfolding own_report
  get_daily_bar_totals first last = own_report (repo.daily_bar_totals first last) call

  unfoldable pub get_daily_bar_totals_for_user : String → String → Uid → Result (List DateTotal)
  unfolding report_for_user
  get_daily_bar_totals_for_user first last uid =
      report_for_user (repo.daily_bar_totals first last) call uid

  unfoldable pub get_day_events : ℕ → ℕ → Result (List DayEventRow)
  unfolding own_report
  get_day_events start_millis end_millis =
      own_report (λ uid. repo.day_events uid start_millis end_millis) call

  unfoldable pub get_day_events_for_user : Uid → ℕ → ℕ → Result (List DayEventRow)
  unfolding report_for_user
  get_day_events_for_user uid start_millis end_millis =
      report_for_user (λ of. repo.day_events of start_millis end_millis) call uid

-- The one method that asks for no sender.
unfoldable pub list_categories : Result (List Category)
unfolding list_categories_of
list_categories = Result.ok list_categories_of
