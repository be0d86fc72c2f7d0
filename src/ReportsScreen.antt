-- ===== src/ReportsScreen.antt =====
-- The reports screen of the client: crates/gui/src/reports/domain.rs, and `recompute_derived` and `fetch_all` of
-- crates/gui/src/reports/data. A date is the number of its day.
pub mod Bars
pub mod Flow
use Prim.Native.String.{String}
use digital_wellbeing.Common.{
  ℕ, zero, suc, ◌+◌, ◌-◌, ◌^◌, Bool, ◌==◌, leb, if◌then◌else◌, Option, none, some, unwrap_or, List,
  [], ◌∷◌, map,
}
use digital_wellbeing.Common.Eq.{string_eq}
use digital_wellbeing.Common.Map.{get, insert}
use digital_wellbeing.Dashboard.Derive.{app_names, number_from}
use digital_wellbeing.Reports.{AppUsageSummary, TitleUsageSummary, DateTotal}
use digital_wellbeing.Store.Categories.{AppCategoryRow}
use digital_wellbeing.Timeline.{Names}

-- The arithmetic of `f64` that the screen uses, on milliseconds: `hours` is `as f64 / 3_600_000.0`,
-- `total` the sum of `as f64` back `as i64`, `percent` is `(a as f64 / total as f64) * 100.0`.
pub record Hours : Type 1 where
  pub F64 : Type 0
  pub no_share : F64
  pub hours : ℕ → F64
  pub total : List ℕ → ℕ
  pub percent : ℕ → ℕ → F64

pub record ReportsData : Type 0 where
  pub daily_totals : List DateTotal
  pub app_categories : List AppCategoryRow
  pub app_summary : List AppUsageSummary
  pub title_summary : List TitleUsageSummary

-- `DateRange` by its days.
pub record DayRange : Type 0 where
  pub start : ℕ
  pub end : ℕ

-- What the daemon answers to the four calls, by the texts of the range; `none` is an error or a
-- call of more than ten seconds.
pub record ReportCalls : Type 0 where
  pub bar_totals : String → String → Option (List DateTotal)
  pub categories : Option (List AppCategoryRow)
  pub apps : String → String → Option (List AppUsageSummary)
  pub titles : String → String → Option (List TitleUsageSummary)

-- `ReportsRepo::fetch_all` of the client, which has no error.
unfoldable pub fetch_reports : (ℕ → String) → ReportCalls → DayRange → ReportsData
fetch_reports date_text calls range =
    let start = date_text range.start in
    let finish = date_text range.end in
    record {
      daily_totals = unwrap_or (calls.bar_totals start finish) [];
      app_categories = unwrap_or calls.categories [];
      app_summary = unwrap_or (calls.apps start finish) [];
      title_summary = unwrap_or (calls.titles start finish) [];
    }

-- The loop that fills `by_date`.
unfoldable pub totals_by_date : List DateTotal → List (String × ℕ) → List (String × ℕ)
totals_by_date [] by_date = by_date
totals_by_date (dt ∷ totals) by_date =
    totals_by_date totals (insert string_eq dt.date dt.total_millis by_date)

-- `num_days() as usize + 1` for the days from the start to the end: below zero it wraps, and the
-- addition is an overflow, `none` where overflows are checked.
unfoldable pub day_count : Bool → DayRange → Option ℕ
day_count checked range =
    let days =
      if leb range.start range.end
      then range.end - range.start
      else 2 ^ 64 - (range.start - range.end) in
    if leb (2 ^ 64) (days + 1)
    then if checked then none else some (days + 1 - 2 ^ 64)
    else some (days + 1)

-- The most bars that `Vec::with_capacity` allows: 16 bytes each, `isize::MAX` bytes in all.
abbrev pub max_bars : ℕ
max_bars = 0x7FFFFFFFFFFFFFF

-- `iter().sum::<i64>()`
unfoldable pub sum_millis : List ℕ → ℕ
sum_millis [] = 0
sum_millis (n ∷ ns) = n + sum_millis ns

module _ (f : Hours) where
  pub record DailyBar : Type 0 where
    pub date : ℕ
    pub hours_tracked : f.F64
    pub is_today : Bool

  pub record ReportAppEntry : Type 0 where
    pub rank : ℕ
    pub app_class : String
    pub display_name : String
    pub total_millis : ℕ
    pub percentage : f.F64

  pub record ReportTitleEntry : Type 0 where
    pub rank : ℕ
    pub app_class : String
    pub title : String
    pub total_millis : ℕ
    pub percentage : f.F64

  pub record ReportsViewModel : Type 0 where
    pub found : Option ReportsData
    pub date_range : DayRange
    pub bar_chart : List DailyBar
    pub app_list : List ReportAppEntry
    pub title_list : List ReportTitleEntry
    pub total_millis : ℕ
    pub top_app : String

  -- The loop over the days of the range, on fuel, as many rounds as there are days.
  unfoldable pub push_bars : (ℕ → String) → List (String × ℕ) → ℕ → ℕ → ℕ → ℕ → List DailyBar
  push_bars date_text by_date today end zero cursor = []
  push_bars date_text by_date today end (suc fuel) cursor =
      let rest = push_bars date_text by_date today end fuel (suc cursor) in
      if leb cursor end
      then record {
        date = cursor;
        hours_tracked = f.hours (unwrap_or (get string_eq (date_text cursor) by_date) 0);
        is_today = cursor == today;
      }
        ∷ rest
      else []

  abbrev pub share : ℕ → ℕ → f.F64
  share millis total = if total == 0 then f.no_share else f.percent millis total

  unfoldable pub app_entry : Names → ℕ → ℕ → AppUsageSummary → ReportAppEntry
  app_entry meta total rank s = record {
    rank = rank;
    app_class = s.app_class.text;
    display_name = unwrap_or (get string_eq s.app_class.text meta) s.app_class.text;
    total_millis = s.total_millis;
    percentage = share s.total_millis total;
  }

  unfoldable pub title_entry : Names → ℕ → ℕ → TitleUsageSummary → ReportTitleEntry
  title_entry meta total rank s = record {
    rank = rank;
    app_class = unwrap_or (get string_eq s.app_class.text meta) s.app_class.text;
    title = s.title;
    total_millis = s.total_millis;
    percentage = share s.total_millis total;
  }

  abbrev first_name : List ReportAppEntry → String
  first_name [] = "—"
  first_name (e ∷ es) = e.display_name

  -- The fields that are computed for the data.
  unfoldable pub fill_view :
      (ℕ → String) → ℕ → DayRange → ReportsData → ReportsViewModel → ReportsViewModel
  unfolding totals_by_date push_bars app_names number_from app_entry title_entry sum_millis
  fill_view date_text today range d vm =
      let meta = app_names d.app_categories in
      let total_apps = sum_millis (map (λ a. a.total_millis) d.app_summary) in
      let title_total = sum_millis (map (λ a. a.total_millis) d.title_summary) in
      let app_list = number_from (λ i s. app_entry meta total_apps i s) 1 d.app_summary in
      record vm {
        bar_chart =
            push_bars date_text (totals_by_date d.daily_totals []) today range.end
              (range.end + 1 - range.start) range.start;
        app_list = app_list;
        title_list = number_from (λ i s. title_entry meta title_total i s) 1 d.title_summary;
        total_millis = f.total (map (λ a. a.total_millis) d.daily_totals);
        top_app = first_name app_list;
        date_range = range;
      }

  -- `ReportsViewModel::recompute_derived`, with the day that the clock shows; `none` is a panic.
  unfoldable pub derive_reports :
      Bool → (ℕ → String) → ℕ → DayRange → ReportsViewModel → Option ReportsViewModel
  unfolding day_count fill_view
  derive_reports checked date_text today range vm = elim vm.found [
    | none ↦ some (record vm {
      bar_chart = [];
      app_list = [];
      title_list = [];
      total_millis = 0;
      top_app = "";
    })
    | some d ↦ elim (day_count checked range) [
      | none ↦ none
      | some n ↦ if leb n max_bars then some (fill_view date_text today range d vm) else none
    ]
  ]
