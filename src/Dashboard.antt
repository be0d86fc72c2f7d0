-- ===== src/Dashboard.antt =====
-- The dashboard of the client, crates/gui/src/dashboard/domain.rs and crates/gui/src/dashboard/data/repo.rs: what the
-- daemon answers, and what the screen shows of it. Times are milliseconds since the epoch.
pub mod Derive
pub mod Slices
pub mod Figures
pub mod Repo
pub mod Seed
pub mod Flow
use Prim.Native.String.{String}
use digital_wellbeing.Common.{ℕ, Bool, Option, none, List, []}
use digital_wellbeing.Reports.{AppUsageSummary, TitleUsageSummary, CategoryUsageSummary}
use digital_wellbeing.Store.Categories.{AppCategoryRow}
use digital_wellbeing.Timeline.{DayEventRow, DayTimeline}
use digital_wellbeing.Values.AppClass.{AppClass}
use digital_wellbeing.Values.Blocked.{BlockedAppEntry}
use digital_wellbeing.Values.Category.{Category}

-- The arithmetic of `f64` that the screen uses: `total` is the sum of `as f64`, `percent` is
-- `(a as f64 / total) * 100.0`, and `less` is whether `partial_cmp` answers `Less`.
pub record Floats : Type 1 where
  pub F64 : Type 0
  pub from_millis : ℕ → F64
  pub total : List ℕ → F64
  pub le_zero : F64 → Bool
  pub percent : ℕ → F64 → F64
  pub less : F64 → F64 → Bool

pub record DashboardData : Type 0 where
  pub blocked : List BlockedAppEntry
  pub day_events : List DayEventRow
  pub day_seed : Option (ℕ × AppClass)
  pub category_summary : List CategoryUsageSummary
  pub categories : List Category
  pub app_categories : List AppCategoryRow
  pub app_summary : List AppUsageSummary
  pub title_summary : List TitleUsageSummary

pub record BlockCardInfo : Type 0 where
  pub app_class : String
  pub display_name : String
  pub blocked_since : ℕ

pub record Kpis : Type 0 where
  pub total_millis : ℕ
  pub top_app : String
  pub top_app_millis : ℕ
  pub active_blocks : ℕ

module _ (f : Floats) where
  open f use {F64}

  -- `Slice` of crates/gui/src/chart/mod.rs.
  pub record Slice : Type 0 where
    pub app_class : String
    pub display_name : String
    pub color : String
    pub percentage : F64

  pub record AppListEntry : Type 0 where
    pub rank : ℕ
    pub app_class : String
    pub display_name : String
    pub total_millis : ℕ
    pub percentage : F64
    pub category_color : Option String
    pub is_blocked : Bool

  pub record TitleListEntry : Type 0 where
    pub rank : ℕ
    pub app_class : String
    pub title : String
    pub total_millis : ℕ
    pub percentage : F64

  -- The dates of `date_range` are opening midnights.
  pub record DashboardViewModel : Type 0 where
    pub found : Option DashboardData
    pub date_range : ℕ × ℕ
    pub pie_app : List Slice
    pub pie_category : List Slice
    pub top_apps : List AppListEntry
    pub block_cards : List BlockCardInfo
    pub day_timeline : Option DayTimeline
    pub top_titles : List TitleListEntry

  -- `DashboardViewModel::default()`
  unfoldable pub empty_view : DashboardViewModel
  empty_view = record {
    found = none;
    date_range = (0, 0);
    pie_app = [];
    pie_category = [];
    top_apps = [];
    block_cards = [];
    day_timeline = none;
    top_titles = [];
  }
