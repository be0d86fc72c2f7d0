-- ===== src/Dashboard/Derive.antt =====
-- crates/gui/src/dashboard/viewmodel.rs: the derived fields of the dashboard. A HashMap that is collected from
-- rows keeps the last value of a key. `to_datetime` is chrono's conversion of milliseconds, which
-- fails outside of its range of dates.
use Prim.Native.String.{String}
use digital_wellbeing.Common.{
  ℕ, suc, ◌+◌, ◌-◌, ◌%◌, Bool, not, if◌then◌else◌, Option, none, some, unwrap_or, List, [], ◌∷◌,
  map, take, length, any,
}
use digital_wellbeing.Common.Eq.{string_eq}
use digital_wellbeing.Common.Map.{get, insert}
use digital_wellbeing.Clock.{day_ms}
use digital_wellbeing.Dashboard.{
  Floats, DashboardViewModel, Slice, AppListEntry, TitleListEntry, BlockCardInfo, Kpis,
}
use digital_wellbeing.Reports.{AppUsageSummary, TitleUsageSummary, CategoryUsageSummary}
use digital_wellbeing.Store.Categories.{AppCategoryRow}
use digital_wellbeing.Store.Usage.Reads.{sort_by}
use digital_wellbeing.Timeline.{Names, sum, build_day_timeline}
use digital_wellbeing.Values.Blocked.{BlockedAppEntry}
use digital_wellbeing.Values.Category
use digital_wellbeing.Values.Category.{Category, name}

-- `collect()` into a HashMap.
unfoldable pub collect : {V : Type 0} → List (String × V) → List (String × V) → List (String × V)
collect [] m = m
collect ((k, v) ∷ rows) m = collect rows (insert string_eq k v m)

unfoldable pub app_names : List AppCategoryRow → Names
unfolding collect
app_names rows = collect (map (λ ac. (ac.app_class.text, ac.display_name)) rows) []

unfoldable pub build_block_cards :
    (ℕ → Option ℕ) → ℕ → List BlockedAppEntry → Names → List BlockCardInfo
build_block_cards to_datetime now blocked names =
    map
      (λ b. record {
        app_class = b.app_class.text;
        display_name = unwrap_or (get string_eq b.app_class.text names) "";
        blocked_since = unwrap_or (to_datetime b.blocked_since) now;
      })
      blocked

-- `Some(format!("cat_{}", category as u8))` of a category whose code is above zero.
unfoldable pub category_color : Category → Option String
category_color Category.productivity = none
category_color Category.communication = some "cat_1"
category_color Category.entertainment = some "cat_2"
category_color Category.social = some "cat_3"
category_color Category.development = some "cat_4"
category_color Category.utilities = some "cat_5"
category_color Category.uncategorized = some "cat_6"

unfoldable pub cat_colors : List Category → Names
unfolding collect name Category.color
cat_colors categories = collect (map (λ c. (name c, Category.color c)) categories) []

abbrev pub Meta : Type 0
Meta = List (String × (String × Option String))

unfoldable pub app_meta : List AppCategoryRow → Meta
unfolding collect category_color
app_meta rows =
    collect (map (λ ac. (ac.app_class.text, (ac.display_name, category_color ac.category))) rows) []

abbrev pub meta_of : Meta → String → String × Option String
meta_of meta app_class = unwrap_or (get string_eq app_class meta) (app_class, none)

-- `blocked_set.contains`
unfoldable pub is_blocked : List BlockedAppEntry → String → Bool
is_blocked blocked app_class = any (λ b. string_eq.beq b.app_class.text app_class) blocked

-- `enumerate` and `map`.
unfoldable pub number_from : {A B : Type 0} → (ℕ → A → B) → ℕ → List A → List B
number_from g i [] = []
number_from g i (a ∷ rest) = g i a ∷ number_from g (suc i) rest

module _ (f : Floats) where
  -- `sort_by` with `b.percentage.partial_cmp(&a.percentage).unwrap_or(Equal)`, which is stable.
  abbrev pub not_less : Slice f → Slice f → Bool
  not_less a b = not (f.less a.percentage b.percentage)

  unfoldable pub app_slice : Names → f.F64 → AppUsageSummary → Slice f
  app_slice meta total s = record {
    app_class = s.app_class.text;
    display_name = unwrap_or (get string_eq s.app_class.text meta) s.app_class.text;
    color = "";
    percentage = f.percent s.total_millis total;
  }

  unfoldable pub build_app_slices : List AppUsageSummary → List AppCategoryRow → List (Slice f)
  unfolding app_slice sort_by app_names
  build_app_slices [] app_categories = []
  build_app_slices (s ∷ summary) app_categories =
      let total = f.total (map (λ a. a.total_millis) (s ∷ summary)) in
      if f.le_zero total
      then []
      else sort_by not_less (map (app_slice (app_names app_categories) total) (s ∷ summary))

  unfoldable pub category_slice : Names → f.F64 → CategoryUsageSummary → Slice f
  unfolding name
  category_slice cat_color total s = record {
    app_class = name s.category;
    display_name = name s.category;
    color = unwrap_or (get string_eq (name s.category) cat_color) "";
    percentage = f.percent s.total_millis total;
  }

  unfoldable pub build_category_slices : List CategoryUsageSummary → List Category → List (Slice f)
  unfolding category_slice sort_by cat_colors
  build_category_slices [] categories = []
  build_category_slices (s ∷ summary) categories =
      let total = f.total (map (λ c. c.total_millis) (s ∷ summary)) in
      if f.le_zero total
      then []
      else sort_by not_less (map (category_slice (cat_colors categories) total) (s ∷ summary))

  unfoldable pub app_entry :
      Meta → List BlockedAppEntry → f.F64 → ℕ → AppUsageSummary → AppListEntry f
  unfolding is_blocked
  app_entry meta blocked grand_total i s = record {
    rank = i + 1;
    app_class = s.app_class.text;
    display_name = (meta_of meta s.app_class.text).0;
    total_millis = s.total_millis;
    percentage = f.percent s.total_millis grand_total;
    category_color = (meta_of meta s.app_class.text).1;
    is_blocked = is_blocked blocked s.app_class.text;
  }

  unfoldable pub build_top_apps_from_summary :
      List AppUsageSummary → List AppCategoryRow → List BlockedAppEntry → List (AppListEntry f)
  unfolding app_entry app_meta number_from sum
  build_top_apps_from_summary [] app_categories blocked = []
  build_top_apps_from_summary (s ∷ summary) app_categories blocked =
      let grand_total = f.from_millis (sum (map (λ a. a.total_millis) (s ∷ summary))) in
      if f.le_zero grand_total
      then []
      else number_from (app_entry (app_meta app_categories) blocked grand_total) 0
          (take 10 (s ∷ summary))

  unfoldable pub title_entry : f.F64 → ℕ → TitleUsageSummary → TitleListEntry f
  title_entry grand_total i s = record {
    rank = i + 1;
    app_class = s.app_class.text;
    title = s.title;
    total_millis = s.total_millis;
    percentage = f.percent s.total_millis grand_total;
  }

  unfoldable pub build_top_titles_from_summary : List TitleUsageSummary → List (TitleListEntry f)
  unfolding title_entry number_from sum
  build_top_titles_from_summary [] = []
  build_top_titles_from_summary (s ∷ summary) =
      let grand_total = f.from_millis (sum (map (λ t. t.total_millis) (s ∷ summary))) in
      if f.le_zero grand_total
      then []
      else number_from (title_entry grand_total) 0 (take 10 (s ∷ summary))

  unfoldable pub compute_kpis : DashboardViewModel f → Kpis
  unfolding sum
  compute_kpis vm = record {
    total_millis = sum (map (λ a. a.total_millis) vm.top_apps);
    top_app = elim vm.top_apps [ [] ↦ "—" | a ∷ rest ↦ a.display_name ];
    top_app_millis = elim vm.top_apps [ [] ↦ 0 | a ∷ rest ↦ a.total_millis ];
    active_blocks = length vm.block_cards;
  }

  unfoldable pub clear_derived : DashboardViewModel f → DashboardViewModel f
  clear_derived vm = record vm {
    pie_app = [];
    pie_category = [];
    top_apps = [];
    top_titles = [];
    block_cards = [];
    day_timeline = none;
  }

  module _ (to_datetime : ℕ → Option ℕ) where
    -- The readings of the clock are the one of the cards and the one after them.
    unfoldable pub recompute_derived : ℕ → ℕ → DashboardViewModel f → DashboardViewModel f
    unfolding build_app_slices build_category_slices build_top_apps_from_summary
        build_top_titles_from_summary build_block_cards clear_derived app_names
    recompute_derived card_now now vm = elim vm.found [
      | none ↦ clear_derived vm
      | some d ↦
          let names = app_names d.app_categories in
          let today = now - now % day_ms in
          record vm {
            pie_app = build_app_slices d.app_summary d.app_categories;
            pie_category = build_category_slices d.category_summary d.categories;
            top_apps = build_top_apps_from_summary d.app_summary d.app_categories d.blocked;
            top_titles = build_top_titles_from_summary d.title_summary;
            block_cards = build_block_cards to_datetime card_now d.blocked names;
            day_timeline = some (build_day_timeline d.day_events today names now d.day_seed);
            date_range = (today, today);
          }
    ]

    unfoldable pub recompute_blocked : ℕ → DashboardViewModel f → DashboardViewModel f
    unfolding build_block_cards app_names
    recompute_blocked card_now vm = elim vm.found [
      | none ↦ vm
      | some d ↦ record vm {
        block_cards = build_block_cards to_datetime card_now d.blocked (app_names d.app_categories);
      }
    ]
