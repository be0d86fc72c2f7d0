-- ===== src/Store/Usage.antt =====
-- The daily usage tables: crates/daemon/src/store/daos/daily_usage/upserts.rs. A table is a map from its
-- primary key to the two columns `closed_millis` and `open_millis`.
pub mod Batch
pub mod Reads
pub mod Bars
pub mod Columns
use Prim.Native.String.{String}
use digital_wellbeing.Common.{ℕ, ◌+◌, Option, none, some, List, [], ◌∷◌, map}
use digital_wellbeing.Common.Eq.{Eq, string_eq}
use digital_wellbeing.Common.Map.{get, insert}
use digital_wellbeing.Store.{as_i32}
use digital_wellbeing.Usage.{AggKeyApp, app_key_eq, pair_eq}
use digital_wellbeing.Usage.Deltas.{AggKeyCategory, category_key_eq}
use digital_wellbeing.Values.Blocked.{Uid}
use digital_wellbeing.Values.WindowTitle.{WindowTitle}

pub record UsageRow : Type 0 where
  pub closed_millis : ℕ
  pub open_millis : ℕ

-- The generated column.
abbrev pub total_millis : UsageRow → ℕ
total_millis r = r.closed_millis + r.open_millis

abbrev pub UsageTable : Type 0 → Type 0
UsageTable K = List (K × UsageRow)

-- The keys: a user, and the date with the application, the titled application or the category.
abbrev pub AppKey : Type 0
AppKey = Uid × AggKeyApp

abbrev pub TitleKey : Type 0
TitleKey = AppKey × String

abbrev pub CategoryKey : Type 0
CategoryKey = Uid × AggKeyCategory

abbrev pub title_row_eq : Eq TitleKey
title_row_eq = pair_eq app_key_eq string_eq

pub record UsageTables : Type 0 where
  pub by_app : UsageTable AppKey
  pub by_title : UsageTable TitleKey
  pub by_category : UsageTable CategoryKey

pub record ClosedAppItem : Type 0 where
  pub date : String
  pub uid : Uid
  pub app_id : ℕ
  pub delta_ms : ℕ

pub record ClosedTitleItem : Type 0 where
  pub date : String
  pub uid : Uid
  pub app_id : ℕ
  pub title : WindowTitle
  pub delta_ms : ℕ

pub record ClosedCategoryItem : Type 0 where
  pub date : String
  pub uid : Uid
  pub category_id : ℕ
  pub delta_ms : ℕ

pub record OpenAppItem : Type 0 where
  pub date : String
  pub uid : Uid
  pub app_id : ℕ
  pub open_ms : ℕ

pub record OpenTitleItem : Type 0 where
  pub date : String
  pub uid : Uid
  pub app_id : ℕ
  pub title : WindowTitle
  pub open_ms : ℕ

pub record OpenCategoryItem : Type 0 where
  pub date : String
  pub uid : Uid
  pub category_id : ℕ
  pub open_ms : ℕ

-- INSERT ... ON CONFLICT DO UPDATE SET: the SET clause makes a new row of the old one and the values.
unfoldable pub exec_batch :
    {K : Type 0}
    → Eq K
    → (UsageRow → UsageRow → UsageRow)
    → List (K × UsageRow)
    → UsageTable K
    → UsageTable K
exec_batch e set [] t = t
exec_batch e set ((key, row) ∷ rows) t =
    exec_batch e set rows
      (elim (get e key t) [ none ↦ insert e key row t | some old ↦ insert e key (set old row) t ])

-- `closed = closed + excluded.closed, open = 0`, and `open = excluded.open`.
abbrev pub set_closed : UsageRow → UsageRow → UsageRow
set_closed old row = record {
  closed_millis = old.closed_millis + row.closed_millis;
  open_millis = 0;
}

abbrev pub set_open : UsageRow → UsageRow → UsageRow
set_open old row = record { closed_millis = old.closed_millis; open_millis = row.open_millis }

abbrev pub closed_row : ℕ → UsageRow
closed_row delta_ms = record { closed_millis = delta_ms; open_millis = 0 }

abbrev pub open_row : ℕ → UsageRow
open_row open_ms = record { closed_millis = 0; open_millis = open_ms }

unfoldable pub batch_upsert_closed_apps : List ClosedAppItem → UsageTable AppKey → UsageTable AppKey
unfolding exec_batch
batch_upsert_closed_apps items t =
    exec_batch app_key_eq set_closed
      (map (λ it. ((as_i32 it.uid, (it.date, it.app_id)), closed_row it.delta_ms)) items) t

unfoldable pub batch_upsert_open_apps : List OpenAppItem → UsageTable AppKey → UsageTable AppKey
unfolding exec_batch
batch_upsert_open_apps items t =
    exec_batch app_key_eq set_open
      (map (λ it. ((as_i32 it.uid, (it.date, it.app_id)), open_row it.open_ms)) items) t

unfoldable pub batch_upsert_closed_titles :
    List ClosedTitleItem → UsageTable TitleKey → UsageTable TitleKey
unfolding exec_batch
batch_upsert_closed_titles items t =
    exec_batch title_row_eq set_closed
      (map (λ it. (((as_i32 it.uid, (it.date, it.app_id)), it.title.text), closed_row it.delta_ms))
        items)
      t

unfoldable pub batch_upsert_open_titles :
    List OpenTitleItem → UsageTable TitleKey → UsageTable TitleKey
unfolding exec_batch
batch_upsert_open_titles items t =
    exec_batch title_row_eq set_open
      (map (λ it. (((as_i32 it.uid, (it.date, it.app_id)), it.title.text), open_row it.open_ms))
        items)
      t

unfoldable pub batch_upsert_closed_categories :
    List ClosedCategoryItem → UsageTable CategoryKey → UsageTable CategoryKey
unfolding exec_batch
batch_upsert_closed_categories items t =
    exec_batch category_key_eq set_closed
      (map (λ it. ((as_i32 it.uid, (it.date, it.category_id)), closed_row it.delta_ms)) items) t

unfoldable pub batch_upsert_open_categories :
    List OpenCategoryItem → UsageTable CategoryKey → UsageTable CategoryKey
unfolding exec_batch
batch_upsert_open_categories items t =
    exec_batch category_key_eq set_open
      (map (λ it. ((as_i32 it.uid, (it.date, it.category_id)), open_row it.open_ms)) items) t
