-- ===== src/Store/Usage/Reads.antt =====
-- crates/daemon/src/store/daos/daily_usage/reads.rs: the reports' queries. GROUP BY sums the totals of the
-- rows with the same key, and groups that the sort key does not tell apart keep their order.
use Prim.Native.String.{String, compare}
use text.Mathlib.Text.{is_le}
use digital_wellbeing.Common.{
  ℕ, ◌+◌, Bool, ◌&&◌, ◌==◌, leb, if◌then◌else◌, Option, none, some, List, [], ◌∷◌,
}
use digital_wellbeing.Common.Eq.{Eq, nat_eq, string_eq}
use digital_wellbeing.Common.Map.{get}
use digital_wellbeing.Store.{AppRow, as_i32}
use digital_wellbeing.Store.Apps.{load_app}
use digital_wellbeing.Store.Usage.{UsageTable, AppKey, TitleKey, CategoryKey, total_millis}
use digital_wellbeing.Usage.{add, app_key_eq, pair_eq}
use digital_wellbeing.Values.Blocked.{Uid}

unfoldable pub get_today_app_usage : ℕ → Uid → String → UsageTable AppKey → ℕ
get_today_app_usage app_id uid today t = elim (get app_key_eq (as_i32 uid, (today, app_id)) t) [
  | some row ↦ row.closed_millis + row.open_millis
  | none ↦ 0
]

-- `date >= ?1 AND date <= ?2 AND user_id = ?3`; texts are compared byte by byte.
abbrev pub in_dates : String → String → Uid → Uid → String → Bool
in_dates first last uid user date =
    is_le (compare first date) && is_le (compare date last) && user == as_i32 uid

-- The rows of a query before they are grouped: those of the user in the range, by the column that
-- the query groups by, which a row can lack when its application is not registered.
unfoldable pub chosen :
    {D K : Type 0}
    → (D → String)
    → (Uid × D → Option K)
    → String
    → String
    → Uid
    → UsageTable (Uid × D)
    → List (K × ℕ)
chosen date_of column first last uid [] = []
chosen date_of column first last uid ((k, row) ∷ t) =
    let rest = chosen date_of column first last uid t in
    if in_dates first last uid k.0 (date_of k.1)
    then elim (column k) [ some c ↦ (c, total_millis row) ∷ rest | none ↦ rest ]
    else rest

-- GROUP BY with SUM.
unfoldable pub group_sums : {K : Type 0} → Eq K → List (K × ℕ) → List (K × ℕ)
group_sums e [] = []
group_sums e ((k, ms) ∷ rows) = add e k ms (group_sums e rows)

-- ORDER BY, by a test of which entry comes first.
unfoldable pub insert_by : {A : Type 0} → (A → A → Bool) → A → List A → List A
insert_by first a [] = a ∷ []
insert_by first a (b ∷ bs) = if first a b then a ∷ b ∷ bs else b ∷ insert_by first a bs

unfoldable pub sort_by : {A : Type 0} → (A → A → Bool) → List A → List A
unfolding insert_by
sort_by first [] = []
sort_by first (a ∷ as_) = insert_by first a (sort_by first as_)

abbrev pub larger : {K : Type 0} → K × ℕ → K × ℕ → Bool
larger a b = leb b.1 a.1

unfoldable pub app_usage_summary :
    String → String → Uid → UsageTable AppKey → List AppRow → List (String × ℕ)
unfolding chosen group_sums sort_by load_app
app_usage_summary first last uid t apps =
    sort_by larger
      (group_sums string_eq (chosen (λ k. k.0) (λ k. load_app k.1.1 apps) first last uid t))

-- The rows of the table of titles, with the user first.
unfoldable pub by_user : UsageTable TitleKey → UsageTable (Uid × ((String × ℕ) × String))
by_user [] = []
by_user (((k, title), row) ∷ t) = ((k.0, (k.1, title)), row) ∷ by_user t

unfoldable pub title_usage_summary :
    String → String → Uid → UsageTable TitleKey → List AppRow → List ((String × String) × ℕ)
unfolding chosen group_sums sort_by load_app by_user
title_usage_summary first last uid t apps = sort_by larger (
    group_sums (pair_eq string_eq string_eq) (
      chosen (λ k. k.0.0)
        (λ k. elim (load_app k.1.0.1 apps) [
          | some app_class ↦ some (app_class, k.1.1)
          | none ↦ none
        ])
        first last uid (by_user t)))

unfoldable pub category_usage_summary :
    String → String → Uid → UsageTable CategoryKey → List (ℕ × ℕ)
unfolding chosen group_sums sort_by
category_usage_summary first last uid t =
    sort_by larger (group_sums nat_eq (chosen (λ k. k.0) (λ k. some k.1.1) first last uid t))

unfoldable pub daily_bar_totals : String → String → Uid → UsageTable AppKey → List (String × ℕ)
unfolding chosen group_sums sort_by
daily_bar_totals first last uid t =
    sort_by (λ a b. is_le (compare a.0 b.0))
      (group_sums string_eq (chosen (λ k. k.0) (λ k. some k.1.0) first last uid t))
