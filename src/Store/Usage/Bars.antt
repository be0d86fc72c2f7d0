-- ===== src/Store/Usage/Bars.antt =====
-- The bars of a range of days beside its summary of applications.
use Prim.Native.String.{String}
use digital_wellbeing.Common.{
  ℕ, ◌+◌, ◌≡◌, refl, sym, ap, ◌∙◌, Bool, true, some, is_some, List, [], ◌∷◌, inl, inr, Bool-cases,
  Option-cases, arith,
}
use digital_wellbeing.Common.Eq.{Eq, string_eq}
use digital_wellbeing.Common.Map.{IsMap, insert-IsMap}
use digital_wellbeing.Store.{AppRow}
use digital_wellbeing.Store.Apps.{load_app}
use digital_wellbeing.Store.Usage.{UsageTable, AppKey, total_millis}
use digital_wellbeing.Store.Usage.Reads.{
  chosen, group_sums, insert_by, sort_by, in_dates, app_usage_summary, daily_bar_totals, larger,
}
use digital_wellbeing.Usage.Totals.{sum_if, sum_if-add}
use digital_wellbeing.Values.Blocked.{Uid}

-- The milliseconds of a report.
abbrev pub whole : {K : Type 0} → List (K × ℕ) → ℕ
whole rows = sum_if (λ k. true) rows

module _ {K : Type 0} where
  whole-insert_by :
      (first : K × ℕ → K × ℕ → Bool) (a : K × ℕ) (rows : List (K × ℕ))
      → whole (insert_by first a rows) ≡ a.1 + whole rows
  unfolding insert_by
  whole-insert_by first a [] = refl
  whole-insert_by first a (b ∷ rows) =
      let rest = whole-insert_by first a rows in ground (arith, rest)

  whole-sort_by :
      (first : K × ℕ → K × ℕ → Bool) (rows : List (K × ℕ)) → whole (sort_by first rows) ≡ whole rows
  unfolding sort_by
  whole-sort_by first [] = refl
  whole-sort_by first (a ∷ rows) =
      whole-insert_by first a (sort_by first rows) ∙ ap (λ n. a.1 + n) (whole-sort_by first rows)

  group_sums-IsMap : (e : Eq K) (rows : List (K × ℕ)) → IsMap e (group_sums e rows)
  unfolding group_sums
  group_sums-IsMap e [] = tt
  group_sums-IsMap e ((k, ms) ∷ rows) =
      insert-IsMap e k 0 (group_sums e rows) (group_sums-IsMap e rows)

  whole-group_sums : (e : Eq K) (rows : List (K × ℕ)) → whole (group_sums e rows) ≡ whole rows
  unfolding group_sums
  whole-group_sums e [] = refl
  whole-group_sums e ((k, ms) ∷ rows) =
      let rest = whole-group_sums e rows in
      let grown = sum_if-add e (λ k. true) k ms (group_sums e rows) (group_sums-IsMap e rows) in
      ground (arith, rest, grown)

-- Every application of the table is registered, as the foreign key says.
abbrev pub AreRegistered : UsageTable AppKey → List AppRow → Type 0
AreRegistered [] apps = Unit
AreRegistered ((k, row) ∷ t) apps = (is_some (load_app k.1.1 apps) ≡ true) × AreRegistered t apps

whole-chosen :
    (first last : String) (uid : Uid) (t : UsageTable AppKey) (apps : List AppRow)
    → AreRegistered t apps
    → whole (chosen (λ k. k.0) (λ k. load_app k.1.1 apps) first last uid t)
      ≡ whole (chosen (λ k. k.0) (λ k. some k.1.0) first last uid t)
unfolding chosen
whole-chosen first last uid [] apps h = refl
whole-chosen first last uid ((k, row) ∷ t) apps h =
    let rest = whole-chosen first last uid t apps h.1 in
    elim (Option-cases (load_app k.1.1 apps)) [
      | inl unknown ↦ ground (arith, h.0, unknown)
      | inr (c, known) ↦ elim (Bool-cases (in_dates first last uid k.0 k.1.0)) [
        | inl on ↦ rw (on, known) (ap (λ n. total_millis row + n) rest)
        | inr off ↦ rw off rest
      ]
    ]

-- For every user and range of days, the bars of the days add up to the same milliseconds as the
-- summary of the applications, if every application of the table is registered.
pub bars-app_usage_summary :
    (first last : String) (uid : Uid) (t : UsageTable AppKey) (apps : List AppRow)
    → AreRegistered t apps
    → whole (daily_bar_totals first last uid t) ≡ whole (app_usage_summary first last uid t apps)
unfolding daily_bar_totals app_usage_summary
bars-app_usage_summary first last uid t apps h =
    let days = chosen (λ k. k.0) (λ k. some k.1.0) first last uid t in
    let names = chosen (λ k. k.0) (λ k. load_app k.1.1 apps) first last uid t in
    whole-sort_by _ (group_sums string_eq days)
    ∙ whole-group_sums string_eq days
    ∙ sym (whole-chosen first last uid t apps h)
    ∙ sym (whole-sort_by larger (group_sums string_eq names) ∙ whole-group_sums string_eq names)
