-- ===== src/Dashboard/Slices.antt =====
-- The slices of the dashboard's chart and the summary that the daemon sends for them.
use Prim.Native.String.{String}
use digital_wellbeing.Common.{
  ℕ, ◌≤◌, ◌≡◌, refl, false, leb, List, [], ◌∷◌, map, inl, inr, Bool-cases, unwrap_or, arith,
}
use digital_wellbeing.Common.Eq.{string_eq}
use digital_wellbeing.Dashboard.{Floats}
use digital_wellbeing.Dashboard.Derive.{app_slice, build_app_slices, app_names, not_less}
use digital_wellbeing.Reports.{AppUsageSummary, get_app_usage_summary}
use digital_wellbeing.Store.{AppRow}
use digital_wellbeing.Store.Apps.{load_app}
use digital_wellbeing.Store.Categories.{AppCategoryRow}
use digital_wellbeing.Store.Usage.{UsageTables}
use digital_wellbeing.Store.Usage.Reads.{
  sort_by, insert_by, larger, app_usage_summary, group_sums, chosen,
}
use digital_wellbeing.Timeline.{Names}
use digital_wellbeing.Values.AppClass
use digital_wellbeing.Values.AppClass.{AppClass}
use digital_wellbeing.Values.Blocked.{Uid}

-- Division by a positive total does not turn the order of two sums around, as IEEE 754 rounds.
abbrev pub Monotone : Floats → Type 0
Monotone f =
    (a b : ℕ) (total : f.F64)
    → f.le_zero total ≡ false
    → a ≤ b
    → f.less (f.percent b total) (f.percent a total) ≡ false

-- Each entry is at least as large as the next.
abbrev pub Descending : List AppUsageSummary → Type 0
Descending [] = Unit
Descending (a ∷ []) = Unit
Descending (a ∷ b ∷ rest) = (b.total_millis ≤ a.total_millis) × Descending (b ∷ rest)

sort_by-slices :
    (f : Floats) (meta : Names) (total : f.F64) (summary : List AppUsageSummary)
    → Monotone f
    → f.le_zero total ≡ false
    → Descending summary
    → sort_by (not_less f) (map (app_slice f meta total) summary)
      ≡ map (app_slice f meta total) summary
unfolding sort_by insert_by app_slice
sort_by-slices f meta total [] mono some_time h = refl
sort_by-slices f meta total (a ∷ []) mono some_time h = refl
sort_by-slices f meta total (a ∷ b ∷ rest) mono some_time h =
    rw (sort_by-slices f meta total (b ∷ rest) mono some_time h.1)
      (rw (mono b.total_millis a.total_millis total some_time h.0) refl)

slices-keep_order :
    (f : Floats) (app_categories : List AppCategoryRow) (summary : List AppUsageSummary)
    → Monotone f
    → Descending summary
    → f.le_zero (f.total (map (λ s. s.total_millis) summary)) ≡ false
    → build_app_slices f summary app_categories
      ≡ map
          (app_slice f (app_names app_categories) (f.total (map (λ s. s.total_millis) summary)))
          summary
unfolding build_app_slices
slices-keep_order f app_categories [] mono h some_time = refl
slices-keep_order f app_categories (s ∷ rest) mono h some_time = rw some_time (
    sort_by-slices f (app_names app_categories) (f.total (map (λ a. a.total_millis) (s ∷ rest)))
      (s ∷ rest) mono some_time h)

-- The groups of a query, largest first.
abbrev Falling : {K : Type 0} → List (K × ℕ) → Type 0
Falling [] = Unit
Falling (a ∷ []) = Unit
Falling (a ∷ b ∷ rest) = (b.1 ≤ a.1) × Falling (b ∷ rest)

insert_by-Falling :
    {K : Type 0} (a : K × ℕ) (l : List (K × ℕ)) → Falling l → Falling (insert_by larger a l)
unfolding insert_by
insert_by-Falling a [] h = tt
insert_by-Falling a (b ∷ []) h = elim (Bool-cases (leb b.1 a.1)) [
  | inl first ↦ rw first (ground arith, tt)
  | inr later ↦ rw later (ground arith, tt)
]
insert_by-Falling a (b ∷ c ∷ rest) h = elim (Bool-cases (leb b.1 a.1)) [
  | inl first ↦ rw first (ground arith, h)
  | inr later ↦ rw later (elim (Bool-cases (leb c.1 a.1)) [
    | inl next ↦ rw next (ground arith, (ground arith, h.1))
    | inr after ↦
        let deeper = insert_by-Falling a (c ∷ rest) h.1 in rw after (h.0, rw after at deeper)
  ])
]

sort_by-Falling : {K : Type 0} (l : List (K × ℕ)) → Falling (sort_by larger l)
unfolding sort_by
sort_by-Falling [] = tt
sort_by-Falling (a ∷ l) = insert_by-Falling a (sort_by larger l) (sort_by-Falling l)

Falling-summaries :
    (class_of : String → AppClass) (l : List (String × ℕ))
    → Falling l
    → Descending (map (λ r. record { app_class = class_of r.0; total_millis = r.1 }) l)
Falling-summaries class_of [] h = tt
Falling-summaries class_of (a ∷ []) h = tt
Falling-summaries class_of (a ∷ b ∷ rest) h = (h.0, Falling-summaries class_of (b ∷ rest) h.1)

-- The daemon's summary has the largest total first.
summary-Descending :
    (first last : String) (uid : Uid) (t : UsageTables) (apps : List AppRow)
    → Descending (get_app_usage_summary first last uid t apps)
unfolding get_app_usage_summary app_usage_summary
summary-Descending first last uid t apps =
    Falling-summaries (λ text. unwrap_or (AppClass.new text) (record { text = "?" }))
      (app_usage_summary first last uid t.by_app apps)
      (sort_by-Falling (
        group_sums string_eq
          (chosen (λ k. k.0) (λ k. load_app k.1.1 apps) first last uid t.by_app)))

-- While there is time to show, the chart has one slice for each entry of the summary that the daemon sends, in
-- the summary's order: the client's own sort by percentage moves none of them.
pub build_app_slices-keeps_order :
    (f : Floats) (first last : String) (uid : Uid) (t : UsageTables) (apps : List AppRow)
    (app_categories : List AppCategoryRow)
    → Monotone f
    → let summary = get_app_usage_summary first last uid t apps in
      let total = f.total (map (λ s. s.total_millis) summary) in
      f.le_zero total ≡ false
      → build_app_slices f summary app_categories
        ≡ map (app_slice f (app_names app_categories) total) summary
build_app_slices-keeps_order f first last uid t apps app_categories mono some_time =
    slices-keep_order f app_categories (get_app_usage_summary first last uid t apps) mono
      (summary-Descending first last uid t apps) some_time
