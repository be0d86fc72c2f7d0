-- ===== src/ReportsScreen/Bars.antt =====
-- The bars of the reports screen, against a description without a map or a loop.
use Prim.Native.String.{String}
use digital_wellbeing.Common.{
  ℕ, zero, suc, ◌+◌, ◌-◌, ◌≡◌, refl, ap, ◌∙◌, ◌<◌, ◌^◌, ◌&&◌, Bool, true, false, not, ◌==◌, leb,
  if◌then◌else◌, Option, none, some, unwrap_or, List, [], ◌∷◌, map, arith, inl, inr, Bool-cases,
}
use digital_wellbeing.Common.Eq.{string_eq}
use digital_wellbeing.Common.Map.{get, insert, get-insert}
use digital_wellbeing.Reports.{DateTotal}
use digital_wellbeing.ReportsScreen.{
  Hours, day_count, max_bars, fill_view, DayRange, ReportsData, ReportsViewModel, DailyBar,
  totals_by_date, push_bars, derive_reports,
}

-- What the last row of a date says, or another number without one.
abbrev pub last_total : String → List DateTotal → ℕ → ℕ
last_total date [] other = other
last_total date (dt ∷ totals) other =
    last_total date totals (if string_eq.beq dt.date date then dt.total_millis else other)

one_total :
    (date key : String) (n : ℕ) (m : List (String × ℕ))
    → unwrap_or (get string_eq date (insert string_eq key n m)) 0
      ≡ (if string_eq.beq key date then n else unwrap_or (get string_eq date m) 0)
one_total date key n m = elim (Bool-cases (string_eq.beq key date)) [
  | inl same ↦ ap (λ o. unwrap_or o 0) (get-insert string_eq key date n m) ∙ rw same refl
  | inr other ↦ ap (λ o. unwrap_or o 0) (get-insert string_eq key date n m) ∙ rw other refl
]

totals_by_date-get :
    (date : String) (totals : List DateTotal) (m : List (String × ℕ))
    → unwrap_or (get string_eq date (totals_by_date totals m)) 0
      ≡ last_total date totals (unwrap_or (get string_eq date m) 0)
unfolding totals_by_date
totals_by_date-get date [] m = refl
totals_by_date-get date (dt ∷ totals) m =
    totals_by_date-get date totals (insert string_eq dt.date dt.total_millis m)
    ∙ ap (last_total date totals) (one_total date dt.date dt.total_millis m)

-- The days from one on.
abbrev pub days_from : ℕ → ℕ → List ℕ
days_from day zero = []
days_from day (suc n) = day ∷ days_from (suc day) n

module _ (f : Hours) (date_text : ℕ → String) (today : ℕ) where
  -- The bar of a day.
  abbrev pub bar_of : List DateTotal → ℕ → DailyBar f
  bar_of totals day = record {
    date = day;
    hours_tracked = f.hours (last_total (date_text day) totals 0);
    is_today = day == today;
  }

  push_bars-days :
      (totals : List DateTotal) (end fuel cursor : ℕ)
      → fuel ≡ end + 1 - cursor
      → push_bars f date_text (totals_by_date totals []) today end fuel cursor
        ≡ map (bar_of totals) (days_from cursor fuel)
  unfolding push_bars
  push_bars-days totals end zero cursor is = refl
  push_bars-days totals end (suc fuel) cursor is =
      let within : leb cursor end ≡ true = ground arith in
      let rest = push_bars-days totals end fuel (suc cursor) (omega arith) in
      rw (within, totals_by_date-get (date_text cursor) totals [])
        (ap (λ bars. bar_of totals cursor ∷ bars) rest)

  abbrev pub bars_of : Option (ReportsViewModel f) → Option (List (DailyBar f))
  bars_of none = none
  bars_of (some vm) = some vm.bar_chart

  -- A range that ends on the day before its start.
  turned_by_one :
      (checked : Bool) (range : DayRange) (d : ReportsData) (vm : ReportsViewModel f)
      → vm.found ≡ some d
      → leb range.start range.end ≡ false
      → range.start - range.end ≡ 1
      → bars_of (derive_reports f checked date_text today range vm)
        ≡ (if not checked && true then some [] else none)
  unfolding derive_reports day_count fill_view push_bars
  turned_by_one true range d vm found turned apart =
      rw (derive_reports, found, day_count, turned, apart) refl
  turned_by_one false range d vm found turned apart =
      let no_day : range.end + 1 - range.start ≡ 0 = ground arith in
      rw (derive_reports, found, day_count, turned, apart) (ap some (rw no_day refl))

  -- A range that ends earlier.
  turned_by_more :
      (checked : Bool) (range : DayRange) (d : ReportsData) (vm : ReportsViewModel f)
      → vm.found ≡ some d
      → leb range.start range.end ≡ false
      → range.start < 2 ^ 32
      → (range.end + 1 == range.start) ≡ false
      → bars_of (derive_reports f checked date_text today range vm)
        ≡ (if not checked && false then some [] else none)
  unfolding derive_reports day_count
  turned_by_more checked range d vm found turned first far =
      let few : leb (2 ^ 64) (2 ^ 64 - (range.start - range.end) + 1) ≡ false = ground arith in
      let many : leb (2 ^ 64 - (range.start - range.end) + 1) max_bars ≡ false = ground arith in
      rw (derive_reports, found, day_count, turned, few, many) (ground arith)

  -- The chart of the reports screen has one bar for each day of the range, both ends included, in
  -- their order. The bar of a day has the hours of the last total that the daemon gave for the
  -- date, none without one, and only the bar of the day that the clock shows is marked as today.
  -- For a range that ends before it starts the computation panics, except that the chart is empty if
  -- it ends on the day before its start and overflows are not checked. Days are numbers of 32 bits.
  pub derive_reports-bars :
      (checked : Bool) (range : DayRange) (d : ReportsData) (vm : ReportsViewModel f)
      → vm.found ≡ some d
      → range.start < 2 ^ 32
      → range.end < 2 ^ 32
      → bars_of (derive_reports f checked date_text today range vm) ≡ (
          if leb range.start range.end
          then some
              (map (bar_of d.daily_totals) (days_from range.start (range.end + 1 - range.start)))
          else if not checked && range.end + 1 == range.start
          then some []
          else none)
  unfolding derive_reports day_count fill_view
  derive_reports-bars checked range d vm found first last =
      let shown =
        push_bars-days d.daily_totals range.end (range.end + 1 - range.start) range.start refl in
      elim (Bool-cases (leb range.start range.end)) [
        | inl proper ↦
            let few : leb (2 ^ 64) (range.end - range.start + 1) ≡ false = ground arith in
            let fits : leb (range.end - range.start + 1) max_bars ≡ true = ground arith in
            rw (derive_reports, found, day_count, proper, few, fits) (ap some shown)
        | inr turned ↦ rw turned (elim (Bool-cases (range.end + 1 == range.start)) [
          | inl next ↦ rw next (turned_by_one checked range d vm found turned (ground arith))
          | inr far ↦ rw far (turned_by_more checked range d vm found turned first far)
        ])
      ]
