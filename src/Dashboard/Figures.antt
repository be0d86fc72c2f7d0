-- ===== src/Dashboard/Figures.antt =====
-- The headline figures of the dashboard.
use Prim.Native.String.{String}
use digital_wellbeing.Common.{
  ℕ, zero, suc, ◌+◌, ◌≡◌, refl, ap, false, Option, some, List, [], ◌∷◌, map, take, length, arith,
}
use digital_wellbeing.Dashboard.{Floats, DashboardData, DashboardViewModel}
use digital_wellbeing.Dashboard.Derive.{
  app_names, recompute_derived, build_top_apps_from_summary, build_block_cards, app_entry, app_meta,
  Meta, number_from, compute_kpis,
}
use digital_wellbeing.Reports.{AppUsageSummary}
use digital_wellbeing.Timeline.{sum}
use digital_wellbeing.Values.Blocked.{BlockedAppEntry}

-- What `take` leaves.
abbrev pub drop : {A : Type 0} → ℕ → List A → List A
drop zero l = l
drop (suc k) [] = []
drop (suc k) (a ∷ l) = drop k l

abbrev pub millis : List AppUsageSummary → ℕ
millis summary = sum (map (λ s. s.total_millis) summary)

millis-cut : (k : ℕ) (l : List AppUsageSummary) → millis (take k l) + millis (drop k l) ≡ millis l
unfolding sum
millis-cut zero l = omega arith
millis-cut (suc k) [] = omega arith
millis-cut (suc k) (a ∷ l) = omega (arith, millis-cut k l)

millis-number_from :
    (f : Floats) (meta : Meta) (blocked : List BlockedAppEntry) (grand_total : f.F64) (i : ℕ)
    (l : List AppUsageSummary)
    → sum (map (λ a. a.total_millis) (number_from (app_entry f meta blocked grand_total) i l))
      ≡ millis l
unfolding number_from app_entry sum
millis-number_from f meta blocked grand_total i [] = refl
millis-number_from f meta blocked grand_total i (s ∷ l) =
    ap (λ n. s.total_millis + n) (millis-number_from f meta blocked grand_total (suc i) l)

length-cards :
    (to_datetime : ℕ → Option ℕ) (now : ℕ) (blocked : List BlockedAppEntry)
    (names : List (String × String))
    → length (build_block_cards to_datetime now blocked names) ≡ length blocked
unfolding build_block_cards
length-cards to_datetime now [] names = refl
length-cards to_datetime now (b ∷ bs) names = ap suc (length-cards to_datetime now bs names)

-- While there is time to show, the headline figures of a view that was computed in full are: a total that counts the first ten
-- applications of the summary and leaves out the time of all others, the time of the first
-- application, and the number of the blocked applications.
pub compute_kpis-ten :
    (f : Floats) (to_datetime : ℕ → Option ℕ) (card_now now : ℕ) (vm : DashboardViewModel f)
    (d : DashboardData) (s : AppUsageSummary) (rest : List AppUsageSummary)
    → d.app_summary ≡ s ∷ rest
    → f.le_zero (f.from_millis (millis (s ∷ rest))) ≡ false
    → let shown = recompute_derived f to_datetime card_now now (record vm { found = some d }) in
      let kpis = compute_kpis f shown in
      (kpis.total_millis + millis (drop 10 (s ∷ rest)) ≡ millis (s ∷ rest))
      × (kpis.top_app_millis ≡ s.total_millis)
      × (kpis.active_blocks ≡ length d.blocked)
unfolding recompute_derived compute_kpis build_top_apps_from_summary
compute_kpis-ten f to_datetime card_now now vm d s rest same some_time =
    let listed =
      millis-number_from f (app_meta d.app_categories) d.blocked (f.from_millis (millis (s ∷ rest)))
        0 (take 10 (s ∷ rest)) in
    let cards = length-cards to_datetime card_now d.blocked (app_names d.app_categories) in
    let cut = millis-cut 10 (s ∷ rest) in
    rw (same, build_top_apps_from_summary) (rw some_time (omega (arith, listed, cut), refl, cards))
