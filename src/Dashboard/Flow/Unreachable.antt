-- ===== src/Dashboard/Flow/Unreachable.antt =====
-- What a full fetch makes of a daemon that answers nothing.
use digital_wellbeing.Common.{ℕ, suc, ◌≡◌, refl, true, ◌==◌, Option, none, some, [], arith}
use digital_wellbeing.Dashboard.{Floats}
use digital_wellbeing.Dashboard.Derive.{
  recompute_derived, build_app_slices, build_category_slices, build_top_apps_from_summary,
  build_top_titles_from_summary, build_block_cards, compute_kpis,
}
use digital_wellbeing.Dashboard.Repo.{DashboardRepo, fetch_all}
use digital_wellbeing.Dashboard.Flow.{
  FlowEvent, Round, Flow, handle_round, next_fetch, do_full_fetch,
}
use digital_wellbeing.Timeline.{sum}

-- Every call fails.
abbrev pub unreachable : DashboardRepo
unreachable = record {
  blocked_apps = none;
  day_events = λ start_flow finish. none;
  categories = none;
  app_categories = none;
  category_usage_summary = λ start_flow finish. none;
  app_usage_summary = λ start_flow finish. none;
  title_usage_summary = λ start_flow finish. none;
}

-- A manual refresh while the daemon does not answer does not keep the last good view: whatever was
-- shown, the view that is sent then has no slices, no applications, no titles and no cards, and its
-- headline figures are zero: the total, the time of the top application and the number of blocks.
pub refresh-clears :
    (f : Floats) (to_datetime : ℕ → Option ℕ) (r : Round) (s : Flow f to_datetime)
    → r.repo ≡ unreachable
    → let after = handle_round f to_datetime r FlowEvent.refresh s in
      (after.sent ≡ some after.current_vm)
      × (after.current_vm.pie_app ≡ [])
      × (after.current_vm.pie_category ≡ [])
      × (after.current_vm.top_apps ≡ [])
      × (after.current_vm.top_titles ≡ [])
      × (after.current_vm.block_cards ≡ [])
      × (let kpis = compute_kpis f after.current_vm in
          (kpis.total_millis ≡ 0) × (kpis.top_app_millis ≡ 0) × (kpis.active_blocks ≡ 0))
unfolding handle_round next_fetch do_full_fetch recompute_derived fetch_all build_app_slices
    build_category_slices build_top_apps_from_summary build_top_titles_from_summary
    build_block_cards compute_kpis sum
refresh-clears f to_datetime r s down =
    let same : (suc s.gen_cnt == suc s.gen_cnt) ≡ true = ground arith in
    rw (same, down) (refl, refl, refl, refl, refl, refl, (refl, refl, refl))
