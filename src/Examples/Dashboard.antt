-- ===== src/Examples/Dashboard.antt =====
-- The dashboard on small answers, with whole numbers in place of `f64`.
use native.Mathlib.Nat.{le-div_iff_mul-le, mul-div-le}
use digital_wellbeing.Common.{
  ℕ, ◌+◌, ◌*◌, ◌/◌, ◌≤◌, ◌<◌, ◌≡◌, refl, true, false, ltb, ◌==◌, Option, none, some, List, [], ◌∷◌,
  map, length, All, arith,
}
use digital_wellbeing.Dashboard.{Floats, DashboardData, empty_view}
use digital_wellbeing.Dashboard.Derive.{
  app_slice, app_names, build_app_slices, recompute_derived, compute_kpis,
  build_top_apps_from_summary, build_block_cards, number_from,
}
use digital_wellbeing.Dashboard.Figures.{compute_kpis-ten, millis}
use digital_wellbeing.Dashboard.Flow.{
  FlowSignal, FlowEvent, Round, Flow, start_flow, next_fetch, do_full_fetch, handle_round, run_flow,
}
use digital_wellbeing.Dashboard.Flow.Fresh.{shown, told, last_basis, run_flow-shows}
use digital_wellbeing.Dashboard.Flow.Unreachable.{unreachable, refresh-clears}
use digital_wellbeing.Dashboard.Repo.{DashboardRepo, fetch_all}
use digital_wellbeing.Dashboard.Seed.Midnight.{recompute_derived-day_total}
use digital_wellbeing.Dashboard.Slices.{Monotone, build_app_slices-keeps_order}
use digital_wellbeing.Examples.Store.{day, tables}
use digital_wellbeing.Focus.{focus_ms}
use digital_wellbeing.Reports.{AppUsageSummary, get_app_usage_summary}
use digital_wellbeing.Store.Events.{EventTable, get_day_events}
use digital_wellbeing.Store.Usage.{UsageTables}
use digital_wellbeing.Timeline.{
  DayTimeline, sum, build_day_timeline, focus_total, fill_time_gaps, sort_by_start, push_blocks,
  close_pending, seed_pending, make_focus_block, block_millis,
}
use digital_wellbeing.Timeline.Agreement.{row_moments}
use digital_wellbeing.Values.BlockReason.{BlockReason}
use digital_wellbeing.Values.Blocked.{BlockedAppEntry}
use digital_wellbeing.Values.EventType

abbrev share : ℕ → ℕ → ℕ
share a total = a * 100 / total

abbrev whole : Floats
whole = record {
  F64 = ℕ;
  from_millis = λ n. n;
  total = sum_of;
  le_zero = λ n. n == 0;
  percent = share;
  less = ltb;
}
  where
    sum_of : List ℕ → ℕ
    sum_of [] = 0
    sum_of (n ∷ ns) = n + sum_of ns

share_mono : (a b total : ℕ) → 0 < total → a ≤ b → share a total ≤ share b total
share_mono a b total pos le = (le-div_iff_mul-le pos).1 (grind (arith, mul-div-le (a * 100) total))

whole-Monotone : Monotone whole
whole-Monotone a b total some_time le =
    let pos : 0 < total = ground arith in let le' = share_mono a b total pos le in ground arith

abbrev usage : UsageTables
usage = record { by_app = day; by_title = []; by_category = [] }

build_app_slices-keeps_order_example :
    build_app_slices whole
      (get_app_usage_summary "2026-07-17" "2026-07-18" 1000 usage tables.apps)
      []
    ≡ map
        (app_slice whole (app_names []) 175)
        (get_app_usage_summary "2026-07-17" "2026-07-18" 1000 usage tables.apps)
unfolding get_app_usage_summary
build_app_slices-keeps_order_example =
    build_app_slices-keeps_order whole "2026-07-17" "2026-07-18" 1000 usage tables.apps []
      whole-Monotone refl

abbrev steam_use : AppUsageSummary
steam_use = record { app_class = record { text = "steam" }; total_millis = 145 }

abbrev code_use : AppUsageSummary
code_use = record { app_class = record { text = "Code" }; total_millis = 30 }

abbrev steam_blocked : BlockedAppEntry
steam_blocked = record {
  app_class = record { text = "steam" };
  policy_id = 1;
  reason = BlockReason.app_block;
  blocked_since = 5;
}

abbrev answers : DashboardData
answers = record {
  blocked = steam_blocked ∷ [];
  day_events = [];
  day_seed = none;
  category_summary = [];
  categories = [];
  app_categories = [];
  app_summary = steam_use ∷ code_use ∷ [];
  title_summary = [];
}

compute_kpis-ten_example :
    let shown =
      recompute_derived whole some 900 1000 (record (empty_view whole) { found = some answers }) in
    let kpis = compute_kpis whole shown in
    (kpis.total_millis + millis [] ≡ millis (steam_use ∷ code_use ∷ []))
    × (kpis.top_app_millis ≡ 145)
    × (kpis.active_blocks ≡ length answers.blocked)
unfolding sum
compute_kpis-ten_example =
    compute_kpis-ten whole some 900 1000 (empty_view whole) answers steam_use (code_use ∷ []) refl
      refl

abbrev events : EventTable
events =
    (
      1,
      record {
        event_type = 0;
        user_id = 1000;
        timestamp = 86399000;
        app_class = some "steam";
        title = some "game";
      },
    )
    ∷ (
      2,
      record {
        event_type = 3;
        user_id = 1000;
        timestamp = 86399500;
        app_class = none;
        title = none;
      },
    )
    ∷ (
      3,
      record {
        event_type = 1;
        user_id = 1000;
        timestamp = 86402000;
        app_class = none;
        title = none;
      },
    )
    ∷ []

abbrev served : DashboardRepo
served = record unreachable {
  day_events = λ first last. some (get_day_events 1000 first last events);
  blocked_apps = some (steam_blocked ∷ []);
  app_usage_summary = λ first last. some (steam_use ∷ code_use ∷ []);
}

past : All (λ r. r.timestamp ≤ 86405000) (get_day_events 1000 86400000 172800000 events)
unfolding get_day_events
past = (omega arith, tt)

recompute_derived-day_total_example :
    (tl : DayTimeline) × ((recompute_derived whole some 900 86405000
        (record (empty_view whole) { found = some (fetch_all served "" "" 86404000) })).day_timeline
      ≡ some tl)
    × (focus_ms false 0 (row_moments (get_day_events 1000 0 172800000 events)) 86405000
        ≡ focus_ms false 0 (row_moments (get_day_events 1000 0 86400000 events)) 86400000
          + tl.total_focus_millis)
recompute_derived-day_total_example =
    recompute_derived-day_total whole some (empty_view whole) served 1000 events "" "" 86404000 900
      86405000 refl refl past

abbrev total_of : Option DayTimeline → ℕ
total_of none = 0
total_of (some tl) = tl.total_focus_millis

-- Two seconds of the day went by before the focus was lost.
seeded_from_before :
    total_of
      (recompute_derived whole some 900 86405000
        (record (empty_view whole) { found = some (fetch_all served "" "" 86404000) })).day_timeline
    ≡ 2000
unfolding recompute_derived fetch_all get_day_events build_day_timeline focus_total fill_time_gaps
    sort_by_start push_blocks EventType.same EventType.is_close close_pending seed_pending
    make_focus_block block_millis
seeded_from_before = refl

abbrev full : DashboardRepo
full = record served { day_events = λ first last. some [] }

abbrev round : FlowEvent → DashboardRepo → Round
round event repo = record {
  opened = some (FlowSignal.app_blocked ∷ []);
  event = event;
  repo = repo;
  date_text = λ d. "";
  range_now = 86404000;
  day_now = 86404000;
  card_now = 86404500;
  now = 86405000;
}

-- A flow that shows two applications and a block.
abbrev filled : Flow whole some
filled =
    handle_round whole some (round FlowEvent.refresh full) FlowEvent.refresh (start_flow whole some)

was_shown :
    let kpis = compute_kpis whole filled.current_vm in
    (kpis.total_millis ≡ 175) × (kpis.top_app_millis ≡ 145) × (kpis.active_blocks ≡ 1)
unfolding handle_round next_fetch do_full_fetch fetch_all recompute_derived compute_kpis
    build_top_apps_from_summary build_block_cards sum number_from start_flow
was_shown = (refl, refl, refl)

refresh-clears_example :
    let after =
      handle_round whole some (round FlowEvent.refresh unreachable) FlowEvent.refresh filled in
    (after.sent ≡ some after.current_vm)
    × (after.current_vm.pie_app ≡ [])
    × (after.current_vm.pie_category ≡ [])
    × (after.current_vm.top_apps ≡ [])
    × (after.current_vm.top_titles ≡ [])
    × (after.current_vm.block_cards ≡ [])
    × (let kpis = compute_kpis whole after.current_vm in
        (kpis.total_millis ≡ 0) × (kpis.top_app_millis ≡ 0) × (kpis.active_blocks ≡ 0))
refresh-clears_example = refresh-clears whole some (round FlowEvent.refresh unreachable) filled refl

abbrev three : List Round
three =
    round FlowEvent.refresh served
    ∷ round (FlowEvent.signal FlowSignal.app_blocked) served
    ∷ round FlowEvent.disappeared served
    ∷ []

run_flow-shows_example :
    let s = run_flow whole some three (start_flow whole some) in
    (s.current_vm ≡ shown whole some (last_basis true none three))
    × (s.sent ≡ told whole some (last_basis true none three))
run_flow-shows_example = run_flow-shows whole some three
