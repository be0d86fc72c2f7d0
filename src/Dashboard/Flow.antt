-- ===== src/Dashboard/Flow.antt =====
-- `spawn_dashboard_flow` of crates/gui/src/dashboard/data/flow.rs: the task that keeps the dashboard up to date.
-- What its `select!` chooses is a list of rounds, each with what the outside answers in it.
pub mod Fresh
pub mod Unreachable
use Prim.Native.String.{String}
use digital_wellbeing.Common.{
  ℕ, suc, Bool, true, false, not, ◌&&◌, ◌==◌, if◌then◌else◌, Option, none, some, List, [], ◌∷◌,
  ◌++◌, filter,
}
use digital_wellbeing.Dashboard.{Floats, DashboardData, DashboardViewModel, empty_view}
use digital_wellbeing.Dashboard.Derive.{recompute_derived, recompute_blocked}
use digital_wellbeing.Dashboard.Repo.{DashboardRepo, fetch_all}

-- `FlowSignal`, less the end of a stream.
pub data FlowSignal : Type 0 where
  app_blocked policy_changed domain_blocked usage_updated : FlowSignal

-- The flag of `appeared` is whether the bus was resolved again.
pub data FlowEvent : Type 0 where
  appeared : Bool → FlowEvent
  disappeared refresh : FlowEvent
  signal stream_ended : FlowSignal → FlowEvent

-- One round of the loop: the signal streams that could be opened if it tried (`none` without a
-- connection or a proxy), the event, and the answers while it is handled. `date_text` formats a
-- date; the clock is read for the range, for the day, for the cards and for the timeline.
pub record Round : Type 0 where
  pub opened : Option (List FlowSignal)
  pub event : FlowEvent
  pub repo : DashboardRepo
  pub date_text : ℕ → String
  pub range_now : ℕ
  pub day_now : ℕ
  pub card_now : ℕ
  pub now : ℕ

-- `signal_code` tells the signals apart.
unfoldable pub signal_code : FlowSignal → ℕ
signal_code app_blocked = 0
signal_code policy_changed = 1
signal_code domain_blocked = 2
signal_code usage_updated = 3

-- The first task that forwards a signal ends.
unfoldable pub end_stream : FlowSignal → List FlowSignal → List FlowSignal
unfolding signal_code
end_stream s [] = []
end_stream s (t ∷ ts) = if signal_code t == signal_code s then ts else t ∷ end_stream s ts

module _ (f : Floats) (to_datetime : ℕ → Option ℕ) where
  -- The variables of the loop, the tasks that forward signals, and the value of the watch channel.
  pub record Flow : Type 0 where
    pub current_vm : DashboardViewModel f
    pub gen_cnt : ℕ
    pub proxy_subscribed : Bool
    pub daemon_available : Bool
    pub streams : List FlowSignal
    pub sent : Option (DashboardViewModel f)

  unfoldable pub start_flow : Flow
  unfolding empty_view
  start_flow = record {
    current_vm = empty_view f;
    gen_cnt = 0;
    proxy_subscribed = false;
    daemon_available = true;
    streams = [];
    sent = none;
  }

  -- The part of a round before its `select!`.
  unfoldable pub subscribe_signals : Option (List FlowSignal) → Flow → Flow
  subscribe_signals opened s =
      if not s.proxy_subscribed && s.daemon_available
      then elim opened [
        | none ↦ s
        | some [] ↦ record s { proxy_subscribed = false }
        | some (t ∷ ts) ↦ record s { proxy_subscribed = true; streams = s.streams ++ t ∷ ts }
      ]
      else s

  -- With the generation that the fetch was started for.
  unfoldable pub do_full_fetch : Round → ℕ → Flow → Flow
  do_full_fetch r fetch_gen s =
      let data_ = fetch_all r.repo (r.date_text r.range_now) (r.date_text r.range_now) r.day_now in
      let vm =
        recompute_derived f to_datetime r.card_now r.now
          (record s.current_vm { found = some data_ }) in
      if fetch_gen == s.gen_cnt then record s { current_vm = vm; sent = some vm } else s

  unfoldable pub next_fetch : Round → Flow → Flow
  unfolding do_full_fetch
  next_fetch r s = do_full_fetch r (suc s.gen_cnt) (record s { gen_cnt = suc s.gen_cnt })

  -- The answer of `get_blocked_apps` after an `app_blocked` signal.
  unfoldable pub patch_blocked : Round → Flow → Flow
  patch_blocked r s = elim r.repo.blocked_apps [
    | none ↦ s
    | some blocked ↦ elim s.current_vm.found [
      | none ↦ s
      | some d ↦
          let vm =
            recompute_blocked f to_datetime r.card_now
              (record s.current_vm { found = some (record d { blocked = blocked }) }) in
          record s { current_vm = vm; sent = some vm }
    ]
  ]

  unfoldable pub handle_round : Round → FlowEvent → Flow → Flow
  unfolding next_fetch patch_blocked end_stream
  handle_round r (appeared ok) s =
      let s' = record s { daemon_available = ok; proxy_subscribed = false } in
      if ok then next_fetch r s' else s'
  handle_round r disappeared s = record s { daemon_available = false }
  handle_round r refresh s = next_fetch r s
  handle_round r (signal app_blocked) s = if s.daemon_available then patch_blocked r s else s
  handle_round r (signal policy_changed) s = if s.daemon_available then next_fetch r s else s
  handle_round r (signal domain_blocked) s = if s.daemon_available then next_fetch r s else s
  handle_round r (signal usage_updated) s = if s.daemon_available then next_fetch r s else s
  handle_round r (stream_ended t) s = record s {
    proxy_subscribed = false;
    streams = end_stream t s.streams;
  }

  unfoldable pub run_flow : List Round → Flow → Flow
  unfolding handle_round subscribe_signals
  run_flow [] s = s
  run_flow (r ∷ rounds) s = run_flow rounds (handle_round r r.event (subscribe_signals r.opened s))
