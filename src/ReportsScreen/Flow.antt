-- ===== src/ReportsScreen/Flow.antt =====
-- `spawn_reports_flow` of crates/gui/src/reports/data/flow.rs, with what its `select!` chooses as a list of rounds.
use Prim.Native.String.{String}
use digital_wellbeing.Common.{
  ℕ, suc, ◌+◌, ◌-◌, ◌≡◌, refl, sym, subst, Bool, true, false, not, ◌&&◌, ◌==◌, if◌then◌else◌,
  Option, none, some, List, [], ◌∷◌, All, arith,
}
use digital_wellbeing.ReportsScreen.{
  Hours, DayRange, ReportCalls, ReportsViewModel, fetch_reports, derive_reports,
}

-- The four signals have the same handler; the flag of `appeared` is whether the bus was resolved again.
pub data ReportsEvent : Type 0 where
  appeared : Bool → ReportsEvent
  disappeared signalled stream_ended refresh : ReportsEvent

-- One round of the loop: how many signals could be received if it tried (`none` without a proxy),
-- the event, the range that is selected, and the answers and the clock while it is handled.
pub record ReportsRound : Type 0 where
  pub opened : Option ℕ
  pub event : ReportsEvent
  pub selected_range : DayRange
  pub calls : ReportCalls
  pub today : ℕ

-- `checked` is whether overflows are checked; a panic ends the task.
module _ (f : Hours) (checked : Bool) (date_text : ℕ → String) where
  -- The loop's variables, the number of tasks that forward signals, the watch channel's value, and
  -- whether the task has panicked.
  pub record ReportsFlow : Type 0 where
    pub current_vm : ReportsViewModel f
    pub generation : ℕ
    pub proxy_subscribed : Bool
    pub daemon_available : Bool
    pub streams : ℕ
    pub sent : Option (ReportsViewModel f)
    pub panicked : Bool

  -- The part of a round before its `select!`.
  unfoldable pub subscribe_reports : Option ℕ → ReportsFlow → ReportsFlow
  subscribe_reports opened s =
      if not s.proxy_subscribed && s.daemon_available
      then elim opened [
        | none ↦ s
        | some n ↦ record s { proxy_subscribed = true; streams = s.streams + n }
      ]
      else s

  -- `do_full_fetch` of the reports, with the generation that it was started for.
  unfoldable pub fetch_report_view : ReportsRound → ℕ → ReportsFlow → ReportsFlow
  unfolding fetch_reports derive_reports
  fetch_report_view r fetch_gen s =
      let derived =
        derive_reports f checked date_text r.today r.selected_range (record s.current_vm {
          found = some (fetch_reports date_text r.calls r.selected_range);
        }) in
      if fetch_gen == s.generation
      then elim derived [
        | none ↦ record s { panicked = true }
        | some vm ↦ record s { current_vm = vm; sent = some vm }
      ]
      else s

  unfoldable pub fetch_next_report : ReportsRound → ReportsFlow → ReportsFlow
  unfolding fetch_report_view
  fetch_next_report r s =
      fetch_report_view r (suc s.generation) (record s { generation = suc s.generation })

  -- The end of a stream is the end of its task.
  unfoldable pub handle_report_event : ReportsRound → ReportsEvent → ReportsFlow → ReportsFlow
  unfolding fetch_next_report
  handle_report_event r (appeared ok) s =
      let s' = record s { daemon_available = ok; proxy_subscribed = false } in
      if ok then fetch_next_report r s' else s'
  handle_report_event r disappeared s = record s { daemon_available = false }
  handle_report_event r signalled s = if s.daemon_available then fetch_next_report r s else s
  handle_report_event r stream_ended s = record s {
    proxy_subscribed = false;
    streams = s.streams - 1;
  }
  handle_report_event r refresh s = fetch_next_report r s

  unfoldable pub run_reports : List ReportsRound → ReportsFlow → ReportsFlow
  unfolding handle_report_event subscribe_reports
  run_reports [] s = s
  run_reports (r ∷ rounds) s =
      let next =
        run_reports rounds (handle_report_event r r.event (subscribe_reports r.opened s)) in
      if s.panicked then s else next

  -- The loop takes itself for subscribed while no task forwards a signal.
  abbrev pub IsDeaf : ReportsFlow → Type 0
  IsDeaf s = (s.proxy_subscribed ≡ true) × (s.streams ≡ 0)

  -- A round without a new daemon; a stream cannot end that is not there.
  abbrev pub IsSteady : ReportsEvent → Type 0
  IsSteady (appeared ok) = ⊥
  IsSteady disappeared = Unit
  IsSteady signalled = Unit
  IsSteady stream_ended = ⊥
  IsSteady refresh = Unit

  if-IsDeaf :
      (test : Bool) (s s' : ReportsFlow) → IsDeaf s → IsDeaf s' → IsDeaf (if test then s else s')
  if-IsDeaf true s s' h h' = h
  if-IsDeaf false s s' h h' = h'

  fetch-IsDeaf : (r : ReportsRound) (s : ReportsFlow) → IsDeaf s → IsDeaf (fetch_next_report r s)
  unfolding fetch_next_report fetch_report_view
  fetch-IsDeaf r s h = if-IsDeaf _ _ _ (either _) h
    where
      either :
          (o : Option (ReportsViewModel f))
          → IsDeaf (elim o [
            | none ↦ record s { generation = suc s.generation; panicked = true }
            | some vm ↦ record s { generation = suc s.generation; current_vm = vm; sent = some vm }
          ])
      either none = h
      either (some vm) = h

  handle-IsDeaf :
      (r : ReportsRound) (event : ReportsEvent) (s : ReportsFlow)
      → IsSteady event
      → IsDeaf s
      → IsDeaf (handle_report_event r event s)
  unfolding handle_report_event
  handle-IsDeaf r (appeared ok) s steady h = absurd steady
  handle-IsDeaf r disappeared s steady h = h
  handle-IsDeaf r signalled s steady h = if-IsDeaf s.daemon_available _ s (fetch-IsDeaf r s h) h
  handle-IsDeaf r stream_ended s steady h = absurd steady
  handle-IsDeaf r refresh s steady h = fetch-IsDeaf r s h

  subscribe-IsDeaf :
      (opened : Option ℕ) (s : ReportsFlow) → IsDeaf s → subscribe_reports opened s ≡ s
  unfolding subscribe_reports
  subscribe-IsDeaf opened s h =
      let skips : (not s.proxy_subscribed && s.daemon_available) ≡ false = ground arith in
      rw (subscribe_reports, skips) refl

  stays-IsDeaf :
      (rounds : List ReportsRound) (s : ReportsFlow)
      → All (λ r. IsSteady r.event) rounds
      → IsDeaf s
      → IsDeaf (run_reports rounds s)
  unfolding run_reports
  stays-IsDeaf [] s steady h = h
  stays-IsDeaf (r ∷ rounds) s steady h =
      let s' = subscribe_reports r.opened s in
      if-IsDeaf s.panicked s (run_reports rounds (handle_report_event r r.event s')) h (
        stays-IsDeaf rounds (handle_report_event r r.event s') steady.1 (
          handle-IsDeaf r r.event s' steady.0
            (subst IsDeaf (sym (subscribe-IsDeaf r.opened s h)) h)))

  -- If the reports flow has a proxy but could open no signal stream, no task forwards a signal after this round
  -- or after any later rounds, whatever the later rounds could open, as long as the daemon does not
  -- appear anew: the flow does not try again. No stream may be open before.
  pub run_reports-IsDeaf :
      (rounds : List ReportsRound) (s : ReportsFlow)
      → s.proxy_subscribed ≡ false
      → s.daemon_available ≡ true
      → s.streams ≡ 0
      → All (λ r. IsSteady r.event) rounds
      → IsDeaf (run_reports rounds (subscribe_reports (some 0) s))
  unfolding subscribe_reports
  run_reports-IsDeaf rounds s unsubscribed up silent steady =
      let tries : (not s.proxy_subscribed && s.daemon_available) ≡ true = ground arith in
      let is : subscribe_reports (some 0) s
          ≡ record s { proxy_subscribed = true; streams = s.streams + 0 } =
        rw (subscribe_reports, tries) refl in
      stays-IsDeaf rounds _ steady (subst IsDeaf (sym is) (refl, omega arith))
