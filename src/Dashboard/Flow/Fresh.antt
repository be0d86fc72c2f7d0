-- ===== src/Dashboard/Flow/Fresh.antt =====
-- What the flow's view shows at every moment.
use digital_wellbeing.Common.{
  ℕ, suc, ◌≡◌, refl, sym, subst, ap, ◌∙◌, Bool, true, false, not, ◌&&◌, ◌==◌, if◌then◌else◌, ◌++◌,
  Option, none, some, List, [], ◌∷◌, arith,
}
use digital_wellbeing.Dashboard.{Floats, DashboardData, DashboardViewModel, empty_view}
use digital_wellbeing.Dashboard.Derive.{
  recompute_derived, recompute_blocked, build_block_cards, app_names,
}
use digital_wellbeing.Dashboard.Repo.{fetch_all}
use digital_wellbeing.Dashboard.Flow.{
  FlowSignal, FlowEvent, Round, Flow, start_flow, subscribe_signals, do_full_fetch, next_fetch,
  patch_blocked, handle_round, run_flow,
}
use digital_wellbeing.Values.Blocked.{BlockedAppEntry}

-- The last full fetch, with its readings of the clock, and the blocked applications that were told last,
-- with the reading of the clock then.
pub record Basis : Type 0 where
  pub fetched : DashboardData
  pub full_card_now : ℕ
  pub full_now : ℕ
  pub blocked : List BlockedAppEntry
  pub card_now : ℕ

abbrev full_fetch : Round → Basis
full_fetch r =
    let d = fetch_all r.repo (r.date_text r.range_now) (r.date_text r.range_now) r.day_now in
    record {
      fetched = d;
      full_card_now = r.card_now;
      full_now = r.now;
      blocked = d.blocked;
      card_now = r.card_now;
    }

-- A list of blocked applications that came, if there is a fetch to put it into.
abbrev told_blocked : ℕ → Option (List BlockedAppEntry) → Option Basis → Option Basis
told_blocked now none o = o
told_blocked now (some blocked) none = none
told_blocked now (some blocked) (some b) = some (record b { blocked = blocked; card_now = now })

-- Whether the daemon is taken to be there after an event.
abbrev pub up_after : Bool → FlowEvent → Bool
up_after up (FlowEvent.appeared ok) = ok
up_after up FlowEvent.disappeared = false
up_after up FlowEvent.refresh = up
up_after up (FlowEvent.signal t) = up
up_after up (FlowEvent.stream_ended t) = up

abbrev pub basis_after : Bool → Round → FlowEvent → Option Basis → Option Basis
basis_after up r (FlowEvent.appeared ok) o = if ok then some (full_fetch r) else o
basis_after up r FlowEvent.disappeared o = o
basis_after up r FlowEvent.refresh o = some (full_fetch r)
basis_after up r (FlowEvent.signal FlowSignal.app_blocked) o =
    if up then told_blocked r.card_now r.repo.blocked_apps o else o
basis_after up r (FlowEvent.signal FlowSignal.policy_changed) o =
    if up then some (full_fetch r) else o
basis_after up r (FlowEvent.signal FlowSignal.domain_blocked) o =
    if up then some (full_fetch r) else o
basis_after up r (FlowEvent.signal FlowSignal.usage_updated) o =
    if up then some (full_fetch r) else o
basis_after up r (FlowEvent.stream_ended t) o = o

-- What the rounds leave: the answers of the last round that asked for all, and those of the last
-- quick answer since.
abbrev pub last_basis : Bool → Option Basis → List Round → Option Basis
last_basis up o [] = o
last_basis up o (r ∷ rounds) = last_basis (up_after up r.event) (basis_after up r r.event o) rounds

module _ (f : Floats) (to_datetime : ℕ → Option ℕ) where
  -- The view of some data, computed in full when the blocked applications were `then_blocked`, with
  -- the cards computed again for the ones that the data has now.
  abbrev pub shown_at : DashboardData → List BlockedAppEntry → ℕ → ℕ → ℕ → DashboardViewModel f
  shown_at d then_blocked full_now now card_now =
      record (recompute_derived f to_datetime full_now now
        (record (empty_view f) { found = some (record d { blocked = then_blocked }) })) {
          found = some d;
          block_cards =
              build_block_cards to_datetime card_now d.blocked (app_names d.app_categories);
        }

  abbrev pub view_of : Basis → DashboardViewModel f
  view_of b =
      shown_at (record b.fetched { blocked = b.blocked }) b.fetched.blocked b.full_card_now
        b.full_now b.card_now

  abbrev pub shown : Option Basis → DashboardViewModel f
  shown none = empty_view f
  shown (some b) = view_of b

  abbrev pub told : Option Basis → Option (DashboardViewModel f)
  told none = none
  told (some b) = some (view_of b)

  record Tracks (up : Bool) (o : Option Basis) (s : Flow f to_datetime) : Type 0 where
    pub available : s.daemon_available ≡ up
    pub shows : s.current_vm ≡ shown o
    pub sends : s.sent ≡ told o

  full_fetch-Tracks :
      (up : Bool) (r : Round) (s : Flow f to_datetime)
      → s.daemon_available ≡ up
      → Tracks up (some (full_fetch r)) (next_fetch f to_datetime r s)
  unfolding next_fetch do_full_fetch recompute_derived
  full_fetch-Tracks up r s available =
      let same : (suc s.gen_cnt == suc s.gen_cnt) ≡ true = ground arith in
      rw same (record { available = available; shows = refl; sends = refl })

  -- The quick way computes the cards of the patched data, and nothing else.
  repatched :
      (d : DashboardData) (then_blocked now_blocked : List BlockedAppEntry)
      (full_now now card_now card_now' : ℕ) (vm : DashboardViewModel f)
      → vm ≡ shown_at d then_blocked full_now now card_now
      → recompute_blocked f to_datetime card_now'
          (record vm { found = some (record d { blocked = now_blocked }) })
        ≡ shown_at (record d { blocked = now_blocked }) then_blocked full_now now card_now'
  unfolding recompute_blocked recompute_derived empty_view
  repatched d then_blocked now_blocked full_now now card_now card_now' vm same =
      ap
        (λ (v : DashboardViewModel f).
          recompute_blocked f to_datetime card_now'
            (record v { found = some (record d { blocked = now_blocked }) }))
        same

  nothing_found : (empty_view f).found ≡ none
  unfolding empty_view
  nothing_found = refl

  patch_blocked-Tracks :
      (up : Bool) (r : Round) (o : Option Basis) (answer : Option (List BlockedAppEntry))
      (s : Flow f to_datetime)
      → r.repo.blocked_apps ≡ answer
      → Tracks up o s
      → Tracks up (told_blocked r.card_now answer o) (patch_blocked f to_datetime r s)
  unfolding patch_blocked
  patch_blocked-Tracks up r o none s answered h = rw (answered, patch_blocked) h
  patch_blocked-Tracks up r none (some blocked) s answered h =
      let nothing : s.current_vm.found ≡ none =
        ap (λ (v : DashboardViewModel f). v.found) h.shows ∙ nothing_found in
      let is : patch_blocked f to_datetime r s ≡ s =
        rw (answered, patch_blocked) (simp (nothing, patch_blocked) refl) in
      subst (Tracks up none) (sym is) h
  patch_blocked-Tracks up r (some b) (some blocked) s answered h =
      let d : DashboardData = record b.fetched { blocked = b.blocked } in
      let found_d : s.current_vm.found ≡ some d =
        ap (λ (v : DashboardViewModel f). v.found) h.shows in
      let vm =
        recompute_blocked f to_datetime r.card_now
          (record s.current_vm { found = some (record d { blocked = blocked }) }) in
      let is : patch_blocked f to_datetime r s ≡ record s { current_vm = vm; sent = some vm } =
        rw (answered, patch_blocked) (rw (found_d, patch_blocked) refl) in
      let new =
        repatched d b.fetched.blocked blocked b.full_card_now b.full_now b.card_now r.card_now
          s.current_vm h.shows in
      subst (Tracks up (some (record b { blocked = blocked; card_now = r.card_now }))) (sym is)
        (record { available = h.available; shows = new; sends = ap some new })

  -- A handler that runs only while the daemon is there.
  if_up-Tracks :
      (up : Bool) (o o' : Option Basis) (s s' : Flow f to_datetime)
      → Tracks up o s
      → Tracks up o' s'
      → Tracks up (if up then o' else o) (if s.daemon_available then s' else s)
  if_up-Tracks true o o' s s' h h' =
      subst (λ b. Tracks true o' (if b then s' else s)) (sym h.available) h'
  if_up-Tracks false o o' s s' h h' =
      subst (λ b. Tracks false o (if b then s' else s)) (sym h.available) h

  handle_round-Tracks :
      (up : Bool) (o : Option Basis) (r : Round) (e : FlowEvent) (s : Flow f to_datetime)
      → Tracks up o s
      → Tracks (up_after up e) (basis_after up r e o) (handle_round f to_datetime r e s)
  unfolding handle_round
  handle_round-Tracks up o r (FlowEvent.appeared true) s h =
      full_fetch-Tracks true r (record s { daemon_available = true; proxy_subscribed = false }) refl
  handle_round-Tracks up o r (FlowEvent.appeared false) s h = record {
    available = refl;
    shows = h.shows;
    sends = h.sends;
  }
  handle_round-Tracks up o r FlowEvent.disappeared s h = record {
    available = refl;
    shows = h.shows;
    sends = h.sends;
  }
  handle_round-Tracks up o r FlowEvent.refresh s h = full_fetch-Tracks up r s h.available
  handle_round-Tracks up o r (FlowEvent.stream_ended t) s h = record {
    available = h.available;
    shows = h.shows;
    sends = h.sends;
  }
  handle_round-Tracks up o r (FlowEvent.signal FlowSignal.app_blocked) s h =
      if_up-Tracks up o _ s _ h (patch_blocked-Tracks up r o r.repo.blocked_apps s refl h)
  handle_round-Tracks up o r (FlowEvent.signal FlowSignal.policy_changed) s h =
      if_up-Tracks up o _ s _ h (full_fetch-Tracks up r s h.available)
  handle_round-Tracks up o r (FlowEvent.signal FlowSignal.domain_blocked) s h =
      if_up-Tracks up o _ s _ h (full_fetch-Tracks up r s h.available)
  handle_round-Tracks up o r (FlowEvent.signal FlowSignal.usage_updated) s h =
      if_up-Tracks up o _ s _ h (full_fetch-Tracks up r s h.available)

  either-Tracks :
      (b up : Bool) (o : Option Basis) (s s' : Flow f to_datetime)
      → Tracks up o s
      → Tracks up o s'
      → Tracks up o (if b then s else s')
  either-Tracks true up o s s' h h' = h
  either-Tracks false up o s s' h h' = h'

  subscribe_signals-Tracks :
      (up : Bool) (o : Option Basis) (opened : Option (List FlowSignal)) (s : Flow f to_datetime)
      → Tracks up o s
      → Tracks up o (subscribe_signals f to_datetime opened s)
  unfolding subscribe_signals
  subscribe_signals-Tracks up o none s h =
      either-Tracks (not s.proxy_subscribed && s.daemon_available) up o s s h h
  subscribe_signals-Tracks up o (some []) s h =
      either-Tracks (not s.proxy_subscribed && s.daemon_available) up o
        (record s { proxy_subscribed = false }) s
        (record { available = h.available; shows = h.shows; sends = h.sends }) h
  subscribe_signals-Tracks up o (some (t ∷ ts)) s h =
      either-Tracks (not s.proxy_subscribed && s.daemon_available) up o
        (record s { proxy_subscribed = true; streams = s.streams ++ t ∷ ts }) s
        (record { available = h.available; shows = h.shows; sends = h.sends }) h

  run_flow_from :
      (up : Bool) (o : Option Basis) (rounds : List Round) (s : Flow f to_datetime)
      → Tracks up o s
      → ((run_flow f to_datetime rounds s).current_vm ≡ shown (last_basis up o rounds))
        × ((run_flow f to_datetime rounds s).sent ≡ told (last_basis up o rounds))
  unfolding run_flow
  run_flow_from up o [] s h = (h.shows, h.sends)
  run_flow_from up o (r ∷ rounds) s h =
      let s' = subscribe_signals f to_datetime r.opened s in
      run_flow_from (up_after up r.event) (basis_after up r r.event o) rounds
        (handle_round f to_datetime r r.event s')
        (handle_round-Tracks up o r r.event s' (subscribe_signals-Tracks up o r.opened s h))

  -- After any rounds either no data was fetched, nothing is shown and nothing was sent, or the view
  -- that was sent last is the current one: each of its fields, the marks of blocked applications in
  -- the list too, is what a full computation gives for the answers of the last full fetch at its
  -- moment, except for the cards, which are those of the blocked applications that the daemon told
  -- last, in that fetch or in a quick answer after it. A full fetch follows a daemon that appears
  -- and is found again, a refresh, and, while the daemon has not gone, every signal but that of a
  -- blocked application, which asks for the quick answer.
  pub run_flow-shows :
      (rounds : List Round)
      → let s = run_flow f to_datetime rounds (start_flow f to_datetime) in
        (s.current_vm ≡ shown (last_basis true none rounds))
        × (s.sent ≡ told (last_basis true none rounds))
  unfolding start_flow
  run_flow-shows rounds =
      run_flow_from true none rounds (start_flow f to_datetime)
        (record { available = refl; shows = refl; sends = refl })
