-- ===== src/Usage/Accounting.antt =====
-- The walk over one user's events accounts for the user's focus time: what is closed and what is
-- still open add up to the abstract focus time of Focus.antt.
use digital_wellbeing.Common.{
  ℕ, ◌+◌, ◌-◌, ◌≤◌, ◌≡◌, refl, sym, Bool, true, false, if◌then◌else◌, ◌==◌, Option, none, some,
  is_some, List, [], ◌∷◌, map, inl, inr, Bool-cases, arith,
}
use digital_wellbeing.Focus.{after, focus_ms, InOrder}
use digital_wellbeing.Platform.{TimedEvent, event_type, is_close_event}
use digital_wellbeing.Usage.{Agg, OpenFocus, accumulate_closed}
use digital_wellbeing.Usage.Totals.{IsAgg, app_total, title_total, accumulate_range-total}
use digital_wellbeing.Usage.Walk.{Walk, AppCache, close_at, open_focus_from_event, step, walk}
use digital_wellbeing.Values.AppClass.{AppClass}
use digital_wellbeing.Values.Blocked.{Uid}
use digital_wellbeing.Values.EventType.{EventType, is_close, same, close_types, to_code}

-- The event log as the abstract focus reads it.
abbrev pub moments : List TimedEvent → List (EventType × ℕ)
moments events = map (λ t. (event_type t.event, t.timestamp)) events

-- The length of an open interval up to a moment.
abbrev pub elapsed : ℕ → Option OpenFocus → ℕ
elapsed now none = 0
elapsed now (some f) = now - f.ts_ms

abbrev pub OpenBy : ℕ → Option OpenFocus → Type 0
OpenBy now none = Unit
OpenBy now (some f) = f.ts_ms ≤ now

-- The time of a user in one aggregate.
abbrev pub user_ms : Uid → Agg → ℕ
user_ms uid agg = app_total (λ v app. v == uid) agg

-- The time of a user in the same aggregate by titles.
abbrev pub user_title_ms : Uid → Agg → ℕ
user_title_ms uid agg = title_total (λ v app. v == uid) agg

-- A state accounts for an amount of user `u`'s time in both aggregates, if the walk is of user `uid`.
pub record Accounts (uid u : Uid) (at apps titles : ℕ) (on : Bool) (w : Walk) : Type 0 where
  pub keyed : IsAgg w.closed
  pub apps_are : user_ms u w.closed + (if uid == u then elapsed at w.open_focus else 0) ≡ apps
  pub titles_are :
      user_title_ms u w.closed + (if uid == u then elapsed at w.open_focus else 0) ≡ titles
  pub by : OpenBy at w.open_focus
  pub open_iff : is_some w.open_focus ≡ on

pub elapsed_split :
    (from at : ℕ) (o : Option OpenFocus)
    → from ≤ at
    → OpenBy from o
    → elapsed at o ≡ elapsed from o + (if is_some o then at - from else 0)
elapsed_split from at none le by = refl
elapsed_split from at (some f) le by = omega arith

elapsed_shut : (at : ℕ) (o : Option OpenFocus) → is_some o ≡ false → elapsed at o ≡ 0
elapsed_shut at none h = refl
elapsed_shut at (some f) h = ground arith

OpenBy-mono : (from at : ℕ) (o : Option OpenFocus) → from ≤ at → OpenBy from o → OpenBy at o
OpenBy-mono from at none le by = tt
OpenBy-mono from at (some f) le by = omega arith

-- The three kinds of event, as the walk tests for them and as the abstract focus changes.
pub after_focus : (t : EventType) (on : Bool) → same t EventType.focus ≡ true → after t on ≡ true
unfolding same to_code
after_focus t on h = ground arith

pub after_other :
    (t : EventType) (on : Bool)
    → same t EventType.focus ≡ false
    → is_close t ≡ false
    → after t on ≡ on
unfolding same to_code is_close close_types
after_other t on h g = ground arith

pub after_close :
    (t : EventType) (on : Bool)
    → same t EventType.focus ≡ false
    → is_close t ≡ true
    → after t on ≡ false
unfolding same to_code is_close close_types
after_close t on h g = ground arith

module _ (uid u : Uid) where
  -- What a span adds to the user's time, if an application has the focus.
  abbrev gain : ℕ → ℕ → Bool → ℕ
  gain from at on = if uid == u then (if on then at - from else 0) else 0

  close_at_open :
      (from at apps titles : ℕ) (o : Option OpenFocus) (closed : Agg) (cache : AppCache)
      → let w : Walk = record { open_focus = o; closed = closed; cache = cache } in
        from ≤ at
        → Accounts uid u from apps titles (is_some o) w
        → Accounts uid u at
            (apps + gain from at (is_some o))
            (titles + gain from at (is_some o))
            false
            (close_at at uid w)
  unfolding close_at accumulate_closed
  close_at_open from at apps titles none closed cache le h =
      let a = h.apps_are in
      let t = h.titles_are in
      record {
        keyed = h.keyed;
        apps_are = ground arith;
        titles_are = ground arith;
        by = tt;
        open_iff = refl;
      }
  close_at_open from at apps titles (some f) closed cache le h =
      let a = h.apps_are in
      let t = h.titles_are in
      let by : f.ts_ms ≤ from = h.by in
      let (keyed, apps', titles') =
        accumulate_range-total (λ v app. v == u) f uid at closed h.keyed in
      record {
        keyed = keyed;
        apps_are = ground (arith, apps');
        titles_are = ground (arith, titles');
        by = tt;
        open_iff = refl;
      }

  reopen :
      (at apps titles : ℕ) (on : Bool) (w : Walk)
      → Accounts uid u at apps titles on w
      → Accounts uid u at apps titles (is_some w.open_focus) w
  reopen at apps titles on w h = record {
    keyed = h.keyed;
    apps_are = h.apps_are;
    titles_are = h.titles_are;
    by = h.by;
    open_iff = refl;
  }

  stay :
      (from at apps titles : ℕ) (w : Walk)
      → from ≤ at
      → Accounts uid u from apps titles (is_some w.open_focus) w
      → Accounts uid u at
          (apps + gain from at (is_some w.open_focus))
          (titles + gain from at (is_some w.open_focus))
          (is_some w.open_focus)
          w
  stay from at apps titles w le h =
      let a = h.apps_are in
      let t = h.titles_are in
      let longer = elapsed_split from at w.open_focus le h.by in
      record {
        keyed = h.keyed;
        apps_are = ground arith;
        titles_are = ground arith;
        by = OpenBy-mono from at w.open_focus le h.by;
        open_iff = refl;
      }

  module _ (ensure : AppClass → Option ℕ) where
    step-Accounts :
        (from apps titles : ℕ) (timed : TimedEvent) (w : Walk)
        → from ≤ timed.timestamp
        → let more = gain from timed.timestamp (is_some w.open_focus) in
          Accounts uid u from apps titles (is_some w.open_focus) w
          → Accounts uid u timed.timestamp
              (apps + more)
              (titles + more)
              (after (event_type timed.event) (is_some w.open_focus))
              (step ensure uid timed w)
    unfolding step is_close_event open_focus_from_event
    step-Accounts from apps titles timed w le h =
        let at = timed.timestamp in
        let t = event_type timed.event in
        let on = is_some w.open_focus in
        let shut = close_at_open from at apps titles w.open_focus w.closed w.cache le h in
        elim (Bool-cases (same t EventType.focus)) [
          | inl focus ↦ rw focus (
              let a = shut.apps_are in
              let t' = shut.titles_are in
              let none_open = elapsed_shut at (close_at at uid w).open_focus shut.open_iff in
              record {
                keyed = shut.keyed;
                apps_are = ground arith;
                titles_are = ground arith;
                by = omega arith;
                open_iff = sym (after_focus t on focus);
              })
          | inr other ↦ elim (Bool-cases (is_close t)) [
            | inl close ↦ rw (other, close) (rw (after_close t on other close) shut)
            | inr ignored ↦
                rw (other, ignored)
                  (rw (after_other t on other ignored) (stay from at apps titles w le h))
          ]
        ]

    -- Through the events of one user in the order of time: what is closed, and what is open up to now,
    -- is what it was at the start with the focus time of the log in between, for that user; and
    -- nothing changes for any other user.
    pub walk-Accounts :
        (events : List TimedEvent) (from now apps titles : ℕ) (w : Walk)
        → InOrder from (moments events) now
        → Accounts uid u from apps titles (is_some w.open_focus) w
        → let w' = walk ensure uid events w in
          let more =
            if uid == u then focus_ms (is_some w.open_focus) from (moments events) now else 0 in
          Accounts uid u now (apps + more) (titles + more) (is_some w'.open_focus) w'
    unfolding walk focus_ms
    walk-Accounts [] from now apps titles w order h = stay from now apps titles w order h
    walk-Accounts (timed ∷ events) from now apps titles w order h =
        let next = step-Accounts from apps titles timed w order.0 h in
        let w1 = step ensure uid timed w in
        let more = gain from timed.timestamp (is_some w.open_focus) in
        let done =
          walk-Accounts events timed.timestamp now (apps + more) (titles + more) w1 order.1
            (reopen _ _ _ _ w1 next) in
        let a = done.apps_are in
        let t = done.titles_are in
        rw (sym next.open_iff) (record {
          keyed = done.keyed;
          apps_are = ground arith;
          titles_are = ground arith;
          by = done.by;
          open_iff = refl;
        })
