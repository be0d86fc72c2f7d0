-- ===== src/Timeline/Agreement.antt =====
-- The client's total for a day is the focus time of the event log.
use digital_wellbeing.Common.{
  ℕ, ◌+◌, ◌-◌, ◌≤◌, ◌≡◌, refl, ap, ◌∙◌, Bool, false, not, ltb, if◌then◌else◌, Option, none, some,
  is_some, List, [], ◌∷◌, ◌++◌, map, inl, inr, Bool-cases, Option-cases, arith,
}
use digital_wellbeing.Focus.{focus_ms, InOrder}
use digital_wellbeing.Timeline.{
  DayEventRow, TimelineBlock, Names, Pending, close_pending, push_blocks, insert_by_start,
  sort_by_start, gap_between, gap_block, fill_time_gaps, sum, block_millis, focus_total,
  make_focus_block, open_block, seed_pending, build_day_timeline,
}
use digital_wellbeing.Usage.Accounting.{after_focus, after_close, after_other}
use digital_wellbeing.Values.AppClass.{AppClass}
use digital_wellbeing.Values.EventType.{EventType, same, is_close}

-- The time that one block adds to the total.
abbrev counted : ℕ → TimelineBlock → ℕ
counted now b = if not b.is_gap then block_millis now b else 0

focus_total-nil : (now : ℕ) → focus_total now [] ≡ 0
unfolding focus_total sum
focus_total-nil now = refl

focus_total-cons :
    (now : ℕ) (b : TimelineBlock) (bs : List TimelineBlock)
    → focus_total now (b ∷ bs) ≡ counted now b + focus_total now bs
unfolding focus_total sum
focus_total-cons now b bs = ground arith

focus_total-insert :
    (now : ℕ) (b : TimelineBlock) (bs : List TimelineBlock)
    → focus_total now (insert_by_start b bs) ≡ counted now b + focus_total now bs
unfolding insert_by_start
focus_total-insert now b [] = focus_total-cons now b []
focus_total-insert now b (c ∷ cs) = ground (
  arith,
  focus_total-cons now c cs,
  focus_total-cons now c (insert_by_start b cs),
  focus_total-cons now b (c ∷ cs),
  focus_total-insert now b cs,
)

focus_total-sort :
    (now : ℕ) (bs : List TimelineBlock) → focus_total now (sort_by_start bs) ≡ focus_total now bs
unfolding sort_by_start
focus_total-sort now [] = refl
focus_total-sort now (b ∷ bs) =
    focus_total-insert now b (sort_by_start bs)
    ∙ ground (arith, focus_total-sort now bs, focus_total-cons now b bs)

focus_total-gap :
    (now : ℕ) (b next : TimelineBlock) (bs : List TimelineBlock)
    → focus_total now (gap_between b next ++ bs) ≡ focus_total now bs
unfolding gap_between gap_block
focus_total-gap now b next bs = elim (Option-cases b.finish) [
  | inl still ↦ rw (still, gap_between) refl
  | inr (e, ended) ↦ elim (Bool-cases (ltb e next.start)) [
    | inl gap ↦
        rw (ended, gap_between)
          (rw gap (focus_total-cons now (gap_block e next.start) bs ∙ omega arith))
    | inr joined ↦ rw (ended, gap_between) (rw joined refl)
  ]
]

focus_total-fill :
    (now : ℕ) (bs : List TimelineBlock) → focus_total now (fill_time_gaps bs) ≡ focus_total now bs
unfolding fill_time_gaps
focus_total-fill now [] = refl
focus_total-fill now (b ∷ []) = refl
focus_total-fill now (b ∷ next ∷ rest) =
    let filled = fill_time_gaps (next ∷ rest) in
    ground (
      arith,
      focus_total-cons now b (gap_between b next ++ filled),
      focus_total-gap now b next filled,
      focus_total-fill now (next ∷ rest),
      focus_total-cons now b (next ∷ rest),
    )

-- The event rows as the abstract focus reads them.
abbrev pub row_moments : List DayEventRow → List (EventType × ℕ)
row_moments events = map (λ e. (e.event_type, e.timestamp)) events

abbrev waited : ℕ → Pending → ℕ
waited now none = 0
waited now (some (st, app)) = now - st

abbrev PendingBy : ℕ → Pending → Type 0
PendingBy now none = Unit
PendingBy now (some (st, app)) = st ≤ now

waited_split :
    (from at : ℕ) (p : Pending)
    → from ≤ at
    → PendingBy from p
    → (waited at p ≡ waited from p + (if is_some p then at - from else 0)) × PendingBy at p
waited_split from at none le by = (refl, tt)
waited_split from at (some (st, app)) le by = (omega arith, omega arith)

focus_total-close :
    (now at : ℕ) (t : EventType) (names : Names) (p : Pending) (bs : List TimelineBlock)
    → focus_total now (close_pending at t names p ++ bs) ≡ waited at p + focus_total now bs
unfolding close_pending make_focus_block block_millis
focus_total-close now at t names none bs = omega arith
focus_total-close now at t names (some (st, app)) bs =
    focus_total-cons now (make_focus_block st at app names t) bs

push_blocks-focus_ms :
    (names : Names) (events : List DayEventRow) (from now : ℕ) (p : Pending)
    → InOrder from (row_moments events) now
    → PendingBy from p
    → focus_total now (push_blocks names events p)
      ≡ waited from p + focus_ms (is_some p) from (row_moments events) now
unfolding push_blocks focus_ms open_block block_millis
push_blocks-focus_ms names [] from now none order by = focus_total-nil now ∙ omega arith
push_blocks-focus_ms names [] from now (some (st, app)) order by =
    focus_total-cons now (open_block st app names) [] ∙ ground (arith, focus_total-nil now)
push_blocks-focus_ms names (e ∷ es) from now p order by =
    let at = e.timestamp in
    let (longer, later) = waited_split from at p order.0 by in
    let focus =
      push_blocks-focus_ms names es at now (some (at, e.app_class.text)) order.1 (omega arith) in
    let idle = push_blocks-focus_ms names es at now none order.1 tt in
    let kept = push_blocks-focus_ms names es at now p order.1 later in
    elim (Bool-cases (same e.event_type EventType.focus)) [
      | inl focused ↦ rw focused (
          rw (after_focus e.event_type (is_some p) focused) (
            let closed =
              focus_total-close now at EventType.focus names p
                (push_blocks names es (some (at, e.app_class.text))) in
            ground arith))
      | inr other ↦ elim (Bool-cases (is_close e.event_type)) [
        | inl closes ↦
            rw (other, closes)
              (rw (after_close e.event_type (is_some p) other closes) (
                let closed =
                  focus_total-close now at e.event_type names p (push_blocks names es none) in
                ground arith))
        | inr ignored ↦
            rw (other, ignored)
              (rw (after_other e.event_type (is_some p) other ignored) (ground arith))
      ]
    ]

seed_pending_lem :
    (day_start : ℕ) (seed : Option (ℕ × AppClass))
    → (waited day_start (seed_pending day_start seed) ≡ 0)
      × PendingBy day_start (seed_pending day_start seed)
unfolding seed_pending
seed_pending_lem day_start none = (refl, tt)
seed_pending_lem day_start (some (ts, app)) = elim (Bool-cases (ltb ts day_start)) [
  | inl early ↦ rw early (omega arith, omega arith)
  | inr late ↦ rw late (refl, tt)
]

-- The total by the focus that the code starts the day with.
pub build_day_timeline-seeded :
    (events : List DayEventRow) (day_start now : ℕ) (names : Names) (seed : Option (ℕ × AppClass))
    → InOrder day_start (row_moments events) now
    → (build_day_timeline events day_start names now seed).total_focus_millis
      ≡ focus_ms (is_some (seed_pending day_start seed)) day_start (row_moments events) now
unfolding build_day_timeline
build_day_timeline-seeded events day_start now names seed order =
    let p = seed_pending day_start seed in
    let bs = push_blocks names events p in
    let (none_yet, by) = seed_pending_lem day_start seed in
    let pushed = push_blocks-focus_ms names events day_start now p order by in
    focus_total-fill now (sort_by_start bs) ∙ focus_total-sort now bs ∙ pushed ∙ ground arith

-- An application had the focus before midnight: the seed is there and is earlier.
abbrev pub focused_before : ℕ → Option (ℕ × AppClass) → Bool
focused_before midnight none = false
focused_before midnight (some (since, app)) = ltb since midnight

seed_pending-focused_before :
    (day_start : ℕ) (seed : Option (ℕ × AppClass))
    → is_some (seed_pending day_start seed) ≡ focused_before day_start seed
unfolding seed_pending
seed_pending-focused_before day_start none = refl
seed_pending-focused_before day_start (some (ts, app)) = ground arith

-- The total of the day timeline is the focus time of the day's event log, from midnight to now, for
-- rows that are in the order of time, not before midnight and not after now. An application has
-- the focus at the start of the day exactly if the seed says that it got it before midnight.
pub build_day_timeline-focus_ms :
    (events : List DayEventRow) (day_start now : ℕ) (names : Names) (seed : Option (ℕ × AppClass))
    → InOrder day_start (row_moments events) now
    → (build_day_timeline events day_start names now seed).total_focus_millis
      ≡ focus_ms (focused_before day_start seed) day_start (row_moments events) now
build_day_timeline-focus_ms events day_start now names seed order =
    build_day_timeline-seeded events day_start now names seed order
    ∙ ap (λ b. focus_ms b day_start (row_moments events) now)
        (seed_pending-focused_before day_start seed)
