-- ===== src/Dashboard/Seed.antt =====
-- The day's timeline on the events that the daemon has stored.
pub mod Midnight
use mathlib.Core.List.{reverse, reverse-cons}
use digital_wellbeing.Common.{
  ℕ, ◌+◌, ◌<◌, ◌≡◌, refl, sym, ◌∙◌, ap, Bool, true, false, ltb, if◌then◌else◌, Option, none, some,
  is_some, List, [], ◌∷◌, ◌++◌, map, All, inl, inr, Bool-cases, arith,
}
use digital_wellbeing.Dashboard.Repo.{last_focus}
use digital_wellbeing.Focus.{after}
use digital_wellbeing.Focus.Append.{after_all}
use digital_wellbeing.Timeline.{DayEventRow, seed_pending}
use digital_wellbeing.Timeline.Agreement.{row_moments}
use digital_wellbeing.Values.AppClass.{AppClass}
use digital_wellbeing.Values.EventType.{EventType}

-- Whether an application has the focus after rows that stand with the latest first.
abbrev latest : Bool → List DayEventRow → Bool
latest on [] = on
latest on (row ∷ rows) = after row.event_type (latest on rows)

latest-append :
    (on : Bool) (row : DayEventRow) (rows : List DayEventRow)
    → latest on (rows ++ row ∷ []) ≡ latest (after row.event_type on) rows
latest-append on row [] = refl
latest-append on row (r ∷ rows) = ap (after r.event_type) (latest-append on row rows)

latest-reverse :
    (on : Bool) (rows : List DayEventRow)
    → latest on (reverse rows) ≡ after_all on (row_moments rows)
latest-reverse on [] = refl
latest-reverse on (row ∷ rows) =
    ap (latest on) (reverse-cons row rows)
    ∙ latest-append on row (reverse rows)
    ∙ latest-reverse (after row.event_type on) rows

is_some-last_focus :
    (t : EventType) (at : ℕ) (app : AppClass) (rows : List DayEventRow)
    → is_some (last_focus rows) ≡ latest false rows
    → is_some (last_focus (record { event_type = t; timestamp = at; app_class = app } ∷ rows))
      ≡ after t (latest false rows)
unfolding last_focus
is_some-last_focus EventType.focus at app rows h = refl
is_some-last_focus EventType.unfocus at app rows h = refl
is_some-last_focus EventType.idle at app rows h = refl
is_some-last_focus EventType.resume at app rows h = h
is_some-last_focus EventType.suspend at app rows h = refl
is_some-last_focus EventType.shut_down at app rows h = refl
is_some-last_focus EventType.locked at app rows h = refl
is_some-last_focus EventType.logged_out at app rows h = refl
is_some-last_focus EventType.block at app rows h = refl

last_focus-latest : (rows : List DayEventRow) → is_some (last_focus rows) ≡ latest false rows
unfolding last_focus
last_focus-latest [] = refl
last_focus-latest (row ∷ rows) =
    is_some-last_focus row.event_type row.timestamp row.app_class rows (last_focus-latest rows)

-- The rows are before a moment.
abbrev pub Earlier : ℕ → List DayEventRow → Type 0
Earlier day rows = All (λ r. r.timestamp < day) rows

-- A seed from before the day is used.
abbrev Used : ℕ → Option (ℕ × AppClass) → Type 0
Used day seed = is_some (seed_pending day seed) ≡ is_some seed

seed-Used :
    (day : ℕ) (t : EventType) (at : ℕ) (app : AppClass) (rows : List DayEventRow)
    → at < day
    → Used day (last_focus rows)
    → Used day (last_focus (record { event_type = t; timestamp = at; app_class = app } ∷ rows))
unfolding last_focus seed_pending
seed-Used day EventType.focus at app rows lt h =
    let early : ltb at day ≡ true = ground arith in rw early refl
seed-Used day EventType.unfocus at app rows lt h = refl
seed-Used day EventType.idle at app rows lt h = refl
seed-Used day EventType.resume at app rows lt h = h
seed-Used day EventType.suspend at app rows lt h = refl
seed-Used day EventType.shut_down at app rows lt h = refl
seed-Used day EventType.locked at app rows lt h = refl
seed-Used day EventType.logged_out at app rows lt h = refl
seed-Used day EventType.block at app rows lt h = refl

seed_pending-last_focus :
    (day : ℕ) (rows : List DayEventRow)
    → Earlier day rows
    → is_some (seed_pending day (last_focus rows)) ≡ is_some (last_focus rows)
unfolding seed_pending last_focus
seed_pending-last_focus day [] h = refl
seed_pending-last_focus day (row ∷ rows) h =
    seed-Used day row.event_type row.timestamp row.app_class rows h.0
      (seed_pending-last_focus day rows h.1)

Earlier-append :
    (day : ℕ) (rows : List DayEventRow) (row : DayEventRow)
    → Earlier day rows
    → row.timestamp < day
    → Earlier day (rows ++ row ∷ [])
Earlier-append day [] row h lt = (lt, tt)
Earlier-append day (r ∷ rows) row h lt = (h.0, Earlier-append day rows row h.1 lt)

Earlier-reverse :
    (day : ℕ) (rows : List DayEventRow) → Earlier day rows → Earlier day (reverse rows)
Earlier-reverse day [] h = tt
Earlier-reverse day (row ∷ rows) h =
    rw (reverse-cons row rows)
      (Earlier-append day (reverse rows) row (Earlier-reverse day rows h.1) h.0)

-- The seed opens the day with a pending focus exactly when an application has the focus after all
-- of the rows.
pub seed-after_all :
    (day : ℕ) (rows : List DayEventRow)
    → Earlier day rows
    → is_some (seed_pending day (last_focus (reverse rows))) ≡ after_all false (row_moments rows)
seed-after_all day rows h =
    seed_pending-last_focus day (reverse rows) (Earlier-reverse day rows h)
    ∙ last_focus-latest (reverse rows)
    ∙ latest-reverse false rows
