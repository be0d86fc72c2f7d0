-- ===== src/Usage/Order.antt =====
-- The sort of one user's events puts them in the order of time.
use digital_wellbeing.Common.{ℕ, ◌≤◌, leb, ◌==◌, List, [], ◌∷◌, All, inl, inr, Bool-cases, arith}
use digital_wellbeing.Focus.{InOrder}
use digital_wellbeing.Platform.{TimedEvent, event_uid}
use digital_wellbeing.Usage.Accounting.{moments}
use digital_wellbeing.Usage.Deltas.{insert_by_time, sort_by_time, of_uid}
use digital_wellbeing.Values.Blocked.{Uid}

-- The events lie between two times.
abbrev pub Within : ℕ → ℕ → List TimedEvent → Type 0
Within from now events = All (λ t. (from ≤ t.timestamp) × (t.timestamp ≤ now)) events

insert_by_time-InOrder :
    (t : TimedEvent) (from now : ℕ) (events : List TimedEvent)
    → from ≤ t.timestamp
    → t.timestamp ≤ now
    → InOrder from (moments events) now
    → InOrder from (moments (insert_by_time t events)) now
unfolding insert_by_time
insert_by_time-InOrder t from now [] le ge h = (le, ge)
insert_by_time-InOrder t from now (v ∷ vs) le ge h =
    elim (Bool-cases (leb t.timestamp v.timestamp)) [
      | inl first ↦ rw first (le, (ground arith, h.1))
      | inr later ↦
          rw later (h.0, insert_by_time-InOrder t v.timestamp now vs (ground arith) ge h.1)
    ]

pub sort_by_time-InOrder :
    (from now : ℕ) (events : List TimedEvent)
    → from ≤ now
    → Within from now events
    → InOrder from (moments (sort_by_time events)) now
unfolding sort_by_time
sort_by_time-InOrder from now [] le h = le
sort_by_time-InOrder from now (t ∷ ts) le h =
    insert_by_time-InOrder t from now (sort_by_time ts) h.0.0 h.0.1
      (sort_by_time-InOrder from now ts le h.1)

-- One user's events lie where all do.
pub of_uid-Within :
    (u : Uid) (from now : ℕ) (events : List TimedEvent)
    → Within from now events
    → Within from now (of_uid u events)
unfolding of_uid
of_uid-Within u from now [] h = tt
of_uid-Within u from now (t ∷ ts) h = elim (Bool-cases (event_uid t.event == u)) [
  | inl mine ↦ rw mine (h.0, of_uid-Within u from now ts h.1)
  | inr other ↦ rw other (of_uid-Within u from now ts h.1)
]
