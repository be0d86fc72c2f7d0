-- ===== src/Reports/Hourly/Shares.antt =====
-- The hourly rows and the intervals of the events.
use digital_wellbeing.Common.{
  ℕ, zero, suc, ◌+◌, ◌≤◌, ◌<◌, ◌≡◌, refl, ◌==◌, if◌then◌else◌, Option, none, some, List, [], ◌∷◌,
  length, inl, inr, Bool-cases, arith,
}
use digital_wellbeing.Clock.{day_ms}
use digital_wellbeing.Reports.Hourly.{
  HourlyUsageRow, closes, close_interval, add_events, number_hours, zeros, get_hourly_usage,
}
use digital_wellbeing.Store.Events.{EventTable}
use digital_wellbeing.Timeline.Hours.Shares.{hour_overlap}
use digital_wellbeing.Values.Blocked.{Uid}
use digital_wellbeing.Reports.Hourly.Slots.{slot, slot-add_interval}
use digital_wellbeing.Reports.Hourly.Order.{of_date, of_date-Ordered}
use digital_wellbeing.Store.Events.Order.{Ordered, Ordered-le}

-- The intervals that the events of one user open and close: each runs from a focus event to the
-- next close event, or to the end of the day, and another focus event before that restarts it.
abbrev pub intervals : ℕ → EventTable → Option ℕ → List (ℕ × ℕ)
intervals day_end [] none = []
intervals day_end [] (some st) = (st, day_end) ∷ []
intervals day_end ((id, e) ∷ es) none =
    let idle = intervals day_end es none in
    if e.event_type == 0 then intervals day_end es (some e.timestamp) else idle
intervals day_end ((id, e) ∷ es) (some st) =
    if e.event_type == 0
    then intervals day_end es (some e.timestamp)
    else if closes e
    then (st, e.timestamp) ∷ intervals day_end es none
    else intervals day_end es (some st)

-- The time of the intervals in an hour.
abbrev pub hour_share : ℕ → ℕ → List (ℕ × ℕ) → ℕ
hour_share day k [] = 0
hour_share day k ((start, finish) ∷ spans) =
    hour_overlap day k start finish + hour_share day k spans

abbrev Opened : ℕ → ℕ → Option ℕ → Type 0
Opened day from none = Unit
Opened day from (some st) = (day ≤ st) × (st ≤ from)

module _ (day k : ℕ) (lt : k < 24) where
  -- What closing does with a pending start.
  slot-close_interval :
      (st at : ℕ) (ns : List ℕ)
      → day ≤ st
      → st ≤ at
      → at ≤ day + day_ms
      → length ns ≡ 24
      → (hs : List ℕ) × (close_interval day at (some st) ns ≡ some hs)
        × (slot k hs ≡ slot k ns + hour_overlap day k st at)
        × (length hs ≡ 24)
  unfolding close_interval
  slot-close_interval st at ns opens le ends long =
      slot-add_interval st at day k ns opens le ends lt long

  slot-add_events :
      (es : EventTable) (from : ℕ) (pending : Option ℕ) (ns : List ℕ)
      → day ≤ from
      → Ordered from es (day + day_ms)
      → Opened day from pending
      → length ns ≡ 24
      → (hs : List ℕ) × (add_events day (day + day_ms) es pending ns ≡ some hs)
        × (slot k hs ≡ slot k ns + hour_share day k (intervals (day + day_ms) es pending))
        × (length hs ≡ 24)
  unfolding add_events close_interval
  slot-add_events [] from none ns le order by long = (ns, refl, omega arith, long)
  slot-add_events [] from (some st) ns le order by long =
      let (hs, done, same, long') =
        slot-add_interval st (day + day_ms) day k ns by.0 (omega arith) (omega arith) lt long in
      (hs, done, omega arith, long')
  slot-add_events ((id, e) ∷ es) from none ns le order by long =
      let focused =
        slot-add_events es e.timestamp (some e.timestamp) ns (omega arith) order.1 (omega arith)
          long in
      let idle = slot-add_events es e.timestamp none ns (omega arith) order.1 tt long in
      elim (Bool-cases (e.event_type == 0)) [
        | inl focus ↦ rw focus focused
        | inr other ↦ elim (Bool-cases (closes e)) [
          | inl shut ↦ rw (other, shut) idle
          | inr ignored ↦ rw (other, ignored) idle
        ]
      ]
  slot-add_events ((id, e) ∷ es) from (some st) ns le order by long =
      let ends = Ordered-le e.timestamp (day + day_ms) es order.1 in
      elim (Bool-cases (e.event_type == 0)) [
        | inl focus ↦ rw focus (
            slot-add_events es e.timestamp (some e.timestamp) ns (omega arith) order.1 (omega arith)
              long)
        | inr other ↦ elim (Bool-cases (closes e)) [
          | inl shut ↦
              let (hs, done, same, long') =
                slot-add_interval st e.timestamp day k ns by.0 (omega arith) ends lt long in
              let (hs', done', same', long'') =
                slot-add_events es e.timestamp none hs (omega arith) order.1 tt long' in
              rw (other, shut) (hs', rw (done, add_events) done', omega arith, long'')
          | inr ignored ↦
              rw (other, ignored)
                (slot-add_events es e.timestamp (some st) ns (omega arith) order.1 (omega arith)
                  long)
        ]
      ]

zeros_lem : (k n : ℕ) → (slot k (zeros n) ≡ 0) × (length (zeros n) ≡ n)
unfolding zeros
zeros_lem k zero = (refl, refl)
zeros_lem zero (suc n) = let (same, long) = zeros_lem zero n in (refl, omega arith)
zeros_lem (suc k) (suc n) = let (same, long) = zeros_lem k n in (same, omega arith)

-- The row of an hour.
abbrev pub row_at : ℕ → List HourlyUsageRow → Option HourlyUsageRow
row_at k [] = none
row_at zero (r ∷ rs) = some r
row_at (suc k) (r ∷ rs) = row_at k rs

row_at-number_hours :
    (k h : ℕ) (ns : List ℕ)
    → k < length ns
    → (row_at k (number_hours h ns) ≡ some (record { hour = h + k; total_millis = slot k ns }))
unfolding number_hours
row_at-number_hours k h [] lt = absurd (omega arith)
row_at-number_hours zero h (n ∷ ns) lt = ground arith
row_at-number_hours (suc k) h (n ∷ ns) lt = ground (arith, row_at-number_hours k (h + 1) ns)

-- The hourly report always succeeds. It has a row for each of the 24 hours, and the row counts the
-- part that the user's intervals of the date have in that hour: an interval runs from a focus event to the next
-- close event, or to the end of the day if there is none, and a focus event before that restarts it.
pub get_hourly_usage-row_at :
    (uid : Uid) (date : ℕ) (t : EventTable) (k : ℕ)
    → k < 24
    → (rows : List HourlyUsageRow) × (get_hourly_usage uid date t ≡ some rows)
      × (row_at k rows
          ≡ some (record {
            hour = k;
            total_millis = hour_share date k (intervals (date + day_ms) (of_date uid date t) none);
          }))
unfolding get_hourly_usage
get_hourly_usage-row_at uid date t k lt =
    let (nothing, long) = zeros_lem k 24 in
    let order = of_date-Ordered uid date t in
    let (hs, done, same, long') =
      slot-add_events date k lt (of_date uid date t) date none (zeros 24) (omega arith) order tt
        long in
    let row = row_at-number_hours k 0 hs (omega arith) in
    (number_hours 0 hs, rw (done, get_hourly_usage) refl, ground arith)
