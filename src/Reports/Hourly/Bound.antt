-- ===== src/Reports/Hourly/Bound.antt =====
-- How much time an hourly row can have.
use digital_wellbeing.Common.{
  ℕ, ◌+◌, ◌-◌, ◌*◌, ◌≤◌, ◌<◌, ◌≡◌, max, ◌==◌, Option, none, some, List, [], ◌∷◌, inl, inr,
  Bool-cases, arith,
}
use digital_wellbeing.Clock.{day_ms}
use digital_wellbeing.Reports.Hourly.{HourlyUsageRow, closes, get_hourly_usage}
use digital_wellbeing.Store.Events.{EventTable}
use digital_wellbeing.Values.Blocked.{Uid}
use digital_wellbeing.Reports.Hourly.Order.{of_date, of_date-Ordered}
use digital_wellbeing.Store.Events.Order.{Ordered}
use digital_wellbeing.Reports.Hourly.Shares.{intervals, hour_share, row_at, get_hourly_usage-row_at}

-- The moment from which the intervals of the events count.
abbrev counted_from : ℕ → Option ℕ → ℕ
counted_from from none = from
counted_from from (some st) = st

hour_share-le :
    (day k to from : ℕ) (es : EventTable) (p : Option ℕ)
    → Ordered from es to
    → counted_from from p ≤ from
    → hour_share day k (intervals to es p)
      ≤ day + (k + 1) * 3600000 - max (counted_from from p) (day + k * 3600000)
hour_share-le day k to from [] none order le = omega arith
hour_share-le day k to from [] (some st) order le = omega arith
hour_share-le day k to from ((id, e) ∷ es) none order le =
    let at = e.timestamp in
    let focused = hour_share-le day k to at es (some at) order.1 (omega arith) in
    let idle = hour_share-le day k to at es none order.1 (omega arith) in
    elim (Bool-cases (e.event_type == 0)) [
      | inl focus ↦ rw focus (omega arith)
      | inr other ↦ rw other (omega arith)
    ]
hour_share-le day k to from ((id, e) ∷ es) (some st) order le =
    let at = e.timestamp in
    let focused = hour_share-le day k to at es (some at) order.1 (omega arith) in
    let idle = hour_share-le day k to at es none order.1 (omega arith) in
    let kept = hour_share-le day k to at es (some st) order.1 (omega arith) in
    elim (Bool-cases (e.event_type == 0)) [
      | inl focus ↦ rw focus (omega arith)
      | inr other ↦ elim (Bool-cases (closes e)) [
        | inl shut ↦ rw (other, shut) (omega arith)
        | inr ignored ↦ rw (other, ignored) (omega arith)
      ]
    ]

-- No hour of the report has more than an hour's time.
pub get_hourly_usage-le_hour :
    (uid : Uid) (date : ℕ) (t : EventTable) (k : ℕ) {rows : List HourlyUsageRow}
    {r : HourlyUsageRow}
    → k < 24
    → get_hourly_usage uid date t ≡ some rows
    → row_at k rows ≡ some r
    → r.total_millis ≤ 3600000
get_hourly_usage-le_hour uid date t k {rows} {r} lt done row =
    let (rows', done', row') = get_hourly_usage-row_at uid date t k lt in
    let order = of_date-Ordered uid date t in
    let bound =
      hour_share-le date k (date + day_ms) date (of_date uid date t) none order (omega arith) in
    let total = hour_share date k (intervals (date + day_ms) (of_date uid date t) none) in
    let found : row_at k rows ≡ some (record { hour = k; total_millis = total }) = cc in
    let same : r.total_millis ≡ total = ground arith in omega arith
