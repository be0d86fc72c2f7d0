-- ===== src/Store/Usage/Batch.antt =====
-- What one flush makes of a row of a daily usage table.
use Prim.Native.String.{String}
use digital_wellbeing.Common.{
  ℕ, ◌+◌, ◌≡◌, refl, sym, ap, ◌∙◌, Bool, if◌then◌else◌, none, some, unwrap_or, List, [], ◌∷◌, map,
  any, inl, inr, Bool-cases, Option-cases, arith,
}
use digital_wellbeing.Common.Eq.{Eq}
use digital_wellbeing.Common.Map.{get, insert, get-insert}
use digital_wellbeing.Store.{as_i32}
use digital_wellbeing.Store.Usage.{
  UsageRow, UsageTable, AppKey, ClosedAppItem, OpenAppItem, exec_batch, set_closed, set_open,
  closed_row, open_row, batch_upsert_closed_apps, batch_upsert_open_apps,
}
use digital_wellbeing.Usage.{app_key_eq}
use digital_wellbeing.Values.Blocked.{Uid}

abbrev no_row : UsageRow
no_row = record { closed_millis = 0; open_millis = 0 }

-- A row that is not there counts as one without milliseconds.
abbrev pub row_at : {K : Type 0} → Eq K → K → UsageTable K → UsageRow
row_at e k t = unwrap_or (get e k t) no_row

module _ {K I : Type 0} (e : Eq K) (key : I → K) (ms : I → ℕ) (k : K) where
  -- The milliseconds of the items for the key, whether there is one, and the last one's.
  abbrev pub sum_for : List I → ℕ
  sum_for [] = 0
  sum_for (it ∷ its) = (if e.beq (key it) k then ms it else 0) + sum_for its

  abbrev pub mentions : List I → Bool
  mentions its = any (λ it. e.beq (key it) k) its

  abbrev pub last_for : ℕ → List I → ℕ
  last_for before [] = before
  last_for before (it ∷ its) = last_for (if e.beq (key it) k then ms it else before) its

  abbrev upsert_closed : List I → UsageTable K → UsageTable K
  upsert_closed its t = exec_batch e set_closed (map (λ it. (key it, closed_row (ms it))) its) t

  abbrev upsert_open : List I → UsageTable K → UsageTable K
  upsert_open its t = exec_batch e set_open (map (λ it. (key it, open_row (ms it))) its) t

  -- One statement's effect on the row.
  row_at-insert :
      (j : K) (row : UsageRow) (t : UsageTable K)
      → row_at e k (insert e j row t) ≡ (if e.beq j k then row else row_at e k t)
  row_at-insert j row t = elim (Bool-cases (e.beq j k)) [
    | inl same ↦ rw (get-insert e j k row t, same) refl
    | inr other ↦ rw (get-insert e j k row t, other) refl
  ]

  abbrev upsert_one : (UsageRow → UsageRow → UsageRow) → K → UsageRow → UsageTable K → UsageTable K
  upsert_one set j row t = elim (get e j t) [
    | none ↦ insert e j row t
    | some old ↦ insert e j (set old row) t
  ]

  row_at-upsert_one :
      (set : UsageRow → UsageRow → UsageRow) (j : K) (row : UsageRow) (t : UsageTable K)
      → set no_row row ≡ row
      → row_at e k (upsert_one set j row t)
        ≡ (if e.beq j k then set (row_at e k t) row else row_at e k t)
  row_at-upsert_one set j row t h = elim (Bool-cases (e.beq j k)) [
    | inl same ↦
        let at : get e j t ≡ get e k t = ap (λ i. get e i t) ((e.beq_iff j k).0 same) in
        elim (Option-cases (get e k t)) [
          | inl absent ↦ rw (same, upsert_one, at, absent) (row_at-insert j row t ∙ rw same (sym h))
          | inr (old, there) ↦
              rw (same, upsert_one, at, there) (row_at-insert j (set old row) t ∙ rw same refl)
        ]
    | inr other ↦ elim (Option-cases (get e j t)) [
      | inl absent ↦ rw (other, upsert_one, absent) (row_at-insert j row t ∙ rw other refl)
      | inr (old, there) ↦
          rw (other, upsert_one, there) (row_at-insert j (set old row) t ∙ rw other refl)
    ]
  ]

  pub closed-rows :
      (its : List I) (t : UsageTable K)
      → let r = row_at e k (upsert_closed its t) in
        (r.closed_millis ≡ (row_at e k t).closed_millis + sum_for its)
        × (r.open_millis ≡ (if mentions its then 0 else (row_at e k t).open_millis))
  unfolding exec_batch
  closed-rows [] t = (ground arith, refl)
  closed-rows (it ∷ its) t =
      let row = closed_row (ms it) in
      let t' = upsert_one set_closed (key it) row t in
      let alone : 0 + ms it ≡ ms it = ground arith in
      let step = row_at-upsert_one set_closed (key it) row t (ap closed_row alone) in
      let (closed, opened) = closed-rows its t' in
      elim (Bool-cases (e.beq (key it) k)) [
        | inl same ↦
            (closed ∙ rw (step, same) (ground arith), opened ∙ rw (step, same) (ground arith))
        | inr other ↦
            (closed ∙ rw (step, other) (ground arith), opened ∙ rw (step, other) (ground arith))
      ]

  pub open-rows :
      (its : List I) (t : UsageTable K)
      → let r = row_at e k (upsert_open its t) in
        (r.closed_millis ≡ (row_at e k t).closed_millis)
        × (r.open_millis ≡ last_for (row_at e k t).open_millis its)
  unfolding exec_batch
  open-rows [] t = (refl, refl)
  open-rows (it ∷ its) t =
      let row = open_row (ms it) in
      let t' = upsert_one set_open (key it) row t in
      let step = row_at-upsert_one set_open (key it) row t refl in
      let (closed, opened) = open-rows its t' in
      elim (Bool-cases (e.beq (key it) k)) [
        | inl same ↦ (closed ∙ rw (step, same) refl, opened ∙ rw (step, same) refl)
        | inr other ↦ (closed ∙ rw (step, other) refl, opened ∙ rw (step, other) refl)
      ]

-- The upserts of closed items, then those of open ones. For every day, user and application the
-- closed milliseconds grow by those of all the items for it, and the open milliseconds are the last
-- open item's; without one they are zero if an interval was closed, and else what they were.
pub flush_apps-rows :
    (date : String) (uid : Uid) (app_id : ℕ) (closed : List ClosedAppItem)
    (opened : List OpenAppItem) (t : UsageTable AppKey)
    → let k : AppKey = (uid, (date, app_id)) in
      let key : ClosedAppItem → AppKey = λ it. (as_i32 it.uid, (it.date, it.app_id)) in
      let open_key : OpenAppItem → AppKey = λ it. (as_i32 it.uid, (it.date, it.app_id)) in
      let old = row_at app_key_eq k t in
      let r =
        row_at app_key_eq k (batch_upsert_open_apps opened (batch_upsert_closed_apps closed t)) in
      (r.closed_millis ≡ old.closed_millis + sum_for app_key_eq key (λ it. it.delta_ms) k closed)
      × (r.open_millis
          ≡ last_for app_key_eq open_key
              (λ it. it.open_ms)
              k
              (if mentions app_key_eq key (λ it. it.delta_ms) k closed then 0 else old.open_millis)
              opened)
unfolding batch_upsert_open_apps batch_upsert_closed_apps
flush_apps-rows date uid app_id closed opened t =
    let k : AppKey = (uid, (date, app_id)) in
    let key : ClosedAppItem → AppKey = λ it. (as_i32 it.uid, (it.date, it.app_id)) in
    let open_key : OpenAppItem → AppKey = λ it. (as_i32 it.uid, (it.date, it.app_id)) in
    let (c, o) = closed-rows app_key_eq key (λ it. it.delta_ms) k closed t in
    let (c', o') =
      open-rows app_key_eq open_key (λ it. it.open_ms) k opened
        (batch_upsert_closed_apps closed t) in
    (c' ∙ c, o' ∙ ap (λ before. last_for app_key_eq open_key (λ it. it.open_ms) k before opened) o)
