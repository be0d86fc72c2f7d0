-- ===== src/Blocking/Repo/Rows.antt =====
-- What the upserts of a flush make of a row of the daily usage of the applications.
use Prim.Native.String.{String}
use digital_wellbeing.Common.{ℕ, ◌+◌, ◌≡◌, refl, ap, ◌∙◌, if◌then◌else◌, List, [], ◌∷◌, map}
use digital_wellbeing.Common.Eq.{Eq}
use digital_wellbeing.Blocking.Repo.{upsert_deltas}
use digital_wellbeing.Store.{Tables, as_i32}
use digital_wellbeing.Store.Usage.{UsageTables, AppKey, ClosedAppItem, OpenAppItem}
use digital_wellbeing.Store.Usage.Batch.{row_at, sum_for, mentions, last_for, flush_apps-rows}
use digital_wellbeing.Usage.{AggKeyApp, app_key_eq}
use digital_wellbeing.Usage.Deltas.{Deltas}
use digital_wellbeing.Values.Blocked.{Uid}

-- What a list of items says of a key is what the list that it is made of says.
module _ {K I J : Type 0} (e : Eq K) (key : I → K) (ms : I → ℕ) (k : K) (make : J → I) where
  sum_for-map :
      (js : List J)
      → sum_for e key ms k (map make js) ≡ sum_for e (λ j. key (make j)) (λ j. ms (make j)) k js
  sum_for-map [] = refl
  sum_for-map (j ∷ js) = rw (sum_for-map js) refl

  mentions-map :
      (js : List J)
      → mentions e key ms k (map make js) ≡ mentions e (λ j. key (make j)) (λ j. ms (make j)) k js
  mentions-map [] = refl
  mentions-map (j ∷ js) = rw (mentions-map js) refl

  last_for-map :
      (js : List J) (before : ℕ)
      → last_for e key ms k before (map make js)
        ≡ last_for e (λ j. key (make j)) (λ j. ms (make j)) k before js
  last_for-map [] before = refl
  last_for-map (j ∷ js) before =
      last_for-map js (if e.beq (key (make j)) k then ms (make j) else before)

-- The row that an entry of an aggregate goes to.
abbrev pub goes_to : (Uid × AggKeyApp) × ℕ → AppKey
goes_to entry = (as_i32 entry.0.0, entry.0.1)

-- The upserts of a flush store the closed intervals of the deltas before the open ones. For every
-- user, day and application the closed milliseconds of the row grow by those of all the closed
-- entries that go to it, and the open milliseconds are the last open entry's; without one they are
-- zero if an interval was closed, and else what they were.
pub upsert_deltas-rows :
    (date : String) (uid : Uid) (app_id : ℕ) (tables : Tables) (d : Deltas) (u : UsageTables)
    → let k : AppKey = (uid, (date, app_id)) in
      let old = row_at app_key_eq k u.by_app in
      let r = row_at app_key_eq k (upsert_deltas tables d u).by_app in
      let millis : (Uid × AggKeyApp) × ℕ → ℕ = λ entry. entry.1 in
      (r.closed_millis
        ≡ old.closed_millis + sum_for app_key_eq goes_to millis k d.agg_closed.by_app)
      × (r.open_millis
          ≡ last_for app_key_eq goes_to millis k
              (if mentions app_key_eq goes_to millis k d.agg_closed.by_app
                then 0
                else old.open_millis)
              d.agg_open.by_app)
unfolding upsert_deltas
upsert_deltas-rows date uid app_id tables d u =
    let k : AppKey = (uid, (date, app_id)) in
    let old = row_at app_key_eq k u.by_app in
    let close : (Uid × AggKeyApp) × ℕ → ClosedAppItem =
      λ e. record { date = e.0.1.0; uid = e.0.0; app_id = e.0.1.1; delta_ms = e.1 } in
    let open_ : (Uid × AggKeyApp) × ℕ → OpenAppItem =
      λ e. record { date = e.0.1.0; uid = e.0.0; app_id = e.0.1.1; open_ms = e.1 } in
    let key : ClosedAppItem → AppKey = λ it. (as_i32 it.uid, (it.date, it.app_id)) in
    let open_key : OpenAppItem → AppKey = λ it. (as_i32 it.uid, (it.date, it.app_id)) in
    let (c, o) =
      flush_apps-rows date uid app_id (map close d.agg_closed.by_app) (map open_ d.agg_open.by_app)
        u.by_app in
    (
      c
          ∙ ap (λ n. old.closed_millis + n)
              (sum_for-map app_key_eq key (λ it. it.delta_ms) k close d.agg_closed.by_app),
      o
          ∙ last_for-map app_key_eq open_key (λ it. it.open_ms) k open_ d.agg_open.by_app _
          ∙ ap
              (λ b.
                last_for app_key_eq goes_to (λ entry. entry.1) k (if b then 0 else old.open_millis)
                  d.agg_open.by_app)
              (mentions-map app_key_eq key (λ it. it.delta_ms) k close d.agg_closed.by_app),
    )
