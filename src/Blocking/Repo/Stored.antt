-- ===== src/Blocking/Repo/Stored.antt =====
-- What a flush stores of the users' focus time.
use digital_wellbeing.Common.{
  ℕ, ◌+◌, ◌^◌, ◌<◌, ◌≡◌, refl, sym, ◌∙◌, ap, subst, Bool, true, ◌==◌, if◌then◌else◌, Option, none,
  some, unwrap_or, List, [], ◌∷◌, map, All, arith,
}
use digital_wellbeing.Common.Map.{IsMap}
use digital_wellbeing.Blocking.Repo.{
  Database, upsert_deltas, ensured, register_apps, last_of, flush_with_deltas, commit, with_events,
  insert_events,
}
use digital_wellbeing.Focus.{focus_ms}
use digital_wellbeing.Platform.{TimedEvent, event_uid}
use digital_wellbeing.Store.{Tables, as_i32}
use digital_wellbeing.Store.Events.{EventTable}
use digital_wellbeing.Store.Usage.{
  UsageTable, UsageTables, AppKey, ClosedAppItem, OpenAppItem, batch_upsert_closed_apps,
  batch_upsert_open_apps,
}
use digital_wellbeing.Store.Usage.Columns.{closed_column, items_sum, stored-closed, stored-open}
use digital_wellbeing.Usage.{AggKeyApp, app_key_eq}
use digital_wellbeing.Usage.Accounting.{moments, user_ms}
use digital_wellbeing.Usage.Deltas.{Deltas, accumulate, of_uid, sort_by_time}
use digital_wellbeing.Usage.FocusTime.{InTime, was_focused, since, accumulate-focus_ms}
use digital_wellbeing.Usage.Once.{times}
use digital_wellbeing.Usage.Registered.{UsersIn, accumulate-UsersIn}
use digital_wellbeing.Usage.Totals.{sum_if}
use digital_wellbeing.Usage.Walk.{AppCache}
use digital_wellbeing.Values.AppClass.{AppClass}
use digital_wellbeing.Values.Blocked.{Uid}

-- A user id is 32 bits.
abbrev pub Fits : Uid → Type 0
Fits u = u < 2 ^ 32

-- The closed milliseconds that a table has for a user, over all days and applications.
abbrev pub stored_for : Uid → UsageTable AppKey → ℕ
stored_for u t = sum_if (λ (k : AppKey). k.0 == as_i32 u) (closed_column t)

abbrev closed_items : List ((Uid × AggKeyApp) × ℕ) → List ClosedAppItem
closed_items agg =
    map (λ e. record { date = e.0.1.0; uid = e.0.0; app_id = e.0.1.1; delta_ms = e.1 }) agg

-- The items of an aggregate hold the time that the aggregate has for the user.
items-user_ms :
    (u : Uid) (agg : List ((Uid × AggKeyApp) × ℕ))
    → Fits u
    → UsersIn Fits agg
    → items_sum app_key_eq
        (λ (it : ClosedAppItem). (as_i32 it.uid, (it.date, it.app_id)))
        (λ it. it.delta_ms)
        (λ (k : AppKey). k.0 == as_i32 u)
        (closed_items agg)
      ≡ sum_if (λ k. k.0 == u) agg
items-user_ms u [] fits h = refl
items-user_ms u ((k, ms) ∷ agg) fits h =
    let rest = items-user_ms u agg fits h.1 in
    let fits' : k.0 < 2 ^ 32 = h.0 in
    let alike : (as_i32 k.0 == as_i32 u) ≡ (k.0 == u) = ground arith in
    rw alike (ap (λ n. (if k.0 == u then ms else 0) + n) rest)

upsert_deltas-stored :
    (u : Uid) (tables : Tables) (d : Deltas) (usage : UsageTables)
    → Fits u
    → UsersIn Fits d.agg_closed.by_app
    → IsMap app_key_eq usage.by_app
    → (stored_for u (upsert_deltas tables d usage).by_app
        ≡ stored_for u usage.by_app + user_ms u d.agg_closed)
      × IsMap app_key_eq (upsert_deltas tables d usage).by_app
unfolding upsert_deltas batch_upsert_closed_apps batch_upsert_open_apps
upsert_deltas-stored u tables d usage fits users h =
    let opened : List OpenAppItem =
      map (λ e. record { date = e.0.1.0; uid = e.0.0; app_id = e.0.1.1; open_ms = e.1 })
        d.agg_open.by_app in
    let closed = closed_items d.agg_closed.by_app in
    let (grown, h') =
      stored-closed app_key_eq (λ (it : ClosedAppItem). (as_i32 it.uid, (it.date, it.app_id)))
        (λ it. it.delta_ms) (λ (k : AppKey). k.0 == as_i32 u) closed usage.by_app h in
    let (kept, h'') =
      stored-open app_key_eq (λ (it : OpenAppItem). (as_i32 it.uid, (it.date, it.app_id)))
        (λ it. it.open_ms) (λ (k : AppKey). k.0 == as_i32 u) opened
        (batch_upsert_closed_apps closed usage.by_app) h' in
    (
      kept
          ∙ grown
          ∙ ap (λ n. stored_for u usage.by_app + n)
              (items-user_ms u d.agg_closed.by_app fits users),
      h'',
    )

module _ (new_id : AppClass → ℕ) (next_id : ℕ) (events : List TimedEvent) (all_uids : List Uid)
    (now : ℕ) (cache : AppCache) (db : Database) where
  -- The accumulated intervals of the flush.
  abbrev pub deltas : Deltas
  deltas =
      accumulate (ensured new_id db.tables) (last_of new_id all_uids db.events) now events all_uids
        cache

  -- A transaction that commits leaves the database that was written.
  commit-written :
      (works : Bool) (o : Option Database)
      → (commit works deltas.cache db o).0 ≡ true
      → o ≡ some (commit works deltas.cache db o).2
  unfolding commit
  commit-written works none done = cc
  commit-written works (some db') done = ground arith

  with_events-usage :
      (o : Option EventTable) (db' : Database)
      → with_events new_id db cache deltas o ≡ some db'
      → (db'.usage
          ≡ upsert_deltas (register_apps new_id cache deltas.cache db.tables) deltas db.usage)
        × (o ≡ some db'.events)
  unfolding with_events
  with_events-usage none db' h = cc
  with_events-usage (some rows) db' h = (
    sym (ap (λ (o : Option Database). (unwrap_or o db).usage) h),
    ap (λ (o : Option Database). some (unwrap_or o db).events) h,
  )

  -- After a flush that commits, a user that is registered once has in the closed column of the daily rows what
  -- it had before and, together with the interval that is still open, exactly the focus time of
  -- the user since the last persisted event: nothing is lost and nothing counted twice. The rows keep distinct
  -- keys, and the buffered events are appended to the event table. The events may be no earlier
  -- than their user's last persisted event and no later than now, and user ids are 32 bits.
  pub flush_with_deltas-stored :
      (works : Bool) (u : Uid)
      → Fits u
      → All (λ t. Fits (event_uid t.event)) events
      → IsMap app_key_eq db.usage.by_app
      → ((v : Uid)
          → InTime (ensured new_id db.tables) (last_of new_id all_uids db.events) now events v)
      → times u 1 all_uids ≡ 1
      → (flush_with_deltas new_id next_id works events all_uids now cache db).0 ≡ true
      → let db' = (flush_with_deltas new_id next_id works events all_uids now cache db).2 in
        let last = last_of new_id all_uids db.events u in
        (stored_for u db'.usage.by_app + user_ms u deltas.agg_open
          ≡ stored_for u db.usage.by_app
            + focus_ms
                (was_focused last)
                (since last)
                (moments (sort_by_time (of_uid u events)))
                now)
        × IsMap app_key_eq db'.usage.by_app
        × (insert_events next_id events db.events ≡ some db'.events)
  unfolding flush_with_deltas
  flush_with_deltas-stored works u fits users distinct_keys time once done =
      let last_rows = last_of new_id all_uids db.events in
      let ensure = ensured new_id db.tables in
      let o = with_events new_id db cache deltas (insert_events next_id events db.events) in
      let db' : Database = (commit works deltas.cache db o).2 in
      let (usage_is, rows_are) =
        with_events-usage (insert_events next_id events db.events) db'
          (commit-written works o done) in
      let (spent_is, titles_are) =
        accumulate-focus_ms ensure last_rows now events u all_uids cache time once in
      let tables = register_apps new_id cache deltas.cache db.tables in
      let (grown, keys) =
        upsert_deltas-stored u tables deltas db.usage fits
          (accumulate-UsersIn Fits ensure last_rows now events all_uids cache users)
          distinct_keys in
      let usage' : db'.usage.by_app ≡ (upsert_deltas tables deltas db.usage).by_app =
        ap (λ (x : UsageTables). x.by_app) usage_is in
      (
        ap (λ t. stored_for u t + user_ms u deltas.agg_open) usage' ∙ omega arith,
        subst (IsMap app_key_eq) (sym usage') keys,
        rows_are,
      )
