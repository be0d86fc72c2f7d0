-- ===== src/Blocking/Repo.antt =====
-- crates/daemon/src/blocking/data/repo.rs: `BlockingRepo` on the tables, with the rest of `process_all_deltas` of
-- crates/daemon/src/store/daos/daily_usage/deltas.rs. The ids of new rows are the database's choice.
pub mod Stored
pub mod Rows
use Prim.Native.String.{String}
use digital_wellbeing.Common.{
  ℕ, Bool, true, false, not, if◌then◌else◌, Option, none, some, is_some, unwrap_or, List, [], ◌∷◌,
  map, filter, any,
}
use digital_wellbeing.Common.Eq.{nat_eq}
use digital_wellbeing.Common.Map.{get}
use digital_wellbeing.Blocking.Actor.{Services}
use digital_wellbeing.Platform.{TimedEvent}
use digital_wellbeing.Policy.Repo
use digital_wellbeing.Store.{Tables}
use digital_wellbeing.Store.Apps
use digital_wellbeing.Store.Categories.{
  Pair, pair_eq, resolve_category_map, resolve_categories_for_app,
}
use digital_wellbeing.Store.Events.{
  EventTable, batch_insert_events, get_last_events_for_uids, get_uids_with_open_intervals,
}
use digital_wellbeing.Store.Usage.{
  UsageTables, batch_upsert_closed_apps, batch_upsert_closed_titles, batch_upsert_closed_categories,
  batch_upsert_open_apps, batch_upsert_open_titles, batch_upsert_open_categories,
}
use digital_wellbeing.Store.Usage.Reads
use digital_wellbeing.Usage.{Agg, AggKeyApp}
use digital_wellbeing.Usage.Deltas.{Deltas, ByCategory, accumulate, accumulate_category_deltas}
use digital_wellbeing.Usage.Walk.{EventRow, AppCache}
use digital_wellbeing.Values.AppClass.{AppClass, app_class_eq}
use digital_wellbeing.Values.Blocked.{Uid}
use digital_wellbeing.Values.Category
use digital_wellbeing.Values.DateTime.{DateTime}

pub record Database : Type 0 where
  pub tables : Tables
  pub usage : UsageTables
  pub events : EventTable

-- The distinct pairs of a user and an application, in the order of the keys.
unfoldable pub pairs_of : List ((Uid × AggKeyApp) × ℕ) → List Pair → List Pair
pairs_of [] seen = []
pairs_of ((k, ms) ∷ agg) seen =
    let fresh = pairs_of agg ((k.0, k.1.1) ∷ seen) in
    let old = pairs_of agg seen in
    if any (λ s. pair_eq.beq s (k.0, k.1.1)) seen then old else (k.0, k.1.1) ∷ fresh

-- `accumulate_category_deltas` with the categories that the tables answer.
unfoldable pub category_deltas : Tables → Agg → ByCategory
unfolding pairs_of resolve_category_map accumulate_category_deltas
category_deltas tables agg =
    let cat_map = resolve_category_map (pairs_of agg.by_app []) tables in
    accumulate_category_deltas (λ uid app_id. get pair_eq (uid, app_id) cat_map) agg.by_app []

-- The six upserts.
unfoldable pub upsert_deltas : Tables → Deltas → UsageTables → UsageTables
unfolding category_deltas batch_upsert_closed_apps batch_upsert_closed_titles
    batch_upsert_closed_categories batch_upsert_open_apps batch_upsert_open_titles
    batch_upsert_open_categories
upsert_deltas tables d u =
    let closed_apps =
      map (λ e. record { date = e.0.1.0; uid = e.0.0; app_id = e.0.1.1; delta_ms = e.1 })
        d.agg_closed.by_app in
    let closed_titles =
      map
        (λ e. record {
          date = e.0.1.0.0;
          uid = e.0.0;
          app_id = e.0.1.0.1;
          title = record { text = e.0.1.1.1 };
          delta_ms = e.1;
        })
        d.agg_closed.by_title in
    let closed_categories =
      map (λ e. record { date = e.0.1.0; uid = e.0.0; category_id = e.0.1.1; delta_ms = e.1 })
        (category_deltas tables d.agg_closed) in
    let open_apps =
      map (λ e. record { date = e.0.1.0; uid = e.0.0; app_id = e.0.1.1; open_ms = e.1 })
        d.agg_open.by_app in
    let open_titles =
      map
        (λ e. record {
          date = e.0.1.0.0;
          uid = e.0.0;
          app_id = e.0.1.0.1;
          title = record { text = e.0.1.1.1 };
          open_ms = e.1;
        })
        d.agg_open.by_title in
    let open_categories =
      map (λ e. record { date = e.0.1.0; uid = e.0.0; category_id = e.0.1.1; open_ms = e.1 })
        (category_deltas tables d.agg_open) in
    record {
      by_app = batch_upsert_open_apps open_apps (batch_upsert_closed_apps closed_apps u.by_app);
      by_title =
          batch_upsert_open_titles open_titles
            (batch_upsert_closed_titles closed_titles u.by_title);
      by_category =
          batch_upsert_open_categories open_categories
            (batch_upsert_closed_categories closed_categories u.by_category);
    }

-- `if !events.is_empty()` around the insertion.
unfoldable pub insert_events : ℕ → List TimedEvent → EventTable → Option EventTable
unfolding batch_insert_events
insert_events next_id [] t = some t
insert_events next_id (e ∷ es) t = batch_insert_events next_id (e ∷ es) t

-- The end of the transaction: without an error it is committed, else it is rolled back.
unfoldable pub commit : Bool → AppCache → Database → Option Database → Bool × AppCache × Database
commit works cache db none = (false, cache, db)
commit works cache db (some db') = if works then (true, cache, db') else (false, cache, db)

module _ (new_id : AppClass → ℕ) where
  -- What `ensure_app` answers inside of the transaction.
  unfoldable pub ensured : Tables → AppClass → Option ℕ
  unfolding Apps.ensure_app
  ensured tables app = some (Apps.ensure_app (new_id app) app tables).0

  -- The rows that `ensure_app` has inserted for the applications that are new in the cache.
  unfoldable pub register_apps : AppCache → AppCache → Tables → Tables
  unfolding Apps.ensure_app
  register_apps before [] tables = tables
  register_apps before ((app, id) ∷ cache) tables =
      let rest = register_apps before cache tables in
      if is_some (get app_class_eq app before)
      then rest
      else (Apps.ensure_app (new_id app) app rest).1

  -- `last_events.get(&uid)` of the fetched rows.
  unfoldable pub last_of : List Uid → EventTable → Uid → Option EventRow
  unfolding get_last_events_for_uids
  last_of all_uids t uid = unwrap_or (get nat_eq uid (get_last_events_for_uids all_uids t)) none

  -- The database after the upserts and with the rows, if the rows were inserted.
  unfoldable pub with_events : Database → AppCache → Deltas → Option EventTable → Option Database
  unfolding register_apps upsert_deltas
  with_events db app_cache d none = none
  with_events db app_cache d (some rows) =
      let tables = register_apps app_cache d.cache db.tables in
      some (record { tables = tables; usage = upsert_deltas tables d db.usage; events = rows })

  -- The transaction; `works` is whether it commits. The cache keeps what was put into it in any case;
  -- an error before the accumulation, which would leave the cache as it was, is not told apart.
  unfoldable pub flush_with_deltas :
      ℕ → Bool → List TimedEvent → List Uid → ℕ → AppCache → Database → Bool × AppCache × Database
  unfolding ensured last_of accumulate with_events insert_events commit
  flush_with_deltas next_id works events all_uids now_ms app_cache db =
      let d =
        accumulate (ensured db.tables) (last_of all_uids db.events) now_ms events all_uids
          app_cache in
      commit works d.cache db (with_events db app_cache d (insert_events next_id events db.events))

  -- The actor's services with the database's answers in their place; a transaction is one of the
  -- database as it is then.
  unfoldable pub on_database :
      {Proxy : Type 0} → ℕ → Bool → Database → Services Proxy → Services Proxy
  unfolding flush_with_deltas Apps.ensure_app resolve_categories_for_app Category.to_code
      Reads.get_today_app_usage get_uids_with_open_intervals Repo.resolve_for_app
  on_database next_id works db s = record s {
    ensure_app = λ app. some (Apps.ensure_app (new_id app) app db.tables).0;
    resolve_category_discriminants =
        λ app uid. some (map Category.to_code (resolve_categories_for_app app uid db.tables));
    resolve_for_app = λ app_id categories uid day_mask minute.
        some (Repo.resolve_for_app app_id categories uid day_mask minute db.tables);
    get_today_usage =
        λ app_id uid today. some (Reads.get_today_app_usage app_id uid today db.usage.by_app);
    uids_with_open_intervals = some (get_uids_with_open_intervals db.events);
    flush_with_deltas = λ events all_uids now cache.
        let (done, cache', db') =
          flush_with_deltas next_id works events all_uids now.millis cache db in
        (done, cache');
  }
