-- ===== src/Usage/Deltas.antt =====
-- `process_all_deltas` of crates/daemon/src/store/daos/daily_usage/deltas.rs up to the upserts: the
-- users with buffered events (phase A), those without (phase B), and the categories. The six
-- upserted tables are the result; `resolve_category_map` is the database's answer, and the order
-- of HashMap iteration is that of first insertion or of the list.
use Prim.Native.String.{String}
use digital_wellbeing.Common.{
  ℕ, Bool, leb, if◌then◌else◌, Option, none, some, unwrap_or, List, [], ◌∷◌, any, filter, ◌==◌, map,
}
use digital_wellbeing.Common.Eq.{Eq, nat_eq, string_eq}
use digital_wellbeing.Blocking.Buffer.{distinct}
use digital_wellbeing.Platform.{TimedEvent, event_uid}
use digital_wellbeing.Usage.{Agg, OpenFocus, AggKeyApp, empty, add, pair_eq, accumulate_open}
use digital_wellbeing.Usage.Walk.{EventRow, AppCache, walk, seed}
use digital_wellbeing.Values.AppClass.{AppClass}
use digital_wellbeing.Values.Blocked.{Uid}

-- `AggKeyCategory`: the date and the category's id.
abbrev pub AggKeyCategory : Type 0
AggKeyCategory = String × ℕ

abbrev pub category_key_eq : Eq (Uid × AggKeyCategory)
category_key_eq = pair_eq nat_eq (pair_eq string_eq nat_eq)

abbrev pub ByCategory : Type 0
ByCategory = List ((Uid × AggKeyCategory) × ℕ)

-- The loop over the categories of one application.
unfoldable pub fan_out : Uid → String → ℕ → List ℕ → ByCategory → ByCategory
fan_out uid date delta_ms [] agg = agg
fan_out uid date delta_ms (cat_id ∷ cat_ids) agg =
    fan_out uid date delta_ms cat_ids (add category_key_eq (uid, (date, cat_id)) delta_ms agg)

-- `accumulate_category_deltas`
unfoldable pub accumulate_category_deltas :
    (Uid → ℕ → Option (List ℕ)) → List ((Uid × AggKeyApp) × ℕ) → ByCategory → ByCategory
unfolding fan_out
accumulate_category_deltas cat_map [] agg = agg
accumulate_category_deltas cat_map (((uid, (date, app_id)), delta_ms) ∷ rest) agg =
    accumulate_category_deltas cat_map rest
      (fan_out uid date delta_ms (unwrap_or (cat_map uid app_id) []) agg)

-- The stable `sort_by_key` on the timestamps.
unfoldable pub insert_by_time : TimedEvent → List TimedEvent → List TimedEvent
insert_by_time t [] = t ∷ []
insert_by_time t (u ∷ us) =
    if leb t.timestamp u.timestamp then t ∷ u ∷ us else u ∷ insert_by_time t us

unfoldable pub sort_by_time : List TimedEvent → List TimedEvent
unfolding insert_by_time
sort_by_time [] = []
sort_by_time (t ∷ ts) = insert_by_time t (sort_by_time ts)

-- The accumulators of the function.
pub record Deltas : Type 0 where
  pub agg_closed : Agg
  pub agg_open : Agg
  pub cache : AppCache

unfoldable pub of_uid : Uid → List TimedEvent → List TimedEvent
unfolding event_uid
of_uid uid events = filter (λ t. event_uid t.event == uid) events

-- `accumulate_open` for an interval that is still open.
unfoldable pub refresh_open : Option OpenFocus → ℕ → Uid → Agg → Agg
unfolding accumulate_open
refresh_open none now_ms uid agg = agg
refresh_open (some focus) now_ms uid agg = accumulate_open focus now_ms uid agg

-- Whether the events have one of the user.
abbrev pub has_events : Uid → List TimedEvent → Bool
has_events uid events = any (λ t. event_uid t.event == uid) events

module _ (ensure : AppClass → Option ℕ) (last_events : Uid → Option EventRow) (now_ms : ℕ) where
  -- One round of phase A.
  unfoldable pub process_uid : List TimedEvent → Uid → Deltas → Deltas
  process_uid events uid d =
      let (open_focus, cache) = seed ensure (last_events uid) d.cache in
      let w =
        walk ensure uid (sort_by_time (of_uid uid events))
          (record { open_focus = open_focus; closed = d.agg_closed; cache = cache }) in
      record {
        agg_closed = w.closed;
        agg_open = refresh_open w.open_focus now_ms uid d.agg_open;
        cache = w.cache;
      }

  unfoldable pub phase_a : List TimedEvent → List Uid → Deltas → Deltas
  phase_a events [] d = d
  phase_a events (uid ∷ uids) d = phase_a events uids (process_uid events uid d)

  -- One round of phase B, with its three `continue`s.
  unfoldable pub refresh_uid : List TimedEvent → Uid → Deltas → Deltas
  refresh_uid events uid d =
      let (open_focus, cache) = seed ensure (last_events uid) d.cache in
      if has_events uid events then d else record {
        agg_closed = d.agg_closed;
        agg_open = refresh_open open_focus now_ms uid d.agg_open;
        cache = cache;
      }

  unfoldable pub phase_b : List TimedEvent → List Uid → Deltas → Deltas
  phase_b events [] d = d
  phase_b events (uid ∷ uids) d = phase_b events uids (refresh_uid events uid d)

  -- Both phases, from empty aggregates.
  unfoldable pub accumulate : List TimedEvent → List Uid → AppCache → Deltas
  accumulate events all_uids cache = phase_b events all_uids (
      phase_a events (distinct [] (map (λ t. event_uid t.event) events))
        (record { agg_closed = empty; agg_open = empty; cache = cache }))

-- What is upserted: the closed and the open aggregates by application and title, and by category.
pub record Upserts : Type 0 where
  pub agg_closed : Agg
  pub closed_categories : ByCategory
  pub agg_open : Agg
  pub open_categories : ByCategory

unfoldable pub process_all_deltas :
    (AppClass → Option ℕ)
    → (Uid → ℕ → Option (List ℕ))
    → List TimedEvent
    → List Uid
    → (Uid → Option EventRow)
    → ℕ
    → AppCache
    → Upserts × AppCache
unfolding accumulate accumulate_category_deltas
process_all_deltas ensure cat_map events all_uids last_events now_ms cache =
    let d = accumulate ensure last_events now_ms events all_uids cache in
    (
      record {
        agg_closed = d.agg_closed;
        closed_categories = accumulate_category_deltas cat_map d.agg_closed.by_app [];
        agg_open = d.agg_open;
        open_categories = accumulate_category_deltas cat_map d.agg_open.by_app [];
      },
      d.cache,
    )
