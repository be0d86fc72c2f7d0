-- ===== src/Usage/Walk.antt =====
-- The single pass of `process_all_deltas` in crates/daemon/src/store/daos/daily_usage/deltas.rs: how the
-- focus intervals of one user open and close, and what is left open. `ensure` is the database's
-- answer of `AppsDao::ensure_app`.
use Prim.Native.String.{String}
use digital_wellbeing.Common.{ℕ, if◌then◌else◌, Option, none, some, unwrap_or, List, [], ◌∷◌}
use digital_wellbeing.Common.Map.{get, insert}
use digital_wellbeing.Platform.{
  TimedEvent, event_type, is_close_event, event_app_class, event_title,
}
use digital_wellbeing.Usage.{Agg, OpenFocus, accumulate_closed}
use digital_wellbeing.Values.AppClass
use digital_wellbeing.Values.AppClass.{AppClass, app_class_eq}
use digital_wellbeing.Values.Blocked.{Uid}
use digital_wellbeing.Values.EventType
use digital_wellbeing.Values.EventType.{EventType}
use digital_wellbeing.Values.WindowTitle
use digital_wellbeing.Values.WindowTitle.{WindowTitle}

-- `EventRow` of crates/daemon/src/store/daos/events.rs, as far as it is read here.
pub record EventRow : Type 0 where
  pub event_type : ℕ
  pub user_id : Uid
  pub timestamp : ℕ
  pub app_class : Option String
  pub title : Option String

abbrev pub AppCache : Type 0
AppCache = List (AppClass × ℕ)

abbrev pub unknown_app : AppClass
unknown_app = record { text = "unknown" }

-- The validated class of a text, or the class `unknown`.
abbrev class_or_unknown : Option String → AppClass
class_or_unknown none = unknown_app
class_or_unknown (some s) = unwrap_or (AppClass.new s) unknown_app

-- The variables of the loop over one user's events: the open interval, the closed aggregates and the
-- application cache.
pub record Walk : Type 0 where
  pub open_focus : Option OpenFocus
  pub closed : Agg
  pub cache : AppCache

-- `open_focus.take()`, and `accumulate_closed` if an interval was open.
unfoldable pub close_at : ℕ → Uid → Walk → Walk
close_at ts_ms uid w = elim w.open_focus [
  | some prev ↦ record w { open_focus = none; closed = accumulate_closed prev ts_ms uid w.closed }
  | none ↦ w
]

module _ (ensure : AppClass → Option ℕ) where
  unfoldable pub cached_ensure_app : AppClass → AppCache → ℕ × AppCache
  cached_ensure_app app cache = elim (get app_class_eq app cache) [
    | some id ↦ (id, cache)
    | none ↦ let id = unwrap_or (ensure app) 0 in (id, insert app_class_eq app id cache)
  ]

  unfoldable pub open_focus_from_row : EventRow → AppCache → Option OpenFocus × AppCache
  open_focus_from_row row cache =
      let t = unwrap_or (EventType.try_from row.event_type) EventType.focus in
      let app = class_or_unknown row.app_class in
      let (id, cache') = cached_ensure_app app cache in
      let title : WindowTitle = elim row.title [
        | some s ↦ WindowTitle.new s
        | none ↦ WindowTitle.new "(untitled)"
      ] in
      if EventType.same t EventType.focus
      then (
        some (record { ts_ms = row.timestamp; app_class = app; app_id = id; title = title }),
        cache',
      )
      else (none, cache)

  unfoldable pub open_focus_from_event : TimedEvent → AppCache → OpenFocus × AppCache
  open_focus_from_event timed cache =
      let app = unwrap_or (event_app_class timed.event) unknown_app in
      let (id, cache') = cached_ensure_app app cache in
      let title = unwrap_or (event_title timed.event) (WindowTitle.new "(untitled)") in
      (record { ts_ms = timed.timestamp; app_class = app; app_id = id; title = title }, cache')

  -- One round of `for timed in &uid_events`.
  unfoldable pub step : Uid → TimedEvent → Walk → Walk
  step uid timed w =
      let shut = close_at timed.timestamp uid w in
      let (focus, cache) = open_focus_from_event timed shut.cache in
      if EventType.same (event_type timed.event) EventType.focus
      then record { open_focus = some focus; closed = shut.closed; cache = cache }
      else if is_close_event timed.event
      then shut
      else w

  unfoldable pub walk : Uid → List TimedEvent → Walk → Walk
  walk uid [] w = w
  walk uid (timed ∷ events) w = walk uid events (step uid timed w)

  -- The seed of the walk: the interval that the last persisted event left open, if it was a focus.
  unfoldable pub seed : Option EventRow → AppCache → Option OpenFocus × AppCache
  seed none cache = (none, cache)
  seed (some row) cache = open_focus_from_row row cache
