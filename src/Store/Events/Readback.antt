-- ===== src/Store/Events/Readback.antt =====
-- What a client reads of the events that the daemon stored.
use digital_wellbeing.Common.{
  ℕ, suc, ◌<◌, ◌^◌, ◌≡◌, refl, Bool, true, ◌&&◌, ◌==◌, leb, ltb, unwrap_or, List, [], ◌∷◌, map,
  filter, All, arith,
}
use digital_wellbeing.Platform.{
  TimedEvent, PlatformEvent, PowerEventKind, event_type, event_uid, event_app_class,
}
use digital_wellbeing.Store.{as_i32}
use digital_wellbeing.Store.Events.{
  row_of_event, number_rows, batch_insert_events, day_row, get_day_events, earlier,
}
use digital_wellbeing.Store.Events.Accepted.{IsEvent, batch_insert_events-accepts}
use digital_wellbeing.Store.Usage.Reads.{sort_by, insert_by}
use digital_wellbeing.Timeline.{DayEventRow}
use digital_wellbeing.Values.Blocked.{Uid}
use digital_wellbeing.Values.EventType

-- What a client sees of an event: an event without an application counts as the application `unknown`.
abbrev pub seen : TimedEvent → DayEventRow
seen timed = record {
  event_type = event_type timed.event;
  timestamp = timed.timestamp;
  app_class = unwrap_or (event_app_class timed.event) (record { text = "unknown" });
}

-- The user's events of the range.
abbrev pub is_of : Uid → ℕ → ℕ → TimedEvent → Bool
is_of uid start finish timed =
    event_uid timed.event == uid && leb start timed.timestamp && ltb timed.timestamp finish

abbrev pub IsInOrder : List TimedEvent → Type 0
IsInOrder [] = Unit
IsInOrder (e ∷ []) = Unit
IsInOrder (e ∷ f ∷ events) = (leb e.timestamp f.timestamp ≡ true) × IsInOrder (f ∷ events)

day_row-row_of_event :
    (e : PlatformEvent) (at : ℕ)
    → IsEvent (record { event = e; timestamp = at })
    → day_row (row_of_event (record { event = e; timestamp = at }))
      ≡ seen (record { event = e; timestamp = at })
unfolding day_row row_of_event event_type event_app_class EventType.to_code EventType.try_from
day_row-row_of_event (PlatformEvent.focus app title uid) at h = rw h.0 refl
day_row-row_of_event (PlatformEvent.block app title uid) at h = rw h.0 refl
day_row-row_of_event (PlatformEvent.unfocus uid) at h = refl
day_row-row_of_event (PlatformEvent.idle uid) at h = refl
day_row-row_of_event (PlatformEvent.resume uid) at h = refl
day_row-row_of_event (PlatformEvent.log_out uid) at h = refl
day_row-row_of_event (PlatformEvent.locked uid) at h = refl
day_row-row_of_event (PlatformEvent.power_event PowerEventKind.suspend uid) at h = refl
day_row-row_of_event (PlatformEvent.power_event PowerEventKind.hibernate uid) at h = refl
day_row-row_of_event (PlatformEvent.power_event PowerEventKind.shutdown uid) at h = refl

sort_by-number_rows :
    (next_id : ℕ) (events : List TimedEvent)
    → IsInOrder events
    → sort_by earlier (number_rows next_id events) ≡ number_rows next_id events
unfolding sort_by insert_by number_rows row_of_event
sort_by-number_rows next_id [] h = refl
sort_by-number_rows next_id (e ∷ []) h = refl
sort_by-number_rows next_id (e ∷ f ∷ events) h =
    rw (sort_by-number_rows (suc next_id) (f ∷ events) h.1) (rw h.0 refl)

-- The rows of other users, or outside of the range, are left out.
chosen-number_rows :
    (uid : Uid) (start finish next_id : ℕ) (events : List TimedEvent)
    → uid < 2 ^ 32
    → All (λ e. is_of uid start finish e ≡ true) events
    → filter
        (λ e. e.1.user_id == as_i32 uid && leb start e.1.timestamp && ltb e.1.timestamp finish)
        (number_rows next_id events)
      ≡ number_rows next_id events
unfolding number_rows row_of_event
chosen-number_rows uid start finish next_id [] fits h = refl
chosen-number_rows uid start finish next_id (e ∷ events) fits h =
    let rest = chosen-number_rows uid start finish (suc next_id) events fits h.1 in
    let test : ((as_i32 (event_uid e.event) == as_i32 uid)
          && leb start e.timestamp
          && ltb e.timestamp finish)
        ≡ true =
      ground (arith, h.0) in
    rw (test, rest) refl

seen-number_rows :
    (next_id : ℕ) (events : List TimedEvent)
    → All IsEvent events
    → map (λ e. day_row e.1) (number_rows next_id events) ≡ map seen events
unfolding number_rows
seen-number_rows next_id [] h = refl
seen-number_rows next_id (e ∷ events) h =
    rw (day_row-row_of_event e.event e.timestamp h.0, seen-number_rows (suc next_id) events h.1)
      refl

-- A user's events in time order, stored in an empty table, are read back by a query of a range that
-- holds them all: each with its type, its time and its application, in their order.
pub get_day_events-of_batch :
    (uid : Uid) (start finish next_id : ℕ) (events : List TimedEvent)
    → uid < 2 ^ 32
    → All IsEvent events
    → IsInOrder events
    → All (λ e. is_of uid start finish e ≡ true) events
    → get_day_events uid start finish (unwrap_or (batch_insert_events next_id events []) [])
      ≡ map seen events
unfolding get_day_events
get_day_events-of_batch uid start finish next_id events fits valid ordered mine =
    rw
      (
        batch_insert_events-accepts next_id events [] valid,
        chosen-number_rows uid start finish next_id events fits mine,
        sort_by-number_rows next_id events ordered,
      )
      (seen-number_rows next_id events valid)
