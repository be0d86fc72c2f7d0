-- ===== src/Store/Events/Accepted.antt =====
-- The event rows that the daemon writes, beside the CHECKs of the event table.
use Prim.Native.String.{String}
use digital_wellbeing.Common.{
  ℕ, zero, suc, ◌≤◌, ◌≡◌, refl, Bool, true, leb, le→leb, some, List, [], ◌∷◌, ◌++◌, All, arith,
}
use digital_wellbeing.Platform.{
  TimedEvent, PlatformEvent, PowerEventKind, event_type, event_app_class, event_title,
}
use digital_wellbeing.Store.Events.{
  EventTable, char_count, check_event, row_of_event, number_rows, all_valid, batch_insert_events,
}
use digital_wellbeing.Values.AppClass
use digital_wellbeing.Values.AppClass.{AppClass}
use digital_wellbeing.Values.EventType
use digital_wellbeing.Values.WindowTitle
use digital_wellbeing.Values.WindowTitle.{WindowTitle, take_chars}

char_count-take_chars : (n : ℕ) (s : String) → char_count (take_chars n s) ≤ n
unfolding char_count take_chars
char_count-take_chars zero s = ground arith
char_count-take_chars (suc n) String.[] = ground arith
char_count-take_chars (suc n) (String.◌∷◌ c s) =
    let rest = char_count-take_chars n s in ground (arith, rest)

-- A title as `WindowTitle::new` makes them, and a class as `AppClass::new` makes them.
abbrev pub title_fits : WindowTitle → Bool
title_fits t = leb (char_count t.text) 256

abbrev pub IsClass : AppClass → Type 0
IsClass a = AppClass.new a.text ≡ some a

pub new-title_fits : (s : String) → title_fits (WindowTitle.new s) ≡ true
unfolding WindowTitle.new
new-title_fits s = le→leb (char_count (take_chars 256 s)) 256 (char_count-take_chars 256 s)

-- An event whose texts were validated.
abbrev pub IsEvent : TimedEvent → Type 0
IsEvent timed = elim timed.event as (λ e. Type 0) [
  | PlatformEvent.focus app title uid ↦ IsClass app × (title_fits title ≡ true)
  | PlatformEvent.block app title uid ↦ IsClass app × (title_fits title ≡ true)
  | PlatformEvent.unfocus uid ↦ Unit
  | PlatformEvent.idle uid ↦ Unit
  | PlatformEvent.resume uid ↦ Unit
  | PlatformEvent.log_out uid ↦ Unit
  | PlatformEvent.locked uid ↦ Unit
  | PlatformEvent.power_event kind uid ↦ Unit
]

wide_enough : (t : WindowTitle) → title_fits t ≡ true → leb (char_count t.text) 1024 ≡ true
wide_enough t h = ground arith

check_event-row_of_event :
    (e : PlatformEvent) (at : ℕ)
    → IsEvent (record { event = e; timestamp = at })
    → check_event (row_of_event (record { event = e; timestamp = at })) ≡ true
unfolding check_event row_of_event event_type event_app_class event_title EventType.to_code
check_event-row_of_event (PlatformEvent.focus app title uid) at h = rw (wide_enough title h.1) refl
check_event-row_of_event (PlatformEvent.block app title uid) at h = rw (wide_enough title h.1) refl
check_event-row_of_event (PlatformEvent.unfocus uid) at h = refl
check_event-row_of_event (PlatformEvent.idle uid) at h = refl
check_event-row_of_event (PlatformEvent.resume uid) at h = refl
check_event-row_of_event (PlatformEvent.log_out uid) at h = refl
check_event-row_of_event (PlatformEvent.locked uid) at h = refl
check_event-row_of_event (PlatformEvent.power_event PowerEventKind.suspend uid) at h = refl
check_event-row_of_event (PlatformEvent.power_event PowerEventKind.hibernate uid) at h = refl
check_event-row_of_event (PlatformEvent.power_event PowerEventKind.shutdown uid) at h = refl

all_valid-number_rows :
    (next_id : ℕ) (events : List TimedEvent)
    → All IsEvent events
    → all_valid (number_rows next_id events) ≡ true
unfolding all_valid number_rows
all_valid-number_rows next_id [] h = refl
all_valid-number_rows next_id (e ∷ events) h =
    rw (check_event-row_of_event e.event e.timestamp h.0)
      (all_valid-number_rows (suc next_id) events h.1)

-- A batch of events whose titles and application classes were validated is stored as a whole, after
-- the rows that are there, in the order of the batch: no CHECK of the event table refuses it.
pub batch_insert_events-accepts :
    (next_id : ℕ) (events : List TimedEvent) (t : EventTable)
    → All IsEvent events
    → batch_insert_events next_id events t ≡ some (t ++ number_rows next_id events)
unfolding batch_insert_events
batch_insert_events-accepts next_id events t h = rw (all_valid-number_rows next_id events h) refl
