-- ===== src/Platform/Payload.antt =====
-- `parse_event_payload` of crates/daemon/src/platform/linux/manager.rs with the tags of
-- crates/core/src/dbus_constants.rs. A D-Bus value is the part of zvariant's `Value` that the parser
-- tells apart: a variant wrapper, a structure of basic fields, or anything else.
use Prim.Native.String.{String}
use digital_wellbeing.Common.{ℕ, ◌≡◌, refl, ◌==◌, if◌then◌else◌, Option, none, some, List, [], ◌∷◌}
use digital_wellbeing.Platform.{PlatformEvent, PowerEventKind, event_uid}
use digital_wellbeing.Values.AppClass
use digital_wellbeing.Values.AppClass.{AppClass}
use digital_wellbeing.Values.Blocked.{Uid}
use digital_wellbeing.Values.WindowTitle
use digital_wellbeing.Values.WindowTitle.{WindowTitle}

-- A field of a structure: `Value::U32`, `Value::Str` or another value.
pub data Field : Type 0 where
  u32 : ℕ → Field
  str : String → Field
  other : Field

pub data Value : Type 0 where
  variant : Value → Value
  structure : List Field → Value
  scalar : Field → Value

-- EVENT_TAG_* and EVENT_POWER_*.
abbrev tag_focus : ℕ
tag_focus = 0

abbrev tag_unfocus : ℕ
tag_unfocus = 1

abbrev tag_block : ℕ
tag_block = 2

abbrev tag_idle : ℕ
tag_idle = 3

abbrev tag_resume : ℕ
tag_resume = 4

abbrev tag_logout : ℕ
tag_logout = 5

abbrev tag_power : ℕ
tag_power = 6

abbrev tag_locked : ℕ
tag_locked = 7

abbrev power_suspend : ℕ
power_suspend = 0

abbrev power_hibernate : ℕ
power_hibernate = 1

abbrev power_shutdown : ℕ
power_shutdown = 2

-- The Focus and Block arms: two strings, and an application class that is not empty.
parse_window :
    (AppClass → WindowTitle → Uid → PlatformEvent) → Field → Field → Uid → Option PlatformEvent
parse_window make (str app) (str title) uid = elim (AppClass.new app) [
  | some a ↦ some (make a (WindowTitle.new title) uid)
  | none ↦ none
]
parse_window make _ _ uid = none

-- The PowerEvent arm.
parse_power : Field → Uid → Option PlatformEvent
parse_power (u32 p) uid =
    if p == power_hibernate
    then some (PlatformEvent.power_event PowerEventKind.hibernate uid)
    else if p == power_shutdown
    then some (PlatformEvent.power_event PowerEventKind.shutdown uid)
    else if p == power_suspend
    then some (PlatformEvent.power_event PowerEventKind.suspend uid)
    else none
parse_power _ uid = none

-- The match on the tag, over the four fields that the parser reads.
parse_tag : Field → Field → Field → Field → Uid → Option PlatformEvent
unfolding parse_window parse_power
parse_tag (u32 tag) app title power uid =
    if tag == tag_focus
    then parse_window PlatformEvent.focus app title uid
    else if tag == tag_unfocus
    then some (PlatformEvent.unfocus uid)
    else if tag == tag_block
    then parse_window PlatformEvent.block app title uid
    else if tag == tag_idle
    then some (PlatformEvent.idle uid)
    else if tag == tag_resume
    then some (PlatformEvent.resume uid)
    else if tag == tag_logout
    then some (PlatformEvent.log_out uid)
    else if tag == tag_locked
    then some (PlatformEvent.locked uid)
    else if tag == tag_power
    then parse_power power uid
    else none
parse_tag _ app title power uid = none

-- A structure of at least four fields.
parse_fields : List Field → Uid → Option PlatformEvent
unfolding parse_tag
parse_fields (tag ∷ app ∷ title ∷ power ∷ rest) uid = parse_tag tag app title power uid
parse_fields _ uid = none

-- One variant wrapper is taken off first.
abbrev unwrap_variant : Value → Value
unwrap_variant (variant v) = v
unwrap_variant (structure fields) = structure fields
unwrap_variant (scalar f) = scalar f

unfoldable pub parse_event_payload : Value → Uid → Option PlatformEvent
unfolding parse_fields
parse_event_payload val uid = elim (unwrap_variant val) [
  | structure fields ↦ parse_fields fields uid
  | variant _ ↦ none
  | scalar _ ↦ none
]

-- The `(ussu)` structure that the signal's documentation describes for an event.
abbrev pub fields_of : PlatformEvent → List Field
fields_of (PlatformEvent.focus app title _) = u32 0 ∷ str app.text ∷ str title.text ∷ u32 0 ∷ []
fields_of (PlatformEvent.unfocus _) = u32 1 ∷ str "" ∷ str "" ∷ u32 0 ∷ []
fields_of (PlatformEvent.block app title _) = u32 2 ∷ str app.text ∷ str title.text ∷ u32 0 ∷ []
fields_of (PlatformEvent.idle _) = u32 3 ∷ str "" ∷ str "" ∷ u32 0 ∷ []
fields_of (PlatformEvent.resume _) = u32 4 ∷ str "" ∷ str "" ∷ u32 0 ∷ []
fields_of (PlatformEvent.log_out _) = u32 5 ∷ str "" ∷ str "" ∷ u32 0 ∷ []
fields_of (PlatformEvent.locked _) = u32 7 ∷ str "" ∷ str "" ∷ u32 0 ∷ []
fields_of (PlatformEvent.power_event PowerEventKind.suspend _) =
    u32 6 ∷ str "" ∷ str "" ∷ u32 0 ∷ []
fields_of (PlatformEvent.power_event PowerEventKind.hibernate _) =
    u32 6 ∷ str "" ∷ str "" ∷ u32 1 ∷ []
fields_of (PlatformEvent.power_event PowerEventKind.shutdown _) =
    u32 6 ∷ str "" ∷ str "" ∷ u32 2 ∷ []

-- The application class and the title are ones that their constructors can return.
abbrev pub IsValidated : PlatformEvent → Type 0
IsValidated (PlatformEvent.focus app title _) =
    (AppClass.new app.text ≡ some app) × (WindowTitle.new title.text ≡ title)
IsValidated (PlatformEvent.block app title _) =
    (AppClass.new app.text ≡ some app) × (WindowTitle.new title.text ≡ title)
IsValidated _ = Unit

-- The parser recovers every event from its documented structure, in a variant wrapper or bare, for
-- events whose application class and title have been validated.
pub parse_event_payload-fields_of :
    (e : PlatformEvent)
    → IsValidated e
    → (parse_event_payload (variant (structure (fields_of e))) (event_uid e) ≡ some e)
      × (parse_event_payload (structure (fields_of e)) (event_uid e) ≡ some e)
unfolding parse_event_payload event_uid
parse_event_payload-fields_of (PlatformEvent.focus app title uid) v =
    (rw (v.0, parse_window) (rw v.1), rw (v.0, parse_window) (rw v.1))
parse_event_payload-fields_of (PlatformEvent.block app title uid) v =
    (rw (v.0, parse_window) (rw v.1), rw (v.0, parse_window) (rw v.1))
parse_event_payload-fields_of (PlatformEvent.power_event PowerEventKind.suspend uid) v =
    (refl, refl)
parse_event_payload-fields_of (PlatformEvent.power_event PowerEventKind.hibernate uid) v =
    (refl, refl)
parse_event_payload-fields_of (PlatformEvent.power_event PowerEventKind.shutdown uid) v =
    (refl, refl)
parse_event_payload-fields_of _ v = (refl, refl)
