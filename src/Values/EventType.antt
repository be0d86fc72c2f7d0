-- ===== src/Values/EventType.antt =====
-- crates/core/src/event_types.rs: the event types, their integer codes and which of them close a
-- focus interval. A decoder takes any number and refuses the ones that name no variant.
use digital_wellbeing.Common.{
  ℕ, ◌==◌, if◌then◌else◌, Option, none, some, Bool, List, [], ◌∷◌, any, arith, ◌≡◌,
}

pub data EventType : Type 0 where
  focus unfocus idle resume suspend shut_down locked logged_out block : EventType

unfoldable pub to_code : EventType → ℕ
to_code focus = 0
to_code unfocus = 1
to_code idle = 2
to_code resume = 3
to_code suspend = 4
to_code shut_down = 5
to_code locked = 6
to_code logged_out = 7
to_code block = 8

unfoldable pub try_from : ℕ → Option EventType
try_from v =
    if v == 0
    then some focus
    else if v == 1
    then some unfocus
    else if v == 2
    then some idle
    else if v == 3
    then some resume
    else if v == 4
    then some suspend
    else if v == 5
    then some shut_down
    else if v == 6
    then some locked
    else if v == 7
    then some logged_out
    else if v == 8
    then some block
    else none

-- `PartialEq` of the enumeration, by its discriminants.
unfoldable pub same : EventType → EventType → Bool
unfolding to_code
same a b = to_code a == to_code b

unfoldable pub close_types : List EventType
close_types = unfocus ∷ idle ∷ suspend ∷ shut_down ∷ locked ∷ logged_out ∷ block ∷ []

unfoldable pub ignored_by_measurement : List EventType
ignored_by_measurement = resume ∷ []

unfoldable pub is_close : EventType → Bool
unfolding same close_types
is_close t = any (λ c. same c t) close_types

unfoldable pub is_ignored_by_measurement : EventType → Bool
unfolding same ignored_by_measurement
is_ignored_by_measurement t = any (λ c. same c t) ignored_by_measurement

-- Every code decodes to the type that it encodes.
pub try_from-to_code : (t : EventType) → try_from (to_code t) ≡ some t
unfolding try_from to_code
try_from-to_code t = ground arith

-- A number that decodes to an event type is that type's code.
pub to_code_of_try_from : (v : ℕ) (t : EventType) → try_from v ≡ some t → to_code t ≡ v
unfolding try_from to_code
to_code_of_try_from v t h = ground arith
