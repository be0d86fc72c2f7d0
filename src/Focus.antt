-- ===== src/Focus.antt =====
-- The abstract meaning of the event log: at every moment an application has the focus or none has,
-- and the focus time is the length of the moments when one has. Neither the daemon nor the client
-- computes it so; both are compared with it.
pub mod Append
use digital_wellbeing.Common.{ℕ, ◌+◌, ◌-◌, ◌≤◌, Bool, true, false, if◌then◌else◌, List, [], ◌∷◌}
use digital_wellbeing.Values.EventType.{EventType}

-- Whether an application has the focus after an event: a focus event gives it, a close event takes
-- it away, and any other leaves it.
abbrev pub after : EventType → Bool → Bool
after EventType.focus was = true
after EventType.unfocus was = false
after EventType.idle was = false
after EventType.resume was = was
after EventType.suspend was = false
after EventType.shut_down was = false
after EventType.locked was = false
after EventType.logged_out was = false
after EventType.block was = false

-- The focus time from a moment on, through the events, up to now: one span for each pair of
-- neighbouring moments, counted if an application has the focus then.
unfoldable pub focus_ms : Bool → ℕ → List (EventType × ℕ) → ℕ → ℕ
focus_ms on from [] now = if on then now - from else 0
focus_ms on from ((t, at) ∷ events) now =
    (if on then at - from else 0) + focus_ms (after t on) at events now

-- The events are in the order of their times, from a moment on and up to now.
abbrev pub InOrder : ℕ → List (EventType × ℕ) → ℕ → Type 0
InOrder from [] now = from ≤ now
InOrder from ((t, at) ∷ events) now = (from ≤ at) × InOrder at events now
