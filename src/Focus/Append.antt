-- ===== src/Focus/Append.antt =====
-- The focus time of two logs, the one after the other.
use digital_wellbeing.Common.{
  ℕ, ◌+◌, ◌-◌, ◌≤◌, ◌≡◌, Bool, true, false, if◌then◌else◌, List, [], ◌∷◌, ◌++◌, arith,
}
use digital_wellbeing.Focus.{after, focus_ms, InOrder}
use digital_wellbeing.Values.EventType.{EventType}

-- Whether an application has the focus after all the events.
abbrev pub after_all : Bool → List (EventType × ℕ) → Bool
after_all on [] = on
after_all on ((t, at) ∷ events) = after_all (after t on) events

focus_ms-wait :
    (on : Bool) (from day now : ℕ) (log : List (EventType × ℕ))
    → from ≤ day
    → InOrder day log now
    → focus_ms on from log now ≡ (if on then day - from else 0) + focus_ms on day log now
unfolding focus_ms
focus_ms-wait true from day now [] le order = omega arith
focus_ms-wait false from day now [] le order = omega arith
focus_ms-wait true from day now ((t, at) ∷ log) le order = ground arith
focus_ms-wait false from day now ((t, at) ∷ log) le order = ground arith

InOrder-le : (from day : ℕ) (log : List (EventType × ℕ)) → InOrder from log day → from ≤ day
InOrder-le from day [] h = h
InOrder-le from day ((t, at) ∷ log) h = omega (arith, InOrder-le at day log h.1)

pub focus_ms-append :
    (on : Bool) (from day now : ℕ) (before later : List (EventType × ℕ))
    → InOrder from before day
    → InOrder day later now
    → focus_ms on from (before ++ later) now
      ≡ focus_ms on from before day + focus_ms (after_all on before) day later now
unfolding focus_ms
focus_ms-append on from day now [] later order order' =
    focus_ms-wait on from day now later order order'
focus_ms-append on from day now ((t, at) ∷ before) later order order' =
    let rest = focus_ms-append (after t on) at day now before later order.1 order' in omega arith
