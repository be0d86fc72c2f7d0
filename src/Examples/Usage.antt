-- ===== src/Examples/Usage.antt =====
-- Daily usage on two users' events, one user with a focus left open by the last persisted event.
use digital_wellbeing.Common.{ℕ, ◌≡◌, refl, Option, some, none, List, [], ◌∷◌, arith}
use digital_wellbeing.Platform.{PlatformEvent, TimedEvent}
use digital_wellbeing.Usage.{OpenFocus}
use digital_wellbeing.Usage.Deltas.{accumulate}
use digital_wellbeing.Usage.FocusTime.{focused, spent, spent_by_title, accumulate-focus_ms}
use digital_wellbeing.Usage.Order.{of_uid-Within}
use digital_wellbeing.Usage.Walk.{EventRow}
use digital_wellbeing.Values.AppClass.{AppClass}
use digital_wellbeing.Values.Blocked.{Uid}
use digital_wellbeing.Values.WindowTitle.{WindowTitle}

abbrev firefox : AppClass
firefox = record { text = "org.mozilla.Firefox" }

abbrev win : WindowTitle
win = record { text = "win" }

abbrev ensure : AppClass → Option ℕ
ensure app = some 7

abbrev last_row : Uid → Option EventRow
last_row u = some (record {
  event_type = 0;
  user_id = u;
  timestamp = 500;
  app_class = some "org.gimp";
  title = none;
})

abbrev log : List TimedEvent
log =
    record { event = PlatformEvent.unfocus 1000; timestamp = 4000 }
    ∷ record { event = PlatformEvent.focus firefox win 1000; timestamp = 1000 }
    ∷ record { event = PlatformEvent.resume 1001; timestamp = 2000 }
    ∷ []

accumulate-focus_ms_example :
    let d = accumulate ensure last_row 5000 log (1000 ∷ 1001 ∷ 1002 ∷ []) [] in
    (spent 1000 d ≡ focused ensure last_row 5000 log 1000)
    × (spent_by_title 1000 d ≡ focused ensure last_row 5000 log 1000)
accumulate-focus_ms_example =
    accumulate-focus_ms ensure last_row 5000 log 1000 (1000 ∷ 1001 ∷ 1002 ∷ []) []
      (λ v. (
        omega arith,
        of_uid-Within v 500 5000 log (
          (omega arith, omega arith),
          ((omega arith, omega arith), ((omega arith, omega arith), tt)),
        ),
      ))
      refl

abbrev opened : OpenFocus
opened = record { ts_ms = 86399000; app_class = firefox; app_id = 7; title = win }
