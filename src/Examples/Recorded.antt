-- ===== src/Examples/Recorded.antt =====
-- The client and the daemon on the same events of one user among several.
use digital_wellbeing.Common.{ℕ, ◌≡◌, refl, Option, none, some, List, [], ◌∷◌, arith}
use digital_wellbeing.Platform.{PlatformEvent, TimedEvent, event_type, event_uid}
use digital_wellbeing.Timeline.{DayEventRow, build_day_timeline}
use digital_wellbeing.Timeline.Agreement.{row_moments}
use digital_wellbeing.Timeline.Recorded.{build_day_timeline-accumulate}
use digital_wellbeing.Usage.Accounting.{moments}
use digital_wellbeing.Usage.Deltas.{accumulate, sort_by_time, of_uid}
use digital_wellbeing.Usage.FocusTime.{spent}
use digital_wellbeing.Usage.Order.{of_uid-Within}
use digital_wellbeing.Usage.Walk.{EventRow}
use digital_wellbeing.Values.AppClass.{AppClass}
use digital_wellbeing.Values.Blocked.{Uid}
use digital_wellbeing.Values.EventType.{EventType}
use digital_wellbeing.Values.WindowTitle.{WindowTitle}

abbrev editor : AppClass
editor = record { text = "org.kate" }

abbrev title : WindowTitle
title = record { text = "notes" }

abbrev registered : AppClass → Option ℕ
registered app = some 3

abbrev nothing_before : Uid → Option EventRow
nothing_before u = none

abbrev log : List TimedEvent
log =
    record { event = PlatformEvent.unfocus 1000; timestamp = 4000 }
    ∷ record { event = PlatformEvent.focus editor title 1000; timestamp = 1000 }
    ∷ record { event = PlatformEvent.focus editor title 1001; timestamp = 2000 }
    ∷ []

abbrev rows : List DayEventRow
rows =
    record { event_type = EventType.focus; timestamp = 1000; app_class = editor }
    ∷ record { event_type = EventType.unfocus; timestamp = 4000; app_class = editor }
    ∷ []

same_moments : row_moments rows ≡ moments (sort_by_time (of_uid 1000 log))
unfolding sort_by_time of_uid event_type event_uid
same_moments = refl

build_day_timeline-accumulate_example :
    (build_day_timeline rows 0 [] 5000 none).total_focus_millis
    ≡ spent 1000 (accumulate registered nothing_before 5000 log (1000 ∷ 1001 ∷ []) [])
build_day_timeline-accumulate_example =
    build_day_timeline-accumulate registered nothing_before 5000 log 1000 (1000 ∷ 1001 ∷ []) [] rows
      0 []
      (λ v. (
        omega arith,
        of_uid-Within v 0 5000 log (
          (omega arith, omega arith),
          ((omega arith, omega arith), ((omega arith, omega arith), tt)),
        ),
      ))
      refl refl same_moments (omega arith, (omega arith, omega arith))
