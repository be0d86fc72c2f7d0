-- ===== src/Examples/Blocking.antt =====
-- The event buffer, the blocked-apps map and the actor on short histories.
use digital_wellbeing.Common.{
  ℕ, zero, suc, ◌≡◌, refl, Bool, true, false, some, arith, List, [], ◌∷◌, ◌++◌,
}
use digital_wellbeing.Blocking.Actor.{Services, Actor, new}
use digital_wellbeing.Blocking.Actor.Delivery.{on_record, timed, IsShort, handle_event-on_record}
use digital_wellbeing.Blocking.Actor.Handlers.{Input, InternalEvent, handle_event, run}
use digital_wellbeing.Blocking.Actor.Listening.{run-Mirrors}
use digital_wellbeing.Blocking.Signals.{Told, apply_outcome}
use digital_wellbeing.Blocking.Signals.Mirror.{Mirrors, apply_outcome-Mirrors, shown, is_blocked}
use digital_wellbeing.Platform.{PlatformEvent, TimedEvent}
use digital_wellbeing.Platform.Registry
use digital_wellbeing.Platform.Registry.{PluginRegistry}
use digital_wellbeing.Policy.{Policy, Effect, PolicyTarget}
use digital_wellbeing.Values.AppClass.{AppClass}
use digital_wellbeing.Values.Blocked.{BlockedAppEntry}
use digital_wellbeing.Values.BlockReason.{BlockReason}
use digital_wellbeing.Values.DateTime.{DateTime}

abbrev firefox : AppClass
firefox = record { text = "firefox" }

abbrev focus_firefox : PlatformEvent
focus_firefox = PlatformEvent.focus firefox (record { text = "home" }) 1000

abbrev ten : DateTime
ten = record { millis = 36000000; date = 0; weekday = 4; hour = 10; minute = 0 }

abbrev block_firefox : Policy
block_firefox = record {
  id = 1;
  name = "focus time";
  effect = Effect.block;
  target = PolicyTarget.app firefox;
  priority = 100;
  schedule = [];
  time_limit_minutes = 0;
  user_id = 1000;
  created_by = 1000;
}

-- A database that answers every query, with one policy, and commits or not.
abbrev answers : Bool → Services ℕ
answers commits = record {
  ensure_app = λ app. some 1;
  resolve_category_discriminants = λ app uid. some [];
  resolve_for_app = λ id categories uid day minute. some (block_firefox ∷ []);
  get_today_usage = λ id uid day. some 0;
  uids_with_open_intervals = some (1000 ∷ []);
  flush_with_deltas = λ events us now cache. (commits, cache);
  format_date = λ t. "1970-01-01";
  clock = λ n. ten;
  wall_clock = λ uid. ten;
  wall_date = 0;
  current_focus = λ uid proxy. some focus_firefox;
}

abbrev start : Actor ℕ
start = new Registry.new

start-Mirrors : Mirrors start.told
unfolding new shown is_blocked
start-Mirrors = record { users = tt; apps = tt; agree = λ uid app. refl }

abbrev entry : BlockReason → BlockedAppEntry
entry reason = record { app_class = firefox; policy_id = 1; reason = reason; blocked_since = 0 }

abbrev limited : Told
limited = apply_outcome 1000 firefox (some (entry BlockReason.app_time_limit)) start.told

limited-Mirrors : Mirrors limited
limited-Mirrors =
    apply_outcome-Mirrors 1000 firefox (some (entry BlockReason.app_time_limit)) start.told refl
      start-Mirrors

abbrev morning : List (Services ℕ × Input)
morning =
    (answers true, Input.platform focus_firefox)
    ∷ (answers true, Input.internal (InternalEvent.flush true))
    ∷ (answers false, Input.internal (InternalEvent.policy_changed 1000))
    ∷ []

run-Mirrors_example : Mirrors (run morning start).told
run-Mirrors_example = run-Mirrors morning start start-Mirrors

handle_event-on_record_example :
    (on_record (handle_event (answers true) focus_firefox start)
      ≡ on_record start ++ timed (answers true) focus_firefox ∷ [])
    × IsShort (handle_event (answers true) focus_firefox start)
unfolding new
handle_event-on_record_example =
    handle_event-on_record (answers true) focus_firefox start
      (record { open_uids = 1000 ∷ []; lookup = refl; commits = λ events us now cache. refl })
      (record { short = omega arith; room = omega arith })

abbrev click : ℕ → TimedEvent
click t = record { event = PlatformEvent.resume 1000; timestamp = t }

abbrev clicks : ℕ → List TimedEvent
clicks zero = []
clicks (suc n) = click n ∷ clicks n

-- An actor with 99 events in its buffer, and one that was committed before.
abbrev nearly_full : Actor ℕ
nearly_full = record start {
  event_buffer = record start.event_buffer { events = clicks 99 };
  persisted = click 0 ∷ [];
}
