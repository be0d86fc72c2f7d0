-- ===== src/Platform.antt =====
-- crates/daemon/src/platform/mod.rs: the platform events, the daemon's only input.
pub mod Payload
pub mod Registry
use digital_wellbeing.Common.{Bool, Option, none, some, ℕ}
use digital_wellbeing.Values.AppClass.{AppClass}
use digital_wellbeing.Values.Blocked.{Uid}
use digital_wellbeing.Values.EventType.{EventType, is_close}
use digital_wellbeing.Values.WindowTitle.{WindowTitle}

pub data PowerEventKind : Type 0 where
  suspend hibernate shutdown : PowerEventKind

pub data PlatformEvent : Type 0 where
  focus : AppClass → WindowTitle → Uid → PlatformEvent
  unfocus : Uid → PlatformEvent
  block : AppClass → WindowTitle → Uid → PlatformEvent
  idle : Uid → PlatformEvent
  resume : Uid → PlatformEvent
  log_out : Uid → PlatformEvent
  locked : Uid → PlatformEvent
  power_event : PowerEventKind → Uid → PlatformEvent

unfoldable pub event_type : PlatformEvent → EventType
event_type (PlatformEvent.focus _ _ _) = EventType.focus
event_type (PlatformEvent.block _ _ _) = EventType.block
event_type (PlatformEvent.unfocus _) = EventType.unfocus
event_type (PlatformEvent.idle _) = EventType.idle
event_type (PlatformEvent.resume _) = EventType.resume
event_type (PlatformEvent.log_out _) = EventType.logged_out
event_type (PlatformEvent.locked _) = EventType.locked
event_type (PlatformEvent.power_event PowerEventKind.suspend _) = EventType.suspend
event_type (PlatformEvent.power_event PowerEventKind.hibernate _) = EventType.suspend
event_type (PlatformEvent.power_event PowerEventKind.shutdown _) = EventType.shut_down

unfoldable pub is_close_event : PlatformEvent → Bool
unfolding event_type is_close
is_close_event e = is_close (event_type e)

-- `PlatformEvent::uid`
unfoldable pub event_uid : PlatformEvent → Uid
event_uid (PlatformEvent.focus _ _ uid) = uid
event_uid (PlatformEvent.unfocus uid) = uid
event_uid (PlatformEvent.block _ _ uid) = uid
event_uid (PlatformEvent.idle uid) = uid
event_uid (PlatformEvent.resume uid) = uid
event_uid (PlatformEvent.log_out uid) = uid
event_uid (PlatformEvent.locked uid) = uid
event_uid (PlatformEvent.power_event _ uid) = uid

-- `PlatformEvent::app_class`
unfoldable pub event_app_class : PlatformEvent → Option AppClass
event_app_class (PlatformEvent.focus app _ _) = some app
event_app_class (PlatformEvent.block app _ _) = some app
event_app_class _ = none

-- `PlatformEvent::title`
unfoldable pub event_title : PlatformEvent → Option WindowTitle
event_title (PlatformEvent.focus _ title _) = some title
event_title (PlatformEvent.block _ title _) = some title
event_title _ = none

-- `TimedEvent` of crates/daemon/src/blocking/domain/timed_event.rs; the timestamp in milliseconds.
pub record TimedEvent : Type 0 where
  pub event : PlatformEvent
  pub timestamp : ℕ
