-- ===== src/Blocking/Actor.antt =====
-- `EnforcerActor` of crates/daemon/src/blocking/core/mod.rs: its state, and what it asks of the
-- database, the clocks and the compositor plugins while it handles one event. Each answer that can
-- fail is an option. The concurrent evaluation of several users is one sequence.
pub mod Evaluate
pub mod Flush
pub mod Handlers
pub mod Consistency
pub mod Listening
pub mod Delivery
use Prim.Native.String.{String}
use digital_wellbeing.Common.{ℕ, Bool, Option, none, List, []}
use digital_wellbeing.Blocking.Buffer.{EventBuffer, with_max_capacity, default_capacity}
use digital_wellbeing.Blocking.Signals.{Told, BlockedApps, DaemonSignal}
use digital_wellbeing.Platform.{PlatformEvent, TimedEvent}
use digital_wellbeing.Platform.Registry.{PluginRegistry}
use digital_wellbeing.Policy.{Policy}
use digital_wellbeing.Values.AppClass.{AppClass}
use digital_wellbeing.Values.Blocked.{Uid}
use digital_wellbeing.Values.DateTime.{DateTime}

abbrev pub AppCache : Type 0
AppCache = List (AppClass × ℕ)

-- The answers of the repositories, `self.clock.now()` by the number of the reading,
-- `chrono::Utc::now()` when a user's application is evaluated and when the date is checked, and
-- `ManagerClient::current_focus`. `flush_with_deltas` says whether the transaction was committed,
-- and returns the application ids that it put into the cache either way.
pub record Services (Proxy : Type 0) : Type 0 where
  pub ensure_app : AppClass → Option ℕ
  pub resolve_category_discriminants : AppClass → Uid → Option (List ℕ)
  pub resolve_for_app : ℕ → List ℕ → Uid → ℕ → ℕ → Option (List Policy)
  pub get_today_usage : ℕ → Uid → String → Option ℕ
  pub uids_with_open_intervals : Option (List Uid)
  pub flush_with_deltas : List TimedEvent → List Uid → DateTime → AppCache → Bool × AppCache
  pub format_date : DateTime → String
  pub clock : ℕ → DateTime
  pub wall_clock : Uid → DateTime
  pub wall_date : ℕ
  pub current_focus : Uid → Proxy → Option PlatformEvent

-- `persisted` is what flushes have committed to the event log, oldest first; `notified` are the
-- applications of the desktop notifications, `acks` counts the acknowledgements sent.
pub record Actor (Proxy : Type 0) : Type 0 where
  pub told : Told
  pub event_buffer : EventBuffer
  pub last_midnight_reset : Option ℕ
  pub app_cache : AppCache
  pub registry : PluginRegistry Proxy
  pub persisted : List TimedEvent
  pub notified : List AppClass
  pub acks : ℕ

unfoldable pub new : {Proxy : Type 0} → PluginRegistry Proxy → Actor Proxy
unfolding with_max_capacity
new registry = record {
  told = record { blocked_apps = []; signals = [] };
  event_buffer = with_max_capacity default_capacity;
  last_midnight_reset = none;
  app_cache = [];
  registry = registry;
  persisted = [];
  notified = [];
  acks = 0;
}
