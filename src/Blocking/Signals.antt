-- ===== src/Blocking/Signals.antt =====
-- The signals of crates/daemon/src/signal.rs and the blocked-apps map of
-- crates/daemon/src/blocking/core/mod.rs: what the actor does to the map, and what it tells. The
-- channel's contents are a list with the newest signal first.
pub mod Mirror
pub mod Reset
use digital_wellbeing.Common.{
  ℕ, Bool, true, false, if◌then◌else◌, Option, none, some, is_some, unwrap_or, List, [], ◌∷◌,
}
use Prim.Native.String.{String}
use digital_wellbeing.Common.Eq.{nat_eq}
use digital_wellbeing.Common.Map.{get, insert, remove, retain}
use digital_wellbeing.Values.AppClass.{AppClass, app_class_eq}
use digital_wellbeing.Values.Blocked.{Uid, BlockedAppEntry}
use digital_wellbeing.Values.BlockReason.{BlockReason}

pub data DaemonSignal : Type 0 where
  app_blocked : Uid → AppClass → Bool → BlockReason → DaemonSignal
  domain_blocked : Uid → String → Bool → BlockReason → DaemonSignal
  policy_changed : Uid → DaemonSignal
  usage_updated : Uid → DaemonSignal

abbrev pub Apps : Type 0
Apps = List (AppClass × BlockedAppEntry)

abbrev pub BlockedApps : Type 0
BlockedApps = List (Uid × Apps)

-- `entry(uid).or_default()`, as it is read.
abbrev pub apps_of : Uid → BlockedApps → Apps
apps_of uid blocks = unwrap_or (get nat_eq uid blocks) []

-- The map and the channel, which the actor changes together.
pub record Told : Type 0 where
  pub blocked_apps : BlockedApps
  pub signals : List DaemonSignal

-- What the outcome of an evaluation does to one user's entries.
unfoldable pub change_apps : AppClass → Option BlockedAppEntry → Apps → Apps
change_apps app (some entry) apps = insert app_class_eq app entry apps
change_apps app none apps = remove app_class_eq app apps

-- What is told of it: `insert(..).is_none()` and `remove(..).is_some()` decide by the old entries.
unfoldable pub tell :
    Uid → AppClass → Option BlockedAppEntry → Apps → List DaemonSignal → List DaemonSignal
tell uid app (some entry) apps signals =
    if is_some (get app_class_eq app apps)
    then signals
    else DaemonSignal.app_blocked uid app true entry.reason ∷ signals
tell uid app none apps signals =
    if is_some (get app_class_eq app apps)
    then DaemonSignal.app_blocked uid app false BlockReason.app_block ∷ signals
    else signals

-- The `match` of `evaluate_and_apply`, and of `handle_policy_mutation`, on the evaluation's outcome.
unfoldable pub apply_outcome : Uid → AppClass → Option BlockedAppEntry → Told → Told
unfolding change_apps tell
apply_outcome uid app outcome t = record {
  blocked_apps =
      insert nat_eq uid (change_apps app outcome (apps_of uid t.blocked_apps)) t.blocked_apps;
  signals = tell uid app outcome (apps_of uid t.blocked_apps) t.signals;
}

-- `matches!(entry.reason, AppBlock | CategoryBlock)`
unfoldable pub is_permanent : BlockReason → Bool
is_permanent BlockReason.app_block = true
is_permanent BlockReason.category_block = true
is_permanent BlockReason.app_time_limit = false
is_permanent BlockReason.category_time_limit = false

abbrev pub keeps : BlockedAppEntry → Bool
keeps entry = is_permanent entry.reason

-- The signals that `retain` sends for one user's apps.
unfoldable pub reset_signals : Uid → Apps → List DaemonSignal → List DaemonSignal
unfolding is_permanent
reset_signals uid [] signals = signals
reset_signals uid ((app, entry) ∷ apps) signals = reset_signals uid apps (
    if keeps entry
    then signals
    else DaemonSignal.app_blocked uid entry.app_class false entry.reason ∷ signals)

-- The loop of `midnight_reset` over the users.
reset_blocks : BlockedApps → BlockedApps
unfolding is_permanent
reset_blocks [] = []
reset_blocks ((uid, apps) ∷ blocks) = (uid, retain app_class_eq keeps apps) ∷ reset_blocks blocks

reset_all : BlockedApps → List DaemonSignal → List DaemonSignal
unfolding reset_signals
reset_all [] signals = signals
reset_all ((uid, apps) ∷ blocks) signals = reset_all blocks (reset_signals uid apps signals)

unfoldable pub midnight_reset : Told → Told
unfolding reset_blocks reset_all
midnight_reset t = record {
  blocked_apps = reset_blocks t.blocked_apps;
  signals = reset_all t.blocked_apps t.signals;
}
