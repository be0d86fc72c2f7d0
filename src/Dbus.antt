-- ===== src/Dbus.antt =====
-- crates/daemon/src/dbus: the state of `DaemonInterface` (controller.rs), the authentication of callers
-- (core.rs) and the helpers of methods/policy_handlers.rs and methods/query_handlers.rs. The bus says who
-- a connection belongs to; what a call says of its sender is part of the call.
pub mod Methods
pub mod Reports
pub mod Requests
pub mod Ownership
pub mod Announce
pub mod Views
use Prim.Native.String.{String}
use digital_wellbeing.Common.{
  ℕ, ◌≡◌, refl, ◌⊎◌, inl, inr, Bool, true, false, not, ◌&&◌, ◌==◌, if◌then◌else◌, Option, none,
  some, unwrap_or, List, [], ◌∷◌, ◌++◌, map,
}
use digital_wellbeing.Common.Eq.{nat_eq, string_eq}
use digital_wellbeing.Common.Map.{get, insert}
use digital_wellbeing.Blocking.Signals.{BlockedApps}
use digital_wellbeing.Platform.Registry.{PluginInstanceId, PluginRegistry}
use digital_wellbeing.Policy.Repo.{get_owner}
use digital_wellbeing.Store.{Tables, as_i32}
use digital_wellbeing.Values.AppClass.{AppClass}
use digital_wellbeing.Values.Blocked.{Uid, BlockedAppEntry}
use digital_wellbeing.Values.Category.{Category}

-- The errors of `zbus::fdo::Error` that the daemon answers with.
pub data FdoError : Type 0 where
  failed access_denied invalid_args : String → FdoError

pub data Result (A : Type 0) : Type 0 where
  ok : A → Result A
  err : FdoError → Result A

abbrev pub internal : FdoError
internal = FdoError.failed "internal error"

-- `query_handlers::map_err`, on a repository's answer.
abbrev pub or_internal : {A : Type 0} → Option A → Result A
or_internal none = Result.err internal
or_internal (some a) = Result.ok a

-- `?`
abbrev pub and_then : {A B : Type 0} → Result A → (A → Result B) → Result B
and_then (Result.ok a) f = f a
and_then (Result.err e) f = Result.err e

pub Result-cases :
    {A : Type 0} (r : Result A)
    → ((e : FdoError) × (r ≡ Result.err e)) ⊎ ((a : A) × (r ≡ Result.ok a))
Result-cases (Result.err e) = inl (e, refl)
Result-cases (Result.ok a) = inr (a, refl)

-- The sender of a call, what the bus answers to `GetConnectionUnixUser`, whether the sender
-- is a destination for a proxy, and the proxy of its object, where it can be built.
pub record Call (Proxy : Type 0) : Type 0 where
  pub sender : Option String
  pub unix_user : String → Option Uid
  pub accepts : String → Bool
  pub build_proxy : String → Option Proxy

unfoldable pub authenticate : {Proxy : Type 0} → Call Proxy → Result Uid
authenticate call = elim call.sender [
  | none ↦ Result.err internal
  | some sender ↦ or_internal (call.unix_user sender)
]

unfoldable pub require_root : Uid → Result Unit
require_root caller =
    if caller == 0 then Result.ok tt else Result.err (FdoError.access_denied "access denied")

-- `BridgeRegistry`
pub record BridgeRegistry : Type 0 where
  pub bridges : List (PluginInstanceId × Uid)

unfoldable pub no_bridges : BridgeRegistry
no_bridges = record { bridges = [] }

unfoldable pub register_in : PluginInstanceId → Uid → BridgeRegistry → BridgeRegistry
register_in instance_id uid r = record r { bridges = insert string_eq instance_id uid r.bridges }

-- The database, the maps shared with the rest of the daemon, the users of the `PolicyChanged` events
-- sent to the enforcer and of the signals sent on the bus, and the plugins with a forwarding task;
-- the lists grow at the front.
pub record DaemonInterface (Proxy : Type 0) : Type 0 where
  pub tables : Tables
  pub registry : PluginRegistry Proxy
  pub bridge_registry : BridgeRegistry
  pub blocked_apps : BlockedApps
  pub sent : List Uid
  pub signalled : List Uid
  pub forwarders : List PluginInstanceId

-- `DaemonInterface::new`
unfoldable pub new :
    {Proxy : Type 0} → Tables → PluginRegistry Proxy → BlockedApps → DaemonInterface Proxy
unfolding no_bridges
new tables registry blocked_apps = record {
  tables = tables;
  registry = registry;
  bridge_registry = no_bridges;
  blocked_apps = blocked_apps;
  sent = [];
  signalled = [];
  forwarders = [];
}

-- `verify_policy_owner`
unfoldable pub verify_policy_owner : ℕ → Uid → Tables → Result Uid
unfolding get_owner
verify_policy_owner policy_id caller t = elim (get_owner policy_id t) [
  | none ↦ Result.err internal
  | some owner_id ↦
      if not (caller == 0) && not (owner_id == as_i32 caller)
      then Result.err (FdoError.access_denied "access denied")
      else Result.ok owner_id
]

-- The entries of every user in turn.
unfoldable pub all_entries : BlockedApps → List BlockedAppEntry
all_entries [] = []
all_entries ((uid, apps) ∷ blocks) = map (λ e. e.1) apps ++ all_entries blocks

unfoldable pub blocked_entries_for : BlockedApps → Option Uid → List BlockedAppEntry
unfolding all_entries
blocked_entries_for blocks none = all_entries blocks
blocked_entries_for blocks (some uid) = map (λ e. e.1) (unwrap_or (get nat_eq uid blocks) [])
