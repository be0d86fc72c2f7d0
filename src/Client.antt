-- ===== src/Client.antt =====
-- crates/gui/src/dbus/bus.rs: how the client finds the daemon on the two buses. What the buses answer is an
-- argument; a proxy that cannot be created in five seconds counts as one that cannot be created.
pub mod Reach
use digital_wellbeing.Common.{
  ℕ, Bool, true, false, not, ◌&&◌, if◌then◌else◌, Option, none, some, is_some,
}
use Prim.Native.String.{String}

pub data BusType : Type 0 where
  system session : BusType

-- The daemon has appeared on a bus, or gone.
pub data DaemonPresenceEvent : Type 0 where
  appeared : BusType → DaemonPresenceEvent
  disappeared : DaemonPresenceEvent

-- One NameOwnerChanged signal of the daemon's name on a bus, by the old and the new owner.
unfoldable pub presence_event : BusType → String → String → Option DaemonPresenceEvent
presence_event bus String.[] String.[] = none
presence_event bus (String.◌∷◌ c s) String.[] = some DaemonPresenceEvent.disappeared
presence_event bus old_owner (String.◌∷◌ c s) = some (DaemonPresenceEvent.appeared bus)

pub data ConnectionStatus : Type 0 where
  connected : BusType → ConnectionStatus
  disconnected : ConnectionStatus

unfoldable pub is_connected : ConnectionStatus → Bool
is_connected (ConnectionStatus.connected _) = true
is_connected ConnectionStatus.disconnected = false

unfoldable pub bus_type : ConnectionStatus → Option BusType
bus_type (ConnectionStatus.connected b) = some b
bus_type ConnectionStatus.disconnected = none

-- Whether the daemon's name has an owner, whether the bus starts the daemon, whether the name has an
-- owner then, the proxies of the active bus and of the other one, and the proxy of a bus that was
-- selected from scratch.
pub record Buses (Proxy : Type 0) : Type 0 where
  pub has_owner : BusType → Bool
  pub starts : BusType → Bool
  pub owner_then : BusType → Bool
  pub daemon_proxy : BusType → Option Proxy
  pub selected_proxy : BusType → Option Proxy

module _ {Proxy : Type 0} (buses : Buses Proxy) where
  unfoldable pub select_daemon_bus : Option BusType
  select_daemon_bus =
      if buses.has_owner BusType.system
      then some BusType.system
      else if buses.has_owner BusType.session
      then some BusType.session
      else if buses.starts BusType.system && buses.owner_then BusType.system
      then some BusType.system
      else if buses.starts BusType.session && buses.owner_then BusType.session
      then some BusType.session
      else none

  abbrev status_of : Option BusType → ConnectionStatus
  status_of (some b) = ConnectionStatus.connected b
  status_of none = ConnectionStatus.disconnected

  -- `BusManager::connect`
  unfoldable pub connect : ConnectionStatus
  unfolding select_daemon_bus
  connect = status_of select_daemon_bus

  abbrev pub other_bus : BusType → BusType
  other_bus BusType.system = BusType.session
  other_bus BusType.session = BusType.system

  -- The last resort, on both buses from scratch.
  unfoldable pub from_scratch : ConnectionStatus → Option Proxy × ConnectionStatus
  unfolding select_daemon_bus
  from_scratch status = elim select_daemon_bus [
    | none ↦ (none, status)
    | some b ↦ elim (buses.selected_proxy b) [
      | some proxy ↦ (some proxy, ConnectionStatus.connected b)
      | none ↦ (none, status)
    ]
  ]

  unfoldable pub create_proxy : ConnectionStatus → Option Proxy × ConnectionStatus
  unfolding from_scratch
  create_proxy ConnectionStatus.disconnected = from_scratch ConnectionStatus.disconnected
  create_proxy (ConnectionStatus.connected b) = elim (buses.daemon_proxy b) [
    | some proxy ↦ (some proxy, ConnectionStatus.connected b)
    | none ↦ elim (buses.daemon_proxy (other_bus b)) [
      | some proxy ↦ (some proxy, ConnectionStatus.connected b)
      | none ↦ from_scratch (ConnectionStatus.connected b)
    ]
  ]

  unfoldable pub re_resolve : Bool × ConnectionStatus
  unfolding select_daemon_bus
  re_resolve = elim select_daemon_bus [
    | some b ↦ (true, ConnectionStatus.connected b)
    | none ↦ (false, ConnectionStatus.disconnected)
  ]

  -- The bus of the active connection, while the lock is free.
  unfoldable pub try_proxy_conn : ConnectionStatus → BusType
  try_proxy_conn (ConnectionStatus.connected b) = b
  try_proxy_conn ConnectionStatus.disconnected = BusType.system
