-- ===== src/Examples/Client.antt =====
-- A daemon that only the session bus can start.
use digital_wellbeing.Common.{◌≡◌, refl, Bool, true, false, none, some, is_some}
use digital_wellbeing.Client.{
  BusType, ConnectionStatus, Buses, create_proxy, re_resolve, select_daemon_bus, presence_event,
  DaemonPresenceEvent,
}
use digital_wellbeing.Client.Reach.{IsBest, attempts, first_proxy, create_proxy-reaches}

abbrev on_session : BusType → Bool
on_session BusType.system = false
on_session BusType.session = true

abbrev startable : Buses Unit
startable = record {
  has_owner = λ b. false;
  starts = on_session;
  owner_then = on_session;
  daemon_proxy = λ b. none;
  selected_proxy = λ b. some tt;
}

starts_there : select_daemon_bus startable ≡ some BusType.session
unfolding select_daemon_bus
starts_there = refl

moves : presence_event BusType.session ":1.4" "" ≡ some DaemonPresenceEvent.disappeared
unfolding presence_event
moves = refl

create_proxy-reaches_example :
    let status = ConnectionStatus.connected BusType.system in
    (best : BusType) × IsBest startable best
    × (create_proxy startable status ≡ first_proxy status (attempts startable status best))
    × (is_some (create_proxy startable status).0 ≡ true)
    × (re_resolve startable ≡ (true, ConnectionStatus.connected best))
create_proxy-reaches_example =
    create_proxy-reaches startable (ConnectionStatus.connected BusType.system) refl (λ b. refl)
