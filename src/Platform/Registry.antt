-- ===== src/Platform/Registry.antt =====
-- `PluginRegistry` of crates/daemon/src/platform/linux/manager.rs. A plugin instance id is the
-- unique bus name, as a text; a client is what the registry keeps for it, its user id and an opaque
-- proxy.
pub mod Pairing
use Prim.Native.String.{String}
use digital_wellbeing.Common.{
  ℕ, ◌≡◌, refl, ◌==◌, if◌then◌else◌, Option, none, some, List, [], ◌∷◌, map, arith, Bool, true,
  false, inl, inr, Option-cases, Bool-cases,
}
use digital_wellbeing.Common.Eq.{nat_eq, string_eq}
use digital_wellbeing.Common.Map.{get, insert, remove, get-insert, get-remove}
use digital_wellbeing.Values.Blocked.{Uid}

abbrev pub PluginInstanceId : Type 0
PluginInstanceId = String

pub record ManagerClient (Proxy : Type 0) : Type 0 where
  pub uid : Uid
  pub proxy : Proxy

pub record PluginRegistry (Proxy : Type 0) : Type 0 where
  pub clients : List (PluginInstanceId × ManagerClient Proxy)
  pub by_uid : List (Uid × PluginInstanceId)

module _ {Proxy : Type 0} where
  unfoldable pub new : PluginRegistry Proxy
  new = record { clients = []; by_uid = [] }

  abbrev pub drop_replaced :
      Option PluginInstanceId
      → List (PluginInstanceId × ManagerClient Proxy)
      → List (PluginInstanceId × ManagerClient Proxy)
  drop_replaced none clients = clients
  drop_replaced (some old_id) clients = remove string_eq old_id clients

  unfoldable pub register :
      PluginInstanceId → Uid → Proxy → PluginRegistry Proxy → PluginRegistry Proxy
  register id uid proxy r = record {
    clients =
        insert string_eq id (record { uid = uid; proxy = proxy })
          (drop_replaced (get nat_eq uid r.by_uid) r.clients);
    by_uid = insert nat_eq uid id r.by_uid;
  }

  unfoldable pub unregister : PluginInstanceId → PluginRegistry Proxy → PluginRegistry Proxy
  unregister id r = elim (get string_eq id r.clients) [
    | some client ↦ record {
      clients = remove string_eq id r.clients;
      by_uid = remove nat_eq client.uid r.by_uid;
    }
    | none ↦ r
  ]

  unfoldable pub unregister_by_uid : Uid → PluginRegistry Proxy → PluginRegistry Proxy
  unregister_by_uid uid r = elim (get nat_eq uid r.by_uid) [
    | some id ↦ record {
      clients = remove string_eq id r.clients;
      by_uid = remove nat_eq uid r.by_uid;
    }
    | none ↦ r
  ]

  unfoldable pub registered_uids : PluginRegistry Proxy → List Uid
  registered_uids r = map (λ e. e.0) r.by_uid

  unfoldable pub focus_proxy_for_uid : PluginRegistry Proxy → Uid → Option (Uid × Proxy)
  focus_proxy_for_uid r uid = elim (get nat_eq uid r.by_uid) [
    | some id ↦ elim (get string_eq id r.clients) [
      | some client ↦ some (client.uid, client.proxy)
      | none ↦ none
    ]
    | none ↦ none
  ]
