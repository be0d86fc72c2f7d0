-- ===== src/Examples/Controller.antt =====
-- Method calls on a small daemon.
use Prim.Native.String.{String}
use digital_wellbeing.Common.{true, ◌≡◌, refl, none, some, List, [], ◌∷◌, ltb→lt}
use digital_wellbeing.Dbus.{Call, DaemonInterface, authenticate}
use digital_wellbeing.Dbus.Announce.{serve-IsOwn, IsOwn, set_app_category_fails}
use digital_wellbeing.Dbus.Methods.{
  delete_policy, list_policies, list_policies_for_user, get_blocked_apps, get_app_categories,
}
use digital_wellbeing.Dbus.Reports.{on_tables}
use digital_wellbeing.Dbus.Requests.{Request, World, serve}
use digital_wellbeing.Dbus.Views.{views-IsSameFor, list_policies_for_user-ignores}
use digital_wellbeing.Examples.Store.{app_row, any_row, other_row, tables}
use digital_wellbeing.Categorization.{set_app_category}
use digital_wellbeing.Policy.{TimeWindow}
use digital_wellbeing.Store.Policies.{find_policy}
use digital_wellbeing.Values.Blocked.{Uid}
use digital_wellbeing.Values.Category

abbrev call_of : Uid → Call Unit
call_of uid = record {
  sender = some ":1.7";
  unix_user = λ sender. some uid;
  accepts = λ sender. true;
  build_proxy = λ sender. some tt;
}

abbrev no_json : List TimeWindow → String
no_json windows = "[]"

abbrev daemon : DaemonInterface Unit
daemon = record {
  tables = tables;
  registry = record { clients = []; by_uid = [] };
  bridge_registry = record { bridges = [] };
  blocked_apps = [];
  sent = [];
  signalled = [];
  forwarders = [];
}

abbrev world : World
world = record {
  new_id = 4;
  new_app = 9;
  to_json = no_json;
  reports = on_tables (record { by_app = []; by_title = []; by_category = [] }) [] tables.apps;
}

serve-IsOwn_example :
    IsOwn 1000 daemon (serve world (call_of 1000) (Request.delete_policy 1) daemon).1
unfolding authenticate find_policy
serve-IsOwn_example =
    serve-IsOwn world (call_of 1000) 1000 (Request.delete_policy 1) daemon refl refl
      (ltb→lt 1000 4294967296 refl) (refl, (refl, (refl, tt)))

deletes_own :
    (serve world (call_of 1000) (Request.delete_policy 1) daemon).1.tables.policies
    ≡ other_row ∷ any_row ∷ []
unfolding serve delete_policy
deletes_own = refl

refuses_foreign : (serve world (call_of 1000) (Request.delete_policy 3) daemon).1 ≡ daemon
unfolding serve delete_policy
refuses_foreign = refl

set_app_category_fails_example :
    set_app_category (record { text = "steam" }) Category.social 1000 tables ≡ none
set_app_category_fails_example =
    set_app_category_fails (record { text = "steam" }) Category.social 1000 tables

-- The daemon without the policies of the other user.
abbrev without_other : DaemonInterface Unit
without_other = record daemon { tables = record tables { policies = any_row ∷ app_row ∷ [] } }

views-IsSameFor_example :
    (list_policies (call_of 1000) daemon no_json
      ≡ list_policies (call_of 1000) without_other no_json)
    × (get_blocked_apps (call_of 1000) daemon ≡ get_blocked_apps (call_of 1000) without_other)
    × (get_app_categories (call_of 1000) daemon ≡ get_app_categories (call_of 1000) without_other)
unfolding authenticate
views-IsSameFor_example =
    views-IsSameFor (call_of 1000) no_json 1000 daemon without_other refl refl (record {
      policies = refl;
      schedules = λ id own. refl;
      categories = refl;
      apps = λ id named. refl;
      blocked = refl;
    })

list_policies_for_user-ignores_example :
    list_policies_for_user (call_of 0) daemon no_json 2000
    ≡ list_policies (call_of 0) daemon no_json
unfolding authenticate
list_policies_for_user-ignores_example =
    list_policies_for_user-ignores (call_of 0) daemon no_json 0 2000 refl
