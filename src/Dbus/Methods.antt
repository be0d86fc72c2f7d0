-- ===== src/Dbus/Methods.antt =====
-- The methods of crates/daemon/src/dbus/methods/mod.rs. A method that changes the daemon returns its
-- reply with the daemon; a signal and an event are sent whether or not someone hears them.
use Prim.Native.String.{String}
use digital_wellbeing.Common.{
  ℕ, true, not, ◌&&◌, ◌==◌, if◌then◌else◌, Option, none, some, is_some, List, ◌∷◌, map,
}
use digital_wellbeing.Common.Eq.{string_eq}
use digital_wellbeing.Common.Map.{get}
use digital_wellbeing.Categorization.{
  set_app_category as set_app_category_of, list_app_categories_of,
}
use digital_wellbeing.Dbus.{
  FdoError, Result, internal, or_internal, and_then, Call, authenticate, require_root, register_in,
  DaemonInterface, verify_policy_owner, blocked_entries_for,
}
use digital_wellbeing.Platform.Registry.{register}
use digital_wellbeing.Policy.{TimeWindow}
use digital_wellbeing.Policy.Repo
use digital_wellbeing.Policy.Rows.{PolicyInput, PolicyData, policy_data}
use digital_wellbeing.Store.{as_i32}
use digital_wellbeing.Store.Categories.{AppCategoryRow}
use digital_wellbeing.Values.AppClass
use digital_wellbeing.Values.AppClass.{AppClass}
use digital_wellbeing.Values.Blocked.{Uid, PolicyId, BlockedAppEntry}
use digital_wellbeing.Values.Category.{Category}

-- `signals::policy_changed` and the event to the enforcer.
abbrev pub announce : {Proxy : Type 0} → Uid → DaemonInterface Proxy → DaemonInterface Proxy
announce uid d = record d { sent = uid ∷ d.sent; signalled = uid ∷ d.signalled }

abbrev refused :
    {Proxy A : Type 0} → FdoError → DaemonInterface Proxy → Result A × DaemonInterface Proxy
refused e d = (Result.err e, d)

module _ {Proxy : Type 0} (call : Call Proxy) (d : DaemonInterface Proxy) where
  unfoldable pub list_policies : (List TimeWindow → String) → Result (List PolicyData)
  unfolding authenticate Repo.list policy_data
  list_policies to_json = and_then (authenticate call) (λ caller.
      Result.ok (map (policy_data to_json) (Repo.list (caller == 0) (as_i32 caller) d.tables)))

  unfoldable pub list_policies_for_user :
      (List TimeWindow → String) → Uid → Result (List PolicyData)
  unfolding authenticate require_root Repo.list policy_data
  list_policies_for_user to_json uid = and_then (authenticate call) (λ caller.
      and_then (require_root caller)
        (λ root. Result.ok (map (policy_data to_json) (Repo.list true (as_i32 uid) d.tables))))

  -- The ids of the new rows are the database's choice.
  unfoldable pub create_policy : ℕ → ℕ → PolicyInput → Result PolicyId × DaemonInterface Proxy
  unfolding authenticate Repo.create
  create_policy new_id new_app input = elim (authenticate call) [
    | Result.err e ↦ refused e d
    | Result.ok caller ↦
        if not (caller == 0) && not (input.user_id == caller)
        then refused (FdoError.access_denied "access denied") d
        else elim (Repo.create new_id new_app input caller d.tables) [
          | none ↦ refused internal d
          | some (id, tables) ↦ (Result.ok id, announce caller (record d { tables = tables }))
        ]
  ]

  unfoldable pub update_policy : ℕ → PolicyId → PolicyInput → Result Unit × DaemonInterface Proxy
  unfolding authenticate verify_policy_owner Repo.update
  update_policy new_app id input =
      elim (and_then (authenticate call)
        (λ caller. verify_policy_owner (as_i32 id) caller d.tables)) [
          | Result.err e ↦ refused e d
          | Result.ok owner_id ↦ elim (Repo.update new_app id input d.tables) [
            | none ↦ refused internal d
            | some (updated, tables) ↦
                if not updated
                then (Result.err (FdoError.failed "policy not found"), record d { tables = tables })
                else (Result.ok tt, announce owner_id (record d { tables = tables }))
          ]
        ]

  unfoldable pub delete_policy : PolicyId → Result Unit × DaemonInterface Proxy
  unfolding authenticate verify_policy_owner Repo.delete
  delete_policy id =
      elim (and_then (authenticate call)
        (λ caller. verify_policy_owner (as_i32 id) caller d.tables)) [
          | Result.err e ↦ refused e d
          | Result.ok owner_id ↦
              let (deleted, tables) = Repo.delete (as_i32 id) d.tables in
              if not deleted
              then (Result.err (FdoError.failed "policy not found"), record d { tables = tables })
              else (Result.ok tt, announce owner_id (record d { tables = tables }))
        ]

  -- The forwarding task is spawned if the registry knows the plugin, which it does by then.
  unfoldable pub register_plugin : Result Unit × DaemonInterface Proxy
  unfolding authenticate
  register_plugin = elim call.sender [
    | none ↦ refused (FdoError.failed "no sender") d
    | some sender ↦ elim (authenticate call) [
      | Result.err e ↦ refused e d
      | Result.ok uid ↦
          if not (call.accepts sender)
          then refused (FdoError.failed "plugin proxy creation failed") d
          else elim (call.build_proxy sender) [
            | none ↦ refused (FdoError.failed "plugin proxy build failed") d
            | some proxy ↦
                let registry = register sender uid proxy d.registry in
                (
                  Result.ok tt,
                  record d {
                    registry = registry;
                    forwarders =
                        if is_some (get string_eq sender registry.clients)
                        then sender ∷ d.forwarders
                        else d.forwarders;
                  },
                )
          ]
    ]
  ]

  unfoldable pub register_bridge : Result Unit × DaemonInterface Proxy
  unfolding authenticate register_in
  register_bridge = elim call.sender [
    | none ↦ refused (FdoError.failed "no sender") d
    | some sender ↦ elim (authenticate call) [
      | Result.err e ↦ refused e d
      | Result.ok uid ↦
          (Result.ok tt, record d { bridge_registry = register_in sender uid d.bridge_registry })
    ]
  ]

  unfoldable pub get_blocked_apps : Result (List BlockedAppEntry)
  unfolding authenticate blocked_entries_for
  get_blocked_apps = and_then (authenticate call) (λ caller.
      Result.ok (blocked_entries_for d.blocked_apps (if caller == 0 then none else some caller)))

  unfoldable pub get_blocked_apps_for_user : Uid → Result (List BlockedAppEntry)
  unfolding authenticate require_root blocked_entries_for
  get_blocked_apps_for_user uid = and_then (authenticate call) (λ caller.
      and_then (require_root caller)
        (λ root. Result.ok (blocked_entries_for d.blocked_apps (some uid))))

  unfoldable pub get_app_categories : Result (List AppCategoryRow)
  unfolding authenticate list_app_categories_of
  get_app_categories =
      and_then (authenticate call) (λ caller. Result.ok (list_app_categories_of caller d.tables))

  unfoldable pub set_app_category : String → Category → Result Unit × DaemonInterface Proxy
  unfolding authenticate set_app_category_of
  set_app_category text category = elim (authenticate call) [
    | Result.err e ↦ refused e d
    | Result.ok caller ↦ elim (AppClass.new text) [
      | none ↦ refused (FdoError.invalid_args "invalid app_class (empty)") d
      | some app_class ↦ elim (set_app_category_of app_class category caller d.tables) [
        | none ↦ refused internal d
        | some tables ↦
            (Result.ok tt, record d { tables = tables; signalled = caller ∷ d.signalled })
      ]
    ]
  ]

-- The shape of the report methods: a user's own report, and any user's for root.
module _ {Proxy : Type 0} {Report : Type 0} (report : Uid → Option Report) (call : Call Proxy) where
  unfoldable pub own_report : Result Report
  unfolding authenticate
  own_report = and_then (authenticate call) (λ caller. or_internal (report caller))

  unfoldable pub report_for_user : Uid → Result Report
  unfolding authenticate require_root
  report_for_user uid =
      and_then (authenticate call)
        (λ caller. and_then (require_root caller) (λ root. or_internal (report uid)))
