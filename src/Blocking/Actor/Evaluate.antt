-- ===== src/Blocking/Actor/Evaluate.antt =====
-- The evaluation of one application, of one user's focus, and of every registered user's:
-- `evaluate_single_app`, `evaluate_and_apply`, `evaluate_single_uid`, `evaluate_and_enforce` and
-- `handle_policy_mutation` of crates/daemon/src/blocking/core/mod.rs. A repository error is logged
-- and replaced by a default, so none of these returns an error.
use digital_wellbeing.Common.{ℕ, ◌/◌, ◌^◌, Option, none, some, unwrap_or, List, [], ◌∷◌, ◌++◌, map}
use digital_wellbeing.Common.Map.{get, insert}
use digital_wellbeing.Blocking.Actor.{Services, Actor}
use digital_wellbeing.Blocking.Signals.{DaemonSignal, apply_outcome}
use digital_wellbeing.Platform.{event_app_class}
use digital_wellbeing.Platform.Registry.{focus_proxy_for_uid, unregister_by_uid, registered_uids}
use digital_wellbeing.Policy.{Policy, Effect, evaluate, minute_of_day}
use digital_wellbeing.Values.AppClass.{AppClass, app_class_eq}
use digital_wellbeing.Values.Blocked.{Uid, PolicyId, BlockedAppEntry}
use digital_wellbeing.Values.BlockReason.{BlockReason}
use digital_wellbeing.Values.DateTime.{DateTime}

-- Only a block or a reached time limit produces an entry.
unfoldable pub entry_of : AppClass → DateTime → Option (PolicyId × Effect) → Option BlockedAppEntry
entry_of app now none = none
entry_of app now (some (policy_id, Effect.block)) = some (record {
  app_class = app;
  policy_id = policy_id;
  reason = BlockReason.app_block;
  blocked_since = now.millis;
})
entry_of app now (some (policy_id, Effect.time_limit _)) = some (record {
  app_class = app;
  policy_id = policy_id;
  reason = BlockReason.app_time_limit;
  blocked_since = now.millis;
})
entry_of app now (some (_, Effect.allow)) = none
entry_of app now (some (_, Effect.notify _)) = none

module _ {Proxy : Type 0} (s : Services Proxy) where
  -- The id from the cache, or from the registry of apps, which then fills the cache.
  unfoldable pub app_id_of : AppClass → Actor Proxy → Option ℕ × Actor Proxy
  app_id_of app a = elim (get app_class_eq app a.app_cache) [
    | some id ↦ (some id, a)
    | none ↦ elim (s.ensure_app app) [
      | some id ↦ (some id, record a { app_cache = insert app_class_eq app id a.app_cache })
      | none ↦ (none, a)
    ]
  ]

  -- The policies for the application at the wall clock's day and minute.
  unfoldable pub policies_for : ℕ → AppClass → Uid → List Policy
  policies_for app_id app uid =
      let now_local = s.wall_clock uid in
      let categories = unwrap_or (s.resolve_category_discriminants app uid) [] in
      unwrap_or
        (s.resolve_for_app app_id categories uid (2 ^ now_local.weekday) (minute_of_day now_local))
        []

  -- The usage of the day in whole minutes.
  unfoldable pub usage_minutes : ℕ → Uid → DateTime → ℕ
  usage_minutes app_id uid now =
      unwrap_or (s.get_today_usage app_id uid (s.format_date now)) 0 / 60000

  -- The part of `evaluate_single_app` after the policies are fetched.
  unfoldable pub decide :
      ℕ
      → List Policy
      → Uid
      → AppClass
      → DateTime
      → Actor Proxy
      → Option BlockedAppEntry × Actor Proxy
  decide app_id [] uid app now a = (none, a)
  decide app_id (p ∷ ps) uid app now a =
      let result = evaluate (p ∷ ps) (usage_minutes app_id uid now) now in
      (
        entry_of app now result.terminating,
        record a { notified = map (λ n. app) result.notifies ++ a.notified },
      )

  unfoldable pub evaluate_single_app :
      Uid → AppClass → DateTime → Actor Proxy → Option BlockedAppEntry × Actor Proxy
  evaluate_single_app uid app now a =
      let (id, a') = app_id_of app a in
      elim id [
        | none ↦ (none, a')
        | some app_id ↦ decide app_id (policies_for app_id app uid) uid app now a'
      ]

  unfoldable pub evaluate_and_apply : Uid → AppClass → DateTime → Actor Proxy → Actor Proxy
  evaluate_and_apply uid app now a =
      let (outcome, a') = evaluate_single_app uid app now a in
      record a' { told = apply_outcome uid app outcome a'.told }

  abbrev pub tell_usage : Uid → Actor Proxy → Actor Proxy
  tell_usage uid a = record a {
    told = record {
      blocked_apps = a.told.blocked_apps;
      signals = DaemonSignal.usage_updated uid ∷ a.told.signals;
    };
  }

  unfoldable pub evaluate_single_uid : DateTime → Uid → Actor Proxy → Actor Proxy
  evaluate_single_uid now uid a = elim (focus_proxy_for_uid a.registry uid) [
    | none ↦ a
    | some (u, proxy) ↦ elim (s.current_focus u proxy) [
      | none ↦ record a { registry = unregister_by_uid u a.registry }
      | some event ↦ elim (event_app_class event) [
        | none ↦ tell_usage u a
        | some app ↦ tell_usage u (evaluate_and_apply u app now a)
      ]
    ]
  ]

  unfoldable pub evaluate_uids : DateTime → List Uid → Actor Proxy → Actor Proxy
  evaluate_uids now [] a = a
  evaluate_uids now (uid ∷ uids) a = evaluate_uids now uids (evaluate_single_uid now uid a)

  unfoldable pub evaluate_and_enforce : DateTime → Actor Proxy → Actor Proxy
  evaluate_and_enforce now a = evaluate_uids now (registered_uids a.registry) a

  unfoldable pub handle_policy_mutation : Uid → DateTime → Actor Proxy → Actor Proxy
  handle_policy_mutation owner_id now a = elim (focus_proxy_for_uid a.registry owner_id) [
    | none ↦ a
    | some (u, proxy) ↦ elim (s.current_focus u proxy) [
      | none ↦ record a { registry = unregister_by_uid owner_id a.registry }
      | some event ↦ elim (event_app_class event) [
        | none ↦ a
        | some app ↦ evaluate_and_apply owner_id app now a
      ]
    ]
  ]
