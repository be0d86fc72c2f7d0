-- ===== src/Blocking/Actor/Consistency.antt =====
-- Evaluating applications keeps the signals in step with the blocked-apps map.
use digital_wellbeing.Common.{
  ℕ, ◌≡◌, refl, ◌∙◌, Option, none, some, List, [], ◌∷◌, arith, inl, inr, Option-cases,
}
use digital_wellbeing.Blocking.Actor.{Services, Actor}
use digital_wellbeing.Blocking.Actor.Evaluate.{
  entry_of, app_id_of, policies_for, decide, evaluate_single_app, evaluate_and_apply,
  evaluate_single_uid, evaluate_uids, handle_policy_mutation, tell_usage,
}
use digital_wellbeing.Blocking.Signals.Mirror.{IsFor, Mirrors, shown, apply_outcome-Mirrors}
use digital_wellbeing.Platform.{event_app_class}
use digital_wellbeing.Platform.Registry.{focus_proxy_for_uid}
use digital_wellbeing.Policy.{Policy, Effect}
use digital_wellbeing.Values.AppClass.{AppClass}
use digital_wellbeing.Values.Blocked.{Uid, PolicyId}
use digital_wellbeing.Values.DateTime.{DateTime}

abbrev pub IsConsistent : {Proxy : Type 0} → Actor Proxy → Type 0
IsConsistent a = Mirrors a.told

entry_of-IsFor :
    (app : AppClass) (now : DateTime) (r : Option (PolicyId × Effect))
    → IsFor app (entry_of app now r)
unfolding entry_of
entry_of-IsFor app now none = tt
entry_of-IsFor app now (some (id, Effect.block)) = refl
entry_of-IsFor app now (some (id, Effect.time_limit l)) = refl
entry_of-IsFor app now (some (id, Effect.allow)) = tt
entry_of-IsFor app now (some (id, Effect.notify l)) = tt

module _ {Proxy : Type 0} (s : Services Proxy) where
  decide-IsFor :
      (app_id : ℕ) (ps : List Policy) (uid : Uid) (app : AppClass) (now : DateTime)
      (a : Actor Proxy)
      → IsFor app (decide s app_id ps uid app now a).0
        × ((decide s app_id ps uid app now a).1.told ≡ a.told)
  unfolding decide
  decide-IsFor app_id [] uid app now a = (tt, refl)
  decide-IsFor app_id (p ∷ ps) uid app now a = (entry_of-IsFor app now _, refl)

  app_id_of-told : (app : AppClass) (a : Actor Proxy) → (app_id_of s app a).1.told ≡ a.told
  unfolding app_id_of
  app_id_of-told app a = ground arith

  evaluate_single_app-IsFor :
      (uid : Uid) (app : AppClass) (now : DateTime) (a : Actor Proxy)
      → IsFor app (evaluate_single_app s uid app now a).0
        × ((evaluate_single_app s uid app now a).1.told ≡ a.told)
  unfolding evaluate_single_app
  evaluate_single_app-IsFor uid app now a = elim (Option-cases (app_id_of s app a).0) [
    | inl gone ↦ rw (gone, evaluate_single_app) (tt, app_id_of-told app a)
    | inr (id, found) ↦
        let (own, same) =
          decide-IsFor id (policies_for s id app uid) uid app now (app_id_of s app a).1 in
        rw (found, evaluate_single_app) (own, same ∙ app_id_of-told app a)
  ]

  pub evaluate_and_apply-IsConsistent :
      (uid : Uid) (app : AppClass) (now : DateTime) (a : Actor Proxy)
      → IsConsistent a
      → IsConsistent (evaluate_and_apply s uid app now a)
  unfolding evaluate_and_apply
  evaluate_and_apply-IsConsistent uid app now a m =
      let (own, same) = evaluate_single_app-IsFor uid app now a in
      let (outcome, a') = evaluate_single_app s uid app now a in
      apply_outcome-Mirrors uid app outcome a'.told own (rw same m)

  -- A usage signal says nothing of any block.
  tell_usage-IsConsistent :
      (uid : Uid) (a : Actor Proxy) → IsConsistent a → IsConsistent (tell_usage s uid a)
  unfolding shown
  tell_usage-IsConsistent uid a m = record { users = m.users; apps = m.apps; agree = m.agree }

  evaluate_single_uid-IsConsistent :
      (now : DateTime) (uid : Uid) (a : Actor Proxy)
      → IsConsistent a
      → IsConsistent (evaluate_single_uid s now uid a)
  unfolding evaluate_single_uid
  evaluate_single_uid-IsConsistent now uid a m =
      elim (Option-cases (focus_proxy_for_uid a.registry uid)) [
        | inl gone ↦ rw (gone, evaluate_single_uid) m
        | inr ((u, proxy), found) ↦ elim (Option-cases (s.current_focus u proxy)) [
          | inl dead ↦ rw (found, evaluate_single_uid) (rw dead m)
          | inr (event, alive) ↦ elim (Option-cases (event_app_class event)) [
            | inl desktop ↦
                rw (found, evaluate_single_uid)
                  (rw alive (rw desktop (tell_usage-IsConsistent u a m)))
            | inr (app, focused) ↦
                rw (found, evaluate_single_uid)
                  (rw alive (
                    rw focused (
                      tell_usage-IsConsistent u (evaluate_and_apply s u app now a)
                        (evaluate_and_apply-IsConsistent u app now a m))))
          ]
        ]
      ]

  pub evaluate_uids-IsConsistent :
      (now : DateTime) (uids : List Uid) (a : Actor Proxy)
      → IsConsistent a
      → IsConsistent (evaluate_uids s now uids a)
  unfolding evaluate_uids
  evaluate_uids-IsConsistent now [] a m = m
  evaluate_uids-IsConsistent now (uid ∷ uids) a m =
      evaluate_uids-IsConsistent now uids _ (evaluate_single_uid-IsConsistent now uid a m)

  pub handle_policy_mutation-IsConsistent :
      (owner : Uid) (now : DateTime) (a : Actor Proxy)
      → IsConsistent a
      → IsConsistent (handle_policy_mutation s owner now a)
  unfolding handle_policy_mutation
  handle_policy_mutation-IsConsistent owner now a m =
      elim (Option-cases (focus_proxy_for_uid a.registry owner)) [
        | inl gone ↦ rw (gone, handle_policy_mutation) m
        | inr ((u, proxy), found) ↦ elim (Option-cases (s.current_focus u proxy)) [
          | inl dead ↦ rw (found, handle_policy_mutation) (rw dead m)
          | inr (event, alive) ↦ elim (Option-cases (event_app_class event)) [
            | inl desktop ↦ rw (found, handle_policy_mutation) (rw alive (rw desktop m))
            | inr (app, focused) ↦
                rw (found, handle_policy_mutation)
                  (rw alive (rw focused (evaluate_and_apply-IsConsistent owner app now a m)))
          ]
        ]
      ]
