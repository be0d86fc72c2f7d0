-- ===== src/Dbus/Ownership.antt =====
-- Who can change which policies: the rows of `policies` that a method called by an ordinary user leaves
-- as they were.
use digital_wellbeing.Common.{
  ℕ, ◌^◌, ◌<◌, ◌≡◌, refl, ap, ◌∙◌, true, false, ◌==◌, is_some, inl, inr, Bool-cases, Option-cases,
  ==_iff, ◌⊎◌, arith,
}
use digital_wellbeing.Dbus.{
  FdoError, internal, Call, DaemonInterface, Result, authenticate, verify_policy_owner,
}
use digital_wellbeing.Dbus.Methods.{create_policy, update_policy, delete_policy}
use digital_wellbeing.Policy.Repo
use digital_wellbeing.Policy.Rows.{PolicyInput}
use digital_wellbeing.Store.{Tables, as_i32, check_policy}
use digital_wellbeing.Store.Policies
use digital_wellbeing.Store.Policies.{
  find_policy, get_policy_user, update_rows, set_columns, UpdatePolicy, new_row,
}
use digital_wellbeing.Values.Blocked.{Uid, PolicyId}
use digital_wellbeing.Policy.Owners.{
  others, IsKeyed, owned_by, update-others, delete-others, append-others, app_column-policies,
}

-- An ordinary caller is refused, or the row with the id is its own.
pub verify-owned :
    (id : ℕ) (caller : Uid) (t : Tables)
    → (caller == 0) ≡ false
    → caller < 2 ^ 32
    → ((e : FdoError) × (verify_policy_owner id caller t ≡ Result.err e))
      ⊎ ((verify_policy_owner id caller t ≡ Result.ok caller)
          × (owned_by id caller t.policies ≡ true))
unfolding verify_policy_owner Repo.get_owner get_policy_user
verify-owned id caller t ordinary fits =
    let same : as_i32 caller ≡ caller = ground arith in
    elim (Option-cases (find_policy id t.policies)) [
      | inl unknown ↦
          inl (internal, rw (verify_policy_owner, Repo.get_owner, get_policy_user, unknown) refl)
      | inr (row, known) ↦ elim (Bool-cases (row.user_id == caller)) [
        | inl own ↦ inr (
          rw (verify_policy_owner, Repo.get_owner, get_policy_user, known, same, ordinary, own)
              (ap Result.ok ((==_iff row.user_id caller).0 own)),
          rw (owned_by, known) own,
        )
        | inr foreign ↦ inl (
          FdoError.access_denied "access denied",
          rw (verify_policy_owner, Repo.get_owner, get_policy_user, known, same, ordinary, foreign)
              refl,
        )
      ]
    ]

-- The rows after a method, when its caller is an ordinary user.
module _ {Proxy : Type 0} (call : Call Proxy) (d : DaemonInterface Proxy) (caller : Uid)
    (is_caller : authenticate call ≡ Result.ok caller) (ordinary : (caller == 0) ≡ false)
    (fits : caller < 2 ^ 32) where
  as_i32_caller : as_i32 caller ≡ caller
  as_i32_caller = ground arith

  pub create_policy-others :
      (new_id new_app : ℕ) (input : PolicyInput)
      → others caller (create_policy call d new_id new_app input).1.tables.policies
        ≡ others caller d.tables.policies
  unfolding create_policy Repo.create Policies.create_policy Repo.new_policy new_row
  create_policy-others new_id new_app input = elim (Bool-cases (input.user_id == caller)) [
    | inr foreign ↦ rw (create_policy, is_caller, ordinary, foreign) refl
    | inl own ↦
        let t' = (Repo.app_column new_app input d.tables).1 in
        let row =
          new_row new_id
            (Repo.new_policy input caller (Repo.app_column new_app input d.tables).0) in
        let mine : (row.user_id == caller) ≡ true =
          (==_iff row.user_id caller).1
            (ap as_i32 ((==_iff input.user_id caller).0 own) ∙ as_i32_caller) in
        elim (Bool-cases (check_policy row)) [
          | inr invalid ↦
              rw
                (
                  create_policy, is_caller, ordinary, own, Repo.create, Policies.create_policy,
                  invalid,
                )
                refl
          | inl valid ↦
              rw
                (
                  create_policy, is_caller, ordinary, own, Repo.create, Policies.create_policy,
                  valid,
                )
                (append-others caller t'.policies row mine
                  ∙ ap (others caller)
                      (app_column-policies new_app input d.tables input.target_type refl))
        ]
  ]

  pub update_policy-others :
      (new_app : ℕ) (id : PolicyId) (input : PolicyInput)
      → IsKeyed d.tables.policies
      → others caller (update_policy call d new_app id input).1.tables.policies
        ≡ others caller d.tables.policies
  unfolding update_policy Repo.update verify_policy_owner get_policy_user
  update_policy-others new_app id input keyed =
      elim (verify-owned (as_i32 id) caller d.tables ordinary fits) [
        | inl (e, refused) ↦ rw (update_policy, is_caller, refused) refl
        | inr (verified, owned) ↦
            elim (update-others new_app id input caller d.tables keyed owned) [
              | inl failed ↦ rw (update_policy, is_caller, verified, failed) refl
              | inr (true, (t', (done, same))) ↦ rw (update_policy, is_caller, verified, done) same
              | inr (false, (t', (done, same))) ↦ rw (update_policy, is_caller, verified, done) same
            ]
      ]

  pub delete_policy-others :
      (id : PolicyId)
      → IsKeyed d.tables.policies
      → others caller (delete_policy call d id).1.tables.policies ≡ others caller d.tables.policies
  unfolding delete_policy Repo.delete verify_policy_owner get_policy_user
  delete_policy-others id keyed = elim (verify-owned (as_i32 id) caller d.tables ordinary fits) [
    | inl (e, refused) ↦ rw (delete_policy, is_caller, refused) refl
    | inr (verified, owned) ↦
        elim (Bool-cases (is_some (find_policy (as_i32 id) d.tables.policies))) [
          | inl there ↦
              rw (delete_policy, is_caller, verified, Repo.delete, Policies.delete_policy, there)
                (delete-others (as_i32 id) caller d.tables.policies keyed owned)
          | inr gone ↦
              rw (delete_policy, is_caller, verified, Repo.delete, Policies.delete_policy, gone)
                (delete-others (as_i32 id) caller d.tables.policies keyed owned)
        ]
  ]
