-- ===== src/Policy/Retarget.antt =====
-- Updates of a policy for an application by an input with another kind of target.
use digital_wellbeing.Common.{
  ℕ, ◌≡◌, refl, ap, ◌∙◌, Bool, true, false, ◌&&◌, ◌==◌, none, some, List, [], ◌∷◌, inl, inr,
  Bool-cases, Option-cases, arith,
}
use digital_wellbeing.Policy.Owners.{app_column-policies}
use digital_wellbeing.Policy.Repo
use digital_wellbeing.Policy.Rows.{PolicyInput}
use digital_wellbeing.Store.{PolicyTableRow, Tables, as_i32, check_policy, check_target}
use digital_wellbeing.Store.Policies
use digital_wellbeing.Store.Policies.{UpdatePolicy, find_policy, update_rows, set_columns}
use digital_wellbeing.Values.Blocked.{PolicyId}
use digital_wellbeing.Values.TargetType
use digital_wellbeing.Values.TargetType.{TargetType}

update_rows_refused :
    (id : ℕ) (changes : UpdatePolicy) (rows : List PolicyTableRow) (row : PolicyTableRow)
    → find_policy id rows ≡ some row
    → ((r : PolicyTableRow) → some r ≡ some row → check_policy (set_columns changes r) ≡ false)
    → update_rows id changes rows ≡ none
unfolding update_rows find_policy
update_rows_refused id changes [] row found refused = ground (arith, found)
update_rows_refused id changes (r ∷ rs) row found refused = elim (Bool-cases (r.id == id)) [
  | inl same ↦ elim (Option-cases (update_rows id changes rs)) [
    | inl failed ↦ rw failed refl
    | inr (rest, done) ↦ rw (done, same, refused r (rw (find_policy, same) at found)) refl
  ]
  | inr other ↦
      rw (update_rows_refused id changes rs row (rw (find_policy, other) at found) refused) refl
]

and_false : (a b : Bool) → ((a && false) && b) ≡ false
and_false true b = refl
and_false false b = refl

app_stays :
    (target : TargetType) (new_app app : ℕ) (input : PolicyInput) (t : Tables) (r : PolicyTableRow)
    → input.target_type ≡ target
    → (TargetType.to_code target == 0) ≡ false
    → r.app_id ≡ some app
    → check_target (set_columns (Repo.changes_of input (Repo.app_column new_app input t).0) r)
      ≡ false
unfolding check_target set_columns Repo.changes_of Repo.app_column TargetType.to_code
app_stays TargetType.app new_app app input t r h other set = ground (arith, other)
app_stays TargetType.category new_app app input t r h other set = rw (h, Repo.app_column, set) refl
app_stays TargetType.domain new_app app input t r h other set = rw (h, Repo.app_column, set) refl
app_stays TargetType.any new_app app input t r h other set = rw (h, Repo.app_column, set) refl

-- A policy for an application cannot be given another kind of target: the update leaves the old
-- application in the row, which the database then refuses, whatever else the input says.
pub update-keeps_target :
    (new_app : ℕ) (id : PolicyId) (input : PolicyInput) (t : Tables) (row : PolicyTableRow)
    (app : ℕ)
    → find_policy (as_i32 id) t.policies ≡ some row
    → row.app_id ≡ some app
    → (TargetType.to_code input.target_type == 0) ≡ false
    → Repo.update new_app id input t ≡ none
unfolding Repo.update Policies.update_policy Repo.changes_of
update-keeps_target new_app id input t row app found set other =
    let (app_id, t') = Repo.app_column new_app input t in
    let changes = Repo.changes_of input app_id in
    let same = app_column-policies new_app input t input.target_type refl in
    let refused =
      update_rows_refused (as_i32 id) changes t'.policies row
        (ap (find_policy (as_i32 id)) same ∙ found)
        (λ r is_row.
          let kept : r.app_id ≡ some app =
            ap (λ o. elim o [ some s ↦ s.app_id | none ↦ none ]) is_row ∙ set in
          rw (check_policy, app_stays input.target_type new_app app input t r refl other kept)
            (and_false _ _)) in
    rw (Repo.update, Policies.update_policy, refused) refl
