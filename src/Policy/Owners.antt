-- ===== src/Policy/Owners.antt =====
-- The policy rows of everyone but one user: what the statements on a row of that user leave of them.
use digital_wellbeing.Common.{
  ℕ, ◌≡◌, refl, sym, ap, ◌∙◌, Bool, true, false, not, ◌==◌, if◌then◌else◌, Option, none, some,
  is_some, List, [], ◌∷◌, ◌++◌, filter, inl, inr, Bool-cases, Option-cases, ==_iff, ◌⊎◌, arith,
  subst,
}
use digital_wellbeing.Policy.Repo
use digital_wellbeing.Policy.Rows.{PolicyInput}
use digital_wellbeing.Store.{PolicyTableRow, Tables, as_i32, check_policy}
use digital_wellbeing.Store.Apps.{ensure_app, find_app}
use digital_wellbeing.Store.Policies
use digital_wellbeing.Store.Policies.{
  find_policy, get_policy_user, update_rows, set_columns, UpdatePolicy, new_row,
}
use digital_wellbeing.Values.Blocked.{Uid, PolicyId}
use digital_wellbeing.Values.AppClass.{AppClass}
use digital_wellbeing.Values.TargetType.{TargetType}

-- The rows of everyone else.
abbrev pub others : Uid → List PolicyTableRow → List PolicyTableRow
others uid rows = filter (λ r. not (r.user_id == uid)) rows

-- The primary key: no two rows have the same id.
abbrev pub IsKeyed : List PolicyTableRow → Type 0
IsKeyed [] = Unit
IsKeyed (r ∷ rs) = (find_policy r.id rs ≡ none) × IsKeyed rs

-- What a statement that can fail leaves.
abbrev after : List PolicyTableRow → Option (List PolicyTableRow) → List PolicyTableRow
after rows none = rows
after rows (some rows') = rows'

update_rows_absent :
    (id : ℕ) (changes : UpdatePolicy) (rows : List PolicyTableRow)
    → find_policy id rows ≡ none
    → update_rows id changes rows ≡ some rows
unfolding update_rows find_policy
update_rows_absent id changes [] h = refl
update_rows_absent id changes (r ∷ rs) h = elim (Bool-cases (r.id == id)) [
  | inl same ↦ ground (arith, same, h)
  | inr other ↦
      let rest = update_rows_absent id changes rs (ground (arith, h, other)) in
      rw (rest, other) refl
]

-- Whether the row with the id, if there is one, is the user's.
abbrev pub owned_by : ℕ → Uid → List PolicyTableRow → Bool
owned_by id uid rows = elim (find_policy id rows) [ some r ↦ r.user_id == uid | none ↦ true ]

owned_first :
    (id : ℕ) (uid : Uid) (r : PolicyTableRow) (rs : List PolicyTableRow)
    → owned_by id uid (r ∷ rs) ≡ true
    → (r.id == id) ≡ true
    → (r.user_id == uid) ≡ true
unfolding find_policy
owned_first id uid r rs h same = rw (owned_by, same) at h

owned_rest :
    (id : ℕ) (uid : Uid) (r : PolicyTableRow) (rs : List PolicyTableRow)
    → owned_by id uid (r ∷ rs) ≡ true
    → (r.id == id) ≡ false
    → owned_by id uid rs ≡ true
unfolding find_policy
owned_rest id uid r rs h other = rw (owned_by, other) at h

others_of :
    (uid : Uid) (r : PolicyTableRow) (rs rs' : List PolicyTableRow)
    → others uid rs' ≡ others uid rs
    → others uid (r ∷ rs') ≡ others uid (r ∷ rs)
others_of uid r rs rs' h = ap (λ l. if not (r.user_id == uid) then r ∷ l else l) h

update_rows-others :
    (id : ℕ) (changes : UpdatePolicy) (uid : Uid) (rows : List PolicyTableRow)
    → IsKeyed rows
    → owned_by id uid rows ≡ true
    → others uid (after rows (update_rows id changes rows)) ≡ others uid rows
unfolding update_rows set_columns
update_rows-others id changes uid [] keyed owned = refl
update_rows-others id changes uid (r ∷ rs) keyed owned = elim (Bool-cases (r.id == id)) [
  | inl same ↦
      let absent : find_policy id rs ≡ none =
        subst (λ i. find_policy i rs ≡ none) ((==_iff r.id id).0 same) keyed.0 in
      let mine = owned_first id uid r rs owned same in
      let rest = update_rows_absent id changes rs absent in
      elim (Bool-cases (check_policy (set_columns changes r))) [
        | inl valid ↦ rw (rest, same, valid, mine) refl
        | inr refused ↦ rw (rest, same, refused) refl
      ]
  | inr other ↦
      let rest =
        update_rows-others id changes uid rs keyed.1 (owned_rest id uid r rs owned other) in
      elim (Option-cases (update_rows id changes rs)) [
        | inl failed ↦ rw failed refl
        | inr (rows', done) ↦
            rw (done, other)
              (others_of uid r rs rows' (sym (ap (λ o. others uid (after rs o)) done) ∙ rest))
      ]
]

pub delete-others :
    (id : ℕ) (uid : Uid) (rows : List PolicyTableRow)
    → IsKeyed rows
    → owned_by id uid rows ≡ true
    → others uid (filter (λ r. not (r.id == id)) rows) ≡ others uid rows
delete-others id uid [] keyed owned = refl
delete-others id uid (r ∷ rs) keyed owned = elim (Bool-cases (r.id == id)) [
  | inl same ↦
      let absent : find_policy id rs ≡ none =
        subst (λ i. find_policy i rs ≡ none) ((==_iff r.id id).0 same) keyed.0 in
      rw (same, owned_first id uid r rs owned same)
        (delete-others id uid rs keyed.1 (rw (owned_by, absent) refl))
  | inr other ↦ rw other (
      others_of uid r rs (filter (λ s. not (s.id == id)) rs)
        (delete-others id uid rs keyed.1 (owned_rest id uid r rs owned other)))
]

pub append-others :
    (uid : Uid) (rows : List PolicyTableRow) (r : PolicyTableRow)
    → (r.user_id == uid) ≡ true
    → others uid (rows ++ r ∷ []) ≡ others uid rows
append-others uid [] r mine = rw mine refl
append-others uid (s ∷ rows) r mine =
    others_of uid s rows (rows ++ r ∷ []) (append-others uid rows r mine)

ensure_app-policies :
    (new_app : ℕ) (app : AppClass) (t : Tables) → (ensure_app new_app app t).1.policies ≡ t.policies
unfolding ensure_app
ensure_app-policies new_app app t = elim (Option-cases (find_app app.text t.apps)) [
  | inl unknown ↦ rw (unknown, ensure_app) refl
  | inr (id, known) ↦ rw (known, ensure_app) refl
]

-- The application's row is the only thing that is registered with a policy.
pub app_column-policies :
    (new_app : ℕ) (input : PolicyInput) (t : Tables) (target : TargetType)
    → input.target_type ≡ target
    → (Repo.app_column new_app input t).1.policies ≡ t.policies
unfolding Repo.app_column
app_column-policies new_app input t TargetType.app h =
    rw (h, Repo.app_column) (ensure_app-policies new_app input.app_class t)
app_column-policies new_app input t TargetType.category h = rw (h, Repo.app_column) refl
app_column-policies new_app input t TargetType.domain h = rw (h, Repo.app_column) refl
app_column-policies new_app input t TargetType.any h = rw (h, Repo.app_column) refl

-- An update of a row that is the user's, and what it leaves of the rows of everyone else.
pub update-others :
    (new_app : ℕ) (id : PolicyId) (input : PolicyInput) (uid : Uid) (t : Tables)
    → IsKeyed t.policies
    → owned_by (as_i32 id) uid t.policies ≡ true
    → (Repo.update new_app id input t ≡ none)
      ⊎ ((updated : Bool) × ((t' : Tables) × ((Repo.update new_app id input t ≡ some (updated, t'))
              × (others uid t'.policies ≡ others uid t.policies))))
unfolding Repo.update Policies.update_policy Repo.changes_of
update-others new_app id input uid t keyed owned =
    let t' = (Repo.app_column new_app input t).1 in
    let changes = Repo.changes_of input (Repo.app_column new_app input t).0 in
    let same = app_column-policies new_app input t input.target_type refl in
    elim (Option-cases (update_rows (as_i32 id) changes t'.policies)) [
      | inl failed ↦ inl (rw (Repo.update, Policies.update_policy, failed) refl)
      | inr (rows, done) ↦ inr (
        is_some (find_policy (as_i32 id) t'.policies),
        (
          record t' { policies = rows },
          (
            rw (Repo.update, Policies.update_policy, done) refl,
            sym (ap (λ o. others uid (after t'.policies o)) done)
                ∙ ap (λ l. others uid (after l (update_rows (as_i32 id) changes l))) same
                ∙ update_rows-others (as_i32 id) changes uid t.policies keyed owned,
          ),
        ),
      )
    ]
