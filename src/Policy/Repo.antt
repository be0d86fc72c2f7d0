-- ===== src/Policy/Repo.antt =====
-- `PolicyRepo` of crates/daemon/src/policy/data/repo.rs. `none` is an error, after which the transaction
-- leaves the tables as they were; the ids of new rows are the database's choice.
use Prim.Native.String.{String}
use digital_wellbeing.Common.{ℕ, Bool, ltb, if◌then◌else◌, Option, none, some, unwrap_or, List, map}
use digital_wellbeing.Policy.{Policy}
use digital_wellbeing.Policy.Rows.{PolicyInput, row_to_policy, policy_of_row, window_of_row}
use digital_wellbeing.Store.{PolicyTableRow, Tables, as_i32}
use digital_wellbeing.Store.Apps.{ensure_app, load_app}
use digital_wellbeing.Store.Policies.{
  NewPolicy, UpdatePolicy, create_policy, update_policy, delete_policy, get_policy_user,
  read_policies, schedules_of, resolve_policies_for_app_full, resolve_category_name_to_discriminant,
}
use digital_wellbeing.Values.Blocked.{Uid, PolicyId}
use digital_wellbeing.Values.EffectKind
use digital_wellbeing.Values.EffectKind.{EffectKind}
use digital_wellbeing.Values.TargetType
use digital_wellbeing.Values.TargetType.{TargetType}

-- The text of a row's application, empty without one.
unfoldable pub app_class_str : PolicyTableRow → Tables → String
unfolding load_app
app_class_str row t = elim row.app_id [ some id ↦ unwrap_or (load_app id t.apps) "" | none ↦ "" ]

-- `PolicyRepo::list`; the policies' ids are distinct, so that each takes its schedules from the map.
unfoldable pub list : Bool → Uid → Tables → List Policy
unfolding read_policies row_to_policy app_class_str window_of_row schedules_of
list caller_root user_id t =
    map
      (λ row.
        row_to_policy row (app_class_str row t)
          (map window_of_row (schedules_of row.id t.schedules)))
      (read_policies caller_root user_id t)

-- The columns that depend on the target type and on the effect.
unfoldable pub app_column : ℕ → PolicyInput → Tables → Option ℕ × Tables
unfolding ensure_app
app_column new_app input t = elim input.target_type [
  | TargetType.app ↦ let (id, t') = ensure_app new_app input.app_class t in (some id, t')
  | TargetType.category ↦ (none, t)
  | TargetType.domain ↦ (none, t)
  | TargetType.any ↦ (none, t)
]

unfoldable pub category_column : PolicyInput → Option ℕ
unfolding resolve_category_name_to_discriminant
category_column input = elim input.target_type [
  | TargetType.category ↦ resolve_category_name_to_discriminant input.category_name
  | TargetType.app ↦ none
  | TargetType.domain ↦ none
  | TargetType.any ↦ none
]

unfoldable pub domain_column : PolicyInput → Option String
domain_column input = elim input.target_type [
  | TargetType.domain ↦ some input.domain_pattern
  | TargetType.app ↦ none
  | TargetType.category ↦ none
  | TargetType.any ↦ none
]

-- `(minutes > 0).then_some(minutes as i32)`
abbrev pub positive_limit : ℕ → Option ℕ
positive_limit minutes = if ltb 0 minutes then some (as_i32 minutes) else none

unfoldable pub limit_column : PolicyInput → Option ℕ
limit_column input = elim input.effect [
  | EffectKind.time_limit ↦ positive_limit input.time_limit_minutes
  | EffectKind.notify ↦ positive_limit input.time_limit_minutes
  | EffectKind.allow ↦ none
  | EffectKind.block ↦ none
]

unfoldable pub new_policy : PolicyInput → Uid → Option ℕ → NewPolicy
unfolding category_column domain_column limit_column
new_policy input caller app_id = record {
  name = input.name;
  priority = as_i32 input.priority;
  effect = EffectKind.to_code input.effect;
  target_type = TargetType.to_code input.target_type;
  app_id = app_id;
  category = category_column input;
  domain_pattern = domain_column input;
  time_limit_minutes = limit_column input;
  user_id = as_i32 input.user_id;
  created_by = as_i32 caller;
}

-- `PolicyRepo::create`
unfoldable pub create : ℕ → ℕ → PolicyInput → Uid → Tables → Option (PolicyId × Tables)
unfolding app_column new_policy create_policy
create new_id new_app input caller t =
    let (app_id, t') = app_column new_app input t in
    create_policy new_id (new_policy input caller app_id) t'

unfoldable pub changes_of : PolicyInput → Option ℕ → UpdatePolicy
unfolding category_column domain_column limit_column
changes_of input app_id = record {
  name = some input.name;
  priority = some (as_i32 input.priority);
  effect = some (EffectKind.to_code input.effect);
  target_type = some (TargetType.to_code input.target_type);
  app_id = app_id;
  category = category_column input;
  domain_pattern = some (domain_column input);
  time_limit_minutes = some (limit_column input);
}

-- `PolicyRepo::update`
unfoldable pub update : ℕ → PolicyId → PolicyInput → Tables → Option (Bool × Tables)
unfolding app_column changes_of update_policy
update new_app id input t =
    let (app_id, t') = app_column new_app input t in
    update_policy (as_i32 id) (changes_of input app_id) t'

-- `PolicyRepo::delete` and `PolicyRepo::get_owner`
unfoldable pub delete : ℕ → Tables → Bool × Tables
unfolding delete_policy
delete id t = delete_policy id t

unfoldable pub get_owner : ℕ → Tables → Option Uid
unfolding get_policy_user
get_owner id t = get_policy_user id t

-- `PolicyRepo::resolve_for_app`
unfoldable pub resolve_for_app : ℕ → List ℕ → Uid → ℕ → ℕ → Tables → List Policy
unfolding resolve_policies_for_app_full policy_of_row
resolve_for_app app_id categories uid day_mask minute t =
    map policy_of_row (resolve_policies_for_app_full app_id categories uid day_mask minute t)
