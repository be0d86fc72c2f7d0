-- ===== src/Policy/Rows.antt =====
-- The conversions between rows, domain policies and D-Bus data: crates/daemon/src/policy/data/repo.rs
-- (`row_to_policy`), crates/daemon/src/policy/domain/conversions.rs and the D-Bus types of
-- crates/core/src/domain/policy_types.rs. `to_json` is serde_json's text of a schedule.
use Prim.Native.String.{String}
use digital_wellbeing.Common.{ℕ, ◌%◌, ◌^◌, ◌==◌, if◌then◌else◌, none, some, unwrap_or, List, []}
use digital_wellbeing.Policy.{Effect, Policy, PolicyTarget, TimeWindow, kind_discriminant}
use digital_wellbeing.Store.{PolicyTableRow, ScheduleRow, as_u64}
use digital_wellbeing.Values.AppClass
use digital_wellbeing.Values.AppClass.{AppClass}
use digital_wellbeing.Values.Blocked.{Uid, PolicyId}
use digital_wellbeing.Values.Category
use digital_wellbeing.Values.Category.{Category}
use digital_wellbeing.Values.EffectKind
use digital_wellbeing.Values.EffectKind.{EffectKind}
use digital_wellbeing.Values.TargetType
use digital_wellbeing.Values.TargetType.{TargetType}

-- The effect of a row; an unknown code blocks.
unfoldable pub effect_of : PolicyTableRow → Effect
effect_of row = elim (EffectKind.try_from row.effect) [
  | some kind ↦ elim kind [
    | EffectKind.allow ↦ Effect.allow
    | EffectKind.block ↦ Effect.block
    | EffectKind.time_limit ↦ Effect.time_limit (as_u64 (unwrap_or row.time_limit_minutes 1))
    | EffectKind.notify ↦ Effect.notify (as_u64 (unwrap_or row.time_limit_minutes 1))
  ]
  | none ↦ Effect.block
]

-- `row.category.and_then(|v| Category::try_from(v).ok()).unwrap_or(Uncategorized)`
unfoldable pub category_of : PolicyTableRow → Category
category_of row = elim row.category [
  | some v ↦ unwrap_or (Category.try_from v) Category.uncategorized
  | none ↦ Category.uncategorized
]

-- `DomainPattern::new(s)`, or the pattern `unknown` for an empty one.
unfoldable pub domain_or_unknown : String → String
domain_or_unknown String.[] = "unknown"
domain_or_unknown (String.◌∷◌ c s) = String.◌∷◌ c s

-- `row_to_policy`, the listing path.
unfoldable pub row_to_policy : PolicyTableRow → String → List TimeWindow → Policy
unfolding effect_of category_of domain_or_unknown
row_to_policy row app_class_str schedules = record {
  id = row.id;
  name = row.name;
  effect = effect_of row;
  target =
      if row.target_type == 0
      then PolicyTarget.app (unwrap_or (AppClass.new app_class_str) (record { text = "unknown" }))
      else if row.target_type == 1
      then PolicyTarget.category (category_of row)
      else if row.target_type == 2
      then PolicyTarget.domain (domain_or_unknown (unwrap_or row.domain_pattern ""))
      else PolicyTarget.any_target;
  priority = as_u64 row.priority;
  schedule = schedules;
  time_limit_minutes = as_u64 (unwrap_or row.time_limit_minutes 0);
  user_id = row.user_id;
  created_by = row.created_by;
}

-- `From<PolicyTableRow>`, the evaluation path.
unfoldable pub policy_of_row : PolicyTableRow → Policy
unfolding effect_of category_of
policy_of_row row = record {
  id = row.id;
  name = row.name;
  effect = effect_of row;
  target = elim (unwrap_or (TargetType.try_from row.target_type) TargetType.any) [
    | TargetType.app ↦ PolicyTarget.any_target
    | TargetType.category ↦ PolicyTarget.category (category_of row)
    | TargetType.domain ↦ PolicyTarget.any_target
    | TargetType.any ↦ PolicyTarget.any_target
  ];
  priority = as_u64 row.priority;
  schedule = [];
  time_limit_minutes = as_u64 (unwrap_or row.time_limit_minutes 0);
  user_id = row.user_id;
  created_by = row.created_by;
}

-- The window of a schedule row, with the columns cut to their widths.
unfoldable pub window_of_row : ScheduleRow → TimeWindow
window_of_row sr = record {
  start_minute = sr.start_minute % 2 ^ 16;
  end_minute = sr.end_minute % 2 ^ 16;
  day_mask = sr.day_mask % 2 ^ 8;
}

-- `PolicyInput`
pub record PolicyInput : Type 0 where
  pub name : String
  pub effect : EffectKind
  pub target_type : TargetType
  pub app_class : AppClass
  pub category_name : String
  pub domain_pattern : String
  pub priority : ℕ
  pub time_limit_minutes : ℕ
  pub schedule_json : String
  pub user_id : Uid

-- `PolicyData`
pub record PolicyData : Type 0 where
  pub id : PolicyId
  pub name : String
  pub effect : EffectKind
  pub target_type : TargetType
  pub app_class : AppClass
  pub category_name : String
  pub domain_pattern : String
  pub priority : ℕ
  pub time_limit_minutes : ℕ
  pub schedule_json : String
  pub user_id : Uid
  pub created_by : Uid

-- The placeholder for the fields that the target type does not use.
abbrev no_app : AppClass
no_app = record { text = "?" }

unfoldable pub target_type_of : PolicyTarget → TargetType
target_type_of (PolicyTarget.app _) = TargetType.app
target_type_of (PolicyTarget.category _) = TargetType.category
target_type_of (PolicyTarget.domain _) = TargetType.domain
target_type_of PolicyTarget.any_target = TargetType.any

unfoldable pub limit_of : Effect → ℕ
limit_of Effect.allow = 0
limit_of Effect.block = 0
limit_of (Effect.time_limit m) = m
limit_of (Effect.notify m) = m

-- `From<Policy> for PolicyData`
unfoldable pub policy_data : (List TimeWindow → String) → Policy → PolicyData
unfolding target_type_of limit_of kind_discriminant
policy_data to_json p = record {
  id = p.id;
  name = p.name;
  effect = kind_discriminant p.effect;
  target_type = target_type_of p.target;
  app_class = elim p.target [
    | PolicyTarget.app a ↦ a
    | PolicyTarget.category _ ↦ no_app
    | PolicyTarget.domain _ ↦ no_app
    | PolicyTarget.any_target ↦ no_app
  ];
  category_name = elim p.target [
    | PolicyTarget.app _ ↦ ""
    | PolicyTarget.category c ↦ Category.name c
    | PolicyTarget.domain _ ↦ ""
    | PolicyTarget.any_target ↦ ""
  ];
  domain_pattern = elim p.target [
    | PolicyTarget.app _ ↦ "?"
    | PolicyTarget.category _ ↦ "?"
    | PolicyTarget.domain d ↦ d
    | PolicyTarget.any_target ↦ "?"
  ];
  priority = p.priority;
  time_limit_minutes = limit_of p.effect;
  schedule_json = to_json p.schedule;
  user_id = p.user_id;
  created_by = p.created_by;
}
