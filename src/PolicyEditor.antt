-- ===== src/PolicyEditor.antt =====
-- The client's policy editor: crates/gui/src/policies/domain.rs, the actions of crates/gui/src/policies/ui/editor and
-- crates/gui/src/components/policy, and the inputs of crates/gui/src/appshell/data.rs. The target of a policy has the
-- same variants as the daemon's. Numbers below zero are left out.
pub mod Inputs
pub mod Actions
pub mod Windows
pub mod Reopened
pub mod View
pub mod Sections
use Prim.Native.Nat.{bit_xor}
use Prim.Native.String.{String, ◌++◌ as join}
use text.Mathlib.Text.{◌==◌ as same_text}
use digital_wellbeing.Common.{
  ℕ, zero, suc, ◌+◌, ◌-◌, ◌*◌, ◌^◌, min, max, Bool, false, ◌==◌, ltb, if◌then◌else◌, Option, none,
  some, unwrap_or, List, [], ◌∷◌, ◌++◌, length,
}
use digital_wellbeing.Policy.{PolicyTarget, TimeWindow}
use digital_wellbeing.Policy.Rows.{PolicyInput, PolicyData}
use digital_wellbeing.Values.AppClass
use digital_wellbeing.Values.AppClass.{AppClass}
use digital_wellbeing.Values.Blocked.{Uid, PolicyId}
use digital_wellbeing.Values.Category
use digital_wellbeing.Values.Category.{Category}
use digital_wellbeing.Values.EffectKind.{EffectKind}
use digital_wellbeing.Values.TargetType.{TargetType}

-- What the standard library and serde_json do with texts: `parse` of the two widths, `to_string` of
-- a number, and a schedule as JSON.
pub record Texts : Type 0 where
  pub parse_u16 : String → Option ℕ
  pub parse_i64 : String → Option ℕ
  pub to_text : ℕ → String
  pub to_json : List TimeWindow → String
  pub from_json : String → Option (List TimeWindow)

pub record PolicyConfigForm : Type 0 where
  pub kind : String
  pub time_limit_minutes : ℕ
  pub schedule_json : String
  pub schedules : List TimeWindow
  pub app_class : AppClass
  pub category : Category
  pub priority : ℕ
  pub schedule_new_day_mask : ℕ

abbrev placeholder : AppClass
placeholder = record { text = "_" }

abbrev pub all_days : ℕ
all_days = 0x7F

-- `PolicyConfigForm::default()`
unfoldable pub default_form : PolicyConfigForm
default_form = record {
  kind = "Block";
  time_limit_minutes = 60;
  schedule_json = "[]";
  schedules = [];
  app_class = placeholder;
  category = Category.uncategorized;
  priority = 100;
  schedule_new_day_mask = all_days;
}

unfoldable pub effect_of_kind : String → EffectKind
effect_of_kind kind =
    if same_text kind "Allow"
    then EffectKind.allow
    else if same_text kind "TimeLimit"
    then EffectKind.time_limit
    else if same_text kind "Notify"
    then EffectKind.notify
    else EffectKind.block

-- The name of the input, and the four columns that the target decides.
unfoldable pub input_name : PolicyTarget → PolicyConfigForm → String
unfolding Category.name
input_name (PolicyTarget.app a) form = join "policy-" form.app_class.text
input_name (PolicyTarget.category c) form = join "policy-cat-" (Category.name c)
input_name (PolicyTarget.domain d) form = join "policy-domain-" d
input_name PolicyTarget.any_target form = join "policy-any-" form.kind

unfoldable pub input_target :
    PolicyTarget → PolicyConfigForm → TargetType × AppClass × String × String
unfolding Category.name
input_target (PolicyTarget.app a) form = (TargetType.app, form.app_class, "", "_")
input_target (PolicyTarget.category c) form =
    (TargetType.category, placeholder, Category.name c, "_")
input_target (PolicyTarget.domain d) form = (TargetType.domain, placeholder, "", d)
input_target PolicyTarget.any_target form = (TargetType.any, placeholder, "", "_")

unfoldable pub policy_input_from : PolicyTarget → PolicyConfigForm → Uid → PolicyInput
unfolding effect_of_kind input_name input_target
policy_input_from target form user_id =
    let (target_type, app_class, category_name, domain_pattern) = input_target target form in
    record {
      name = input_name target form;
      effect = effect_of_kind form.kind;
      target_type = target_type;
      app_class = app_class;
      category_name = category_name;
      domain_pattern = domain_pattern;
      priority = form.priority;
      time_limit_minutes = form.time_limit_minutes;
      schedule_json = form.schedule_json;
      user_id = user_id;
    }

-- The part of `App` that the editor reads: what is edited, which policy it is, which one the inputs
-- were last filled for, and the texts of the inputs, once they exist.
pub record Editor : Type 0 where
  pub policy_edit : Option (PolicyTarget × PolicyConfigForm)
  pub policy_edit_id : Option PolicyId
  pub last_synced_policy_edit_id : Option PolicyId
  pub time_limit_input : Option String
  pub app_class_input : Option String
  pub priority_input : Option String

-- A change of what is edited, if anything is.
abbrev pub edit :
    (PolicyTarget → PolicyConfigForm → PolicyTarget × PolicyConfigForm) → Editor → Editor
edit change e = record e {
  policy_edit = elim e.policy_edit [ none ↦ none | some p ↦ some (change p.0 p.1) ];
}

-- The button `New Policy`.
unfoldable pub new_policy : Editor → Editor
unfolding default_form
new_policy e = record e {
  policy_edit_id = none;
  policy_edit = some (PolicyTarget.any_target, default_form);
}

unfoldable pub kind_of_effect : EffectKind → String
kind_of_effect EffectKind.allow = "Allow"
kind_of_effect EffectKind.block = "Block"
kind_of_effect EffectKind.time_limit = "TimeLimit"
kind_of_effect EffectKind.notify = "Notify"

unfoldable pub target_of_data : PolicyData → PolicyTarget
unfolding Category.from_name
target_of_data p = elim p.target_type [
  | TargetType.app ↦ PolicyTarget.app p.app_class
  | TargetType.category ↦ PolicyTarget.category (Category.from_name p.category_name)
  | TargetType.domain ↦ PolicyTarget.domain p.domain_pattern
  | TargetType.any ↦ PolicyTarget.any_target
]

unfoldable pub form_of_data : Texts → PolicyData → PolicyConfigForm
unfolding kind_of_effect Category.from_name
form_of_data t p = record {
  kind = kind_of_effect p.effect;
  time_limit_minutes = p.time_limit_minutes;
  schedule_json = p.schedule_json;
  schedules = unwrap_or (t.from_json p.schedule_json) [];
  app_class = p.app_class;
  category = Category.from_name p.category_name;
  priority = p.priority;
  schedule_new_day_mask = all_days;
}

-- A click on a policy of the list opens it, and a click on the open one closes it.
unfoldable pub click_policy : Texts → PolicyData → Editor → Editor
unfolding target_of_data form_of_data
click_policy t p e =
    if elim e.policy_edit_id [ some id ↦ id == p.id | none ↦ false ]
    then record e { policy_edit_id = none; policy_edit = none }
    else record e {
      policy_edit_id = some p.id;
      policy_edit = some (target_of_data p, form_of_data t p);
    }

-- The buttons for the target, the kind and the category.
unfoldable pub choose_target : TargetType → Editor → Editor
choose_target TargetType.category = edit (λ t f. (PolicyTarget.category f.category, f))
choose_target TargetType.any = edit (λ t f. (PolicyTarget.any_target, f))
choose_target TargetType.app = edit (λ t f. (PolicyTarget.app f.app_class, f))
choose_target TargetType.domain = edit (λ t f. (PolicyTarget.app f.app_class, f))

unfoldable pub choose_kind : String → Editor → Editor
choose_kind kind = edit (λ t f. (t, record f { kind = kind }))

unfoldable pub choose_category : Category → Editor → Editor
choose_category category =
    edit (λ t f. (PolicyTarget.category category, record f { category = category }))

-- The button of a day, by its number from Sunday on.
unfoldable pub toggle_day : ℕ → Editor → Editor
toggle_day i =
    edit (λ t f. (t, record f { schedule_new_day_mask = bit_xor f.schedule_new_day_mask (2 ^ i) }))

-- `schedules.remove(idx)` within the bounds.
unfoldable pub remove_at : ℕ → List TimeWindow → List TimeWindow
remove_at i [] = []
remove_at zero (w ∷ ws) = ws
remove_at (suc i) (w ∷ ws) = w ∷ remove_at i ws

unfoldable pub remove_window : ℕ → Editor → Editor
unfolding remove_at
remove_window i = edit (λ t f. (t, record f { schedules = remove_at i f.schedules }))

-- A number of an input, zero if there is none, cut at the largest.
unfoldable pub clock_part : Texts → ℕ → Option String → ℕ
clock_part t largest none = min 0 largest
clock_part t largest (some text) = min (unwrap_or (t.parse_u16 text) 0) largest

-- The button `Add Window`, with the texts of the four inputs.
unfoldable pub add_window :
    Texts → Option String → Option String → Option String → Option String → Editor → Editor
unfolding clock_part
add_window t start_hour start_min end_hour end_min e =
    let start_minute = clock_part t 23 start_hour * 60 + clock_part t 59 start_min in
    let end_minute = clock_part t 23 end_hour * 60 + clock_part t 59 end_min in
    if start_minute == end_minute
    then e
    else edit
        (λ target f. (
          target,
          record f {
            schedules =
                f.schedules
                ++ record {
                  start_minute = start_minute;
                  end_minute = end_minute;
                  day_mask = f.schedule_new_day_mask;
                }
                  ∷ [];
            schedule_new_day_mask = all_days;
          },
        ))
        e
