-- ===== src/PolicyEditor/Reopened.antt =====
-- A policy that is opened from the list and saved again.
use Prim.Native.String.{String}
use digital_wellbeing.Common.{
  ℕ, ◌≡◌, refl, ap, subst, true, false, ◌==◌, Option, none, some, is_some, unwrap_or, [], ◌⊎◌, inl,
  inr, Option-cases,
}
use digital_wellbeing.Policy.{Policy, PolicyTarget}
use digital_wellbeing.Policy.Rows.{PolicyInput, PolicyData, policy_data, target_type_of}
use digital_wellbeing.PolicyEditor.{
  Texts, PolicyConfigForm, Editor, click_policy, target_of_data, form_of_data, kind_of_effect,
  effect_of_kind, input_target, policy_input_from,
}
use digital_wellbeing.PolicyEditor.Inputs.{
  ensure_policy_editor_inputs, same_id, input_text, number_of, read_inputs, save,
}
use digital_wellbeing.Values.AppClass
use digital_wellbeing.Values.AppClass.{AppClass}
use digital_wellbeing.Values.Blocked.{Uid, PolicyId}
use digital_wellbeing.Values.Category
use digital_wellbeing.Values.Category.{Category, from_name-name}
use digital_wellbeing.Values.EffectKind.{EffectKind}
use digital_wellbeing.Values.TargetType.{TargetType}

-- A printed number is read as that number.
abbrev pub Prints : Texts → Type 0
Prints t = (n : ℕ) → t.parse_i64 (t.to_text n) ≡ some n

effect_of_kind-of_effect : (k : EffectKind) → effect_of_kind (kind_of_effect k) ≡ k
unfolding effect_of_kind kind_of_effect
effect_of_kind-of_effect EffectKind.allow = refl
effect_of_kind-of_effect EffectKind.block = refl
effect_of_kind-of_effect EffectKind.time_limit = refl
effect_of_kind-of_effect EffectKind.notify = refl

same_class : (a : AppClass) → unwrap_or (AppClass.new a.text) a ≡ a
unfolding AppClass.new
same_class a = go a.text
  where
    go : (s : String) → unwrap_or (AppClass.new s) (record { text = s }) ≡ record { text = s }
    go String.[] = refl
    go (String.◌∷◌ c s) = refl

-- The inputs are made or filled when another policy is edited than they were filled for.
abbrev pub Unfilled : PolicyId → Editor → Type 0
Unfilled id e =
    ((e.time_limit_input ≡ none) × (e.app_class_input ≡ none) × (e.priority_input ≡ none))
    ⊎ ((is_some e.time_limit_input ≡ true)
        × (same_id e.last_synced_policy_edit_id (some id) ≡ false))

-- What the inputs hold after they were filled.
abbrev Filled : Texts → PolicyConfigForm → Editor → Type 0
Filled t form e =
    (e.time_limit_input ≡ some (t.to_text form.time_limit_minutes))
    × (e.app_class_input ≡ some form.app_class.text)
    × (e.priority_input ≡ some (t.to_text form.priority))

input_text-filled :
    (desired : String) (o : Option String) → input_text true desired o ≡ some desired
unfolding input_text
input_text-filled desired none = refl
input_text-filled desired (some text) = refl

ensure-Filled :
    (t : Texts) (id : PolicyId) (target : PolicyTarget) (form : PolicyConfigForm) (e : Editor)
    → e.policy_edit ≡ some (target, form)
    → e.policy_edit_id ≡ some id
    → Unfilled id e
    → Filled t form (ensure_policy_editor_inputs t e)
      × ((ensure_policy_editor_inputs t e).policy_edit ≡ some (target, form))
      × ((ensure_policy_editor_inputs t e).policy_edit_id ≡ some id)
unfolding ensure_policy_editor_inputs input_text
ensure-Filled t id target form e editing is (inl (no_limit, no_app, no_priority)) =
    rw (editing, ensure_policy_editor_inputs)
      (rw (no_limit, no_app, no_priority) ((refl, refl, refl), editing, is))
ensure-Filled t id target form e editing is (inr (made, other)) =
    rw (editing, ensure_policy_editor_inputs)
      (rw (is, other, made)
        (
          (
            input_text-filled _ e.time_limit_input,
            input_text-filled _ e.app_class_input,
            input_text-filled _ e.priority_input,
          ),
          editing,
          refl,
        ))

-- What `Save` sends once the inputs are filled.
save-of_inputs :
    (t : Texts) (uid : Uid) (id : PolicyId) (target : PolicyTarget) (form : PolicyConfigForm)
    (e : Editor)
    → Prints t
    → Filled t form e
    → e.policy_edit ≡ some (target, form)
    → e.policy_edit_id ≡ some id
    → save t uid e
      ≡ some (
        some id,
        policy_input_from target (record form { schedule_json = t.to_json form.schedules }) uid,
      )
unfolding save read_inputs number_of
save-of_inputs t uid id target form e prints (limit, app, priority) editing is =
    rw
      (
        editing,
        is,
        limit,
        app,
        priority,
        prints form.time_limit_minutes,
        prints form.priority,
        same_class form.app_class,
      )
      refl

-- A call that updates the policy with the columns it has, but for its name.
abbrev pub Keeps : PolicyData → PolicyInput → Type 0
Keeps d input =
    (input.effect ≡ d.effect)
    × (input.target_type ≡ d.target_type)
    × (input.priority ≡ d.priority)
    × (input.time_limit_minutes ≡ d.time_limit_minutes)
    × (input.schedule_json ≡ d.schedule_json)
    × (elim d.target_type [
      | TargetType.app ↦ input.app_class ≡ d.app_class
      | TargetType.category ↦ input.category_name ≡ d.category_name
      | TargetType.domain ↦ input.domain_pattern ≡ d.domain_pattern
      | TargetType.any ↦ Unit
    ])

abbrev pub Updates : PolicyData → Option (Option PolicyId × PolicyInput) → Type 0
Updates d none = ⊥
Updates d (some (id, input)) = (id ≡ some d.id) × Keeps d input

-- By the target of the policy.
input-Keeps :
    (t : Texts) (uid : Uid) (p : Policy) (o : PolicyTarget)
    → t.from_json (t.to_json p.schedule) ≡ some p.schedule
    → let d = policy_data t.to_json (record p { target = o }) in
      let form = form_of_data t d in
      Keeps d (
        policy_input_from
          (target_of_data d)
          (record form { schedule_json = t.to_json form.schedules })
          uid)
unfolding policy_data target_of_data form_of_data policy_input_from input_target target_type_of
input-Keeps t uid p (PolicyTarget.app a) json =
    (effect_of_kind-of_effect _, refl, refl, refl, ap (λ o. t.to_json (unwrap_or o [])) json, refl)
input-Keeps t uid p (PolicyTarget.category c) json = (
  effect_of_kind-of_effect _,
  refl,
  refl,
  refl,
  ap (λ o. t.to_json (unwrap_or o [])) json,
  ap Category.name (from_name-name c).0,
)
input-Keeps t uid p (PolicyTarget.domain d) json =
    (effect_of_kind-of_effect _, refl, refl, refl, ap (λ o. t.to_json (unwrap_or o [])) json, refl)
input-Keeps t uid p PolicyTarget.any_target json =
    (effect_of_kind-of_effect _, refl, refl, refl, ap (λ o. t.to_json (unwrap_or o [])) json, tt)

-- A click on a policy that is not open opens it.
click-opens :
    (t : Texts) (d : PolicyData) (e : Editor)
    → same_id e.policy_edit_id (some d.id) ≡ false
    → click_policy t d e ≡ record e {
      policy_edit_id = some d.id;
      policy_edit = some (target_of_data d, form_of_data t d);
    }
unfolding click_policy same_id
click-opens t d e other = elim (Option-cases e.policy_edit_id) [
  | inl nothing ↦ rw nothing refl
  | inr (id, is) ↦
      let apart : (id == d.id) ≡ false = subst (λ o. same_id o (some d.id) ≡ false) is other in
      rw (is, apart) refl
]

-- A policy of the daemon that is opened from the list, shown once and saved as it stands is sent as an update of
-- this policy with the effect, the target, the priority, the time limit and the schedule that it has.
-- The policy may not be the open one already, the inputs may not exist yet or were filled for
-- another policy, printed numbers are read back, and the schedule's JSON is read back.
pub save-Updates :
    (t : Texts) (uid : Uid) (p : Policy) (e : Editor)
    → Prints t
    → t.from_json (t.to_json p.schedule) ≡ some p.schedule
    → same_id e.policy_edit_id (some p.id) ≡ false
    → Unfilled p.id e
    → let d = policy_data t.to_json p in
      Updates d (save t uid (ensure_policy_editor_inputs t (click_policy t d e)))
unfolding policy_data
save-Updates t uid p e prints json other unfilled =
    let d = policy_data t.to_json p in
    let opened : Editor = record e {
      policy_edit_id = some p.id;
      policy_edit = some (target_of_data d, form_of_data t d);
    } in
    let (filled, editing, is) =
      ensure-Filled t p.id (target_of_data d) (form_of_data t d) opened refl refl unfilled in
    let sent =
      save-of_inputs t uid p.id (target_of_data d) (form_of_data t d)
        (ensure_policy_editor_inputs t opened) prints filled editing is in
    rw (click-opens t d e other, sent) (refl, input-Keeps t uid p p.target json)
