-- ===== src/PolicyEditor/Inputs.antt =====
-- The text inputs of the policy editor: `ensure_policy_editor_inputs` of crates/gui/src/appshell/data.rs, the step
-- buttons, and the buttons `Save` and `Delete` of crates/gui/src/policies/ui/editor/actions.rs.
use Prim.Native.String.{String}
use digital_wellbeing.Common.{
  ℕ, ◌+◌, ◌-◌, max, Bool, true, false, not, ◌==◌, if◌then◌else◌, Option, none, some, is_some,
  unwrap_or,
}
use digital_wellbeing.Policy.Rows.{PolicyInput}
use digital_wellbeing.PolicyEditor.{Texts, PolicyConfigForm, Editor, edit, policy_input_from}
use digital_wellbeing.Values.AppClass
use digital_wellbeing.Values.AppClass.{AppClass}
use digital_wellbeing.Values.Blocked.{Uid, PolicyId}

unfoldable pub same_id : Option PolicyId → Option PolicyId → Bool
same_id none none = true
same_id none (some b) = false
same_id (some a) none = false
same_id (some a) (some b) = a == b

-- A new input starts with the form's value; an input that exists is filled again only if another
-- policy is edited than it was filled for.
unfoldable pub input_text : Bool → String → Option String → Option String
input_text needs_sync desired none = some desired
input_text needs_sync desired (some text) = if needs_sync then some desired else some text

-- The last steps of the function set `last_synced_policy_edit_id` wherever an input was made or filled.
unfoldable pub ensure_policy_editor_inputs : Texts → Editor → Editor
unfolding same_id input_text
ensure_policy_editor_inputs t e = elim e.policy_edit [
  | none ↦ record e { time_limit_input = none; app_class_input = none; priority_input = none }
  | some p ↦
      let form = p.1 in
      let needs_sync =
        if same_id e.last_synced_policy_edit_id e.policy_edit_id
        then false
        else is_some e.time_limit_input in
      let made =
        if is_some e.time_limit_input
        then if is_some e.app_class_input then not (is_some e.priority_input) else true
        else true in
      record e {
        time_limit_input =
            input_text needs_sync (t.to_text form.time_limit_minutes) e.time_limit_input;
        app_class_input = input_text needs_sync form.app_class.text e.app_class_input;
        priority_input = input_text needs_sync (t.to_text form.priority) e.priority_input;
        last_synced_policy_edit_id =
            if made
            then e.policy_edit_id
            else if needs_sync
            then e.policy_edit_id
            else e.last_synced_policy_edit_id;
      }
]

-- The number of an input, or what it counts as.
unfoldable pub number_of : Texts → ℕ → Option String → ℕ
number_of t other none = other
number_of t other (some text) = unwrap_or (t.parse_i64 text) other

-- A step of the time limit, up or down to zero.
unfoldable pub step_time_limit : Texts → Bool → Editor → Editor
unfolding number_of
step_time_limit t up e =
    let cur = number_of t 0 e.time_limit_input in
    let new_val = if up then cur + 1 else max (cur - 1) 0 in
    edit (λ target f. (target, record f { time_limit_minutes = new_val }))
      (record e { time_limit_input = some (t.to_text new_val) })

-- A step of the priority, up or down to one.
unfoldable pub step_priority : Texts → Bool → Editor → Editor
unfolding number_of
step_priority t up e =
    let cur = number_of t 100 e.priority_input in
    let new_val = if up then cur + 1 else max (cur - 1) 1 in
    edit (λ target f. (target, record f { priority = new_val }))
      (record e { priority_input = some (t.to_text new_val) })

-- A change of the text of the application's input.
unfoldable pub type_app_class : String → Editor → Editor
unfolding AppClass.new
type_app_class text e =
    edit (λ target f. (target, record f { app_class = unwrap_or (AppClass.new text) f.app_class }))
      (record e { app_class_input = some text })

-- The form with what the inputs hold.
unfoldable pub read_inputs : Texts → Editor → PolicyConfigForm → PolicyConfigForm
unfolding number_of AppClass.new
read_inputs t e f = record f {
  time_limit_minutes = number_of t 0 e.time_limit_input;
  app_class = unwrap_or (AppClass.new (unwrap_or e.app_class_input "")) f.app_class;
  priority = number_of t 100 e.priority_input;
  schedule_json = t.to_json f.schedules;
}

-- The button `Save`: the call that is sent, of a policy's id to update or of none to create one.
unfoldable pub save : Texts → Uid → Editor → Option (Option PolicyId × PolicyInput)
unfolding read_inputs policy_input_from
save t uid e = elim e.policy_edit [
  | none ↦ none
  | some p ↦ some (e.policy_edit_id, policy_input_from p.0 (read_inputs t e p.1) uid)
]

-- The button `Delete`, and what remains after an answer to it. A failed save keeps the editor open.
unfoldable pub delete : Editor → Option PolicyId
delete e = e.policy_edit_id

unfoldable pub close_editor : Editor → Editor
close_editor e = record e { policy_edit = none; policy_edit_id = none }

unfoldable pub after_save : Bool → Editor → Editor
unfolding close_editor
after_save ok e = if ok then close_editor e else e
