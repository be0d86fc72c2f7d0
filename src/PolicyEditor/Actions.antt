-- ===== src/PolicyEditor/Actions.antt =====
-- Everything that can happen to the policy editor, as one type of actions.
use Prim.Native.String.{String}
use digital_wellbeing.Common.{ℕ, Bool, Option, List, [], ◌∷◌}
use digital_wellbeing.Policy.Rows.{PolicyData}
use digital_wellbeing.PolicyEditor.{
  Texts, Editor, new_policy, click_policy, choose_target, choose_kind, choose_category, toggle_day,
  remove_window, add_window,
}
use digital_wellbeing.PolicyEditor.Inputs.{
  ensure_policy_editor_inputs, step_time_limit, step_priority, type_app_class, after_save,
}
use digital_wellbeing.Values.Category.{Category}
use digital_wellbeing.Values.TargetType.{TargetType}

-- What a user, a render or an answer of the daemon does to the editor.
pub data Action : Type 0 where
  press_new render : Action
  click : PolicyData → Action
  target : TargetType → Action
  kind : String → Action
  category : Category → Action
  day remove : ℕ → Action
  add : Option String → Option String → Option String → Option String → Action
  limit_step priority_step saved : Bool → Action
  type_app : String → Action

unfoldable pub act : Texts → Action → Editor → Editor
unfolding new_policy ensure_policy_editor_inputs click_policy choose_target choose_kind
    choose_category toggle_day remove_window add_window step_time_limit step_priority after_save
    type_app_class
act t press_new e = new_policy e
act t render e = ensure_policy_editor_inputs t e
act t (click p) e = click_policy t p e
act t (target c) e = choose_target c e
act t (kind k) e = choose_kind k e
act t (category c) e = choose_category c e
act t (day i) e = toggle_day i e
act t (remove i) e = remove_window i e
act t (add a b c d) e = add_window t a b c d e
act t (limit_step up) e = step_time_limit t up e
act t (priority_step up) e = step_priority t up e
act t (saved ok) e = after_save ok e
act t (type_app text) e = type_app_class text e

unfoldable pub act_all : Texts → List Action → Editor → Editor
unfolding act
act_all t [] e = e
act_all t (a ∷ as_) e = act_all t as_ (act t a e)
