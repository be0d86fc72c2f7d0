-- ===== src/Examples/PolicyEditor.antt =====
-- The policy editor on a policy of an application, with texts of numbers that are read back.
use Prim.Native.String.{String}
use digital_wellbeing.Common.{
  ℕ, zero, suc, ◌≡◌, refl, true, false, none, some, List, [], ◌∷◌, filter, inl, arith,
}
use digital_wellbeing.Policy.{Policy, PolicyTarget, Effect, TimeWindow}
use digital_wellbeing.Policy.Rows.{PolicyData, policy_data}
use digital_wellbeing.PolicyEditor.{Texts, Editor, click_policy}
use digital_wellbeing.PolicyEditor.Inputs.{ensure_policy_editor_inputs, save, same_id}
use digital_wellbeing.PolicyEditor.Reopened.{Updates, save-Updates}
use digital_wellbeing.PolicyEditor.Sections.{
  nth, is_of, item_at, items_count, distinct_types, item_at-of_type,
}
use digital_wellbeing.PolicyEditor.View.{
  PoliciesRound, run_policies, start_policies, disappeared, policy_changed,
}
use digital_wellbeing.PolicyEditor.View.Shown.{screen, last_answers, run_policies-shows}
use digital_wellbeing.PolicyEditor.Actions.{Action, act_all}
use digital_wellbeing.PolicyEditor.Windows.{IsEdit, act_all-IsEdit}
use digital_wellbeing.Values.TargetType.{TargetType}

-- Numbers as that many strokes, and one schedule.
abbrev window : TimeWindow
window = record { start_minute = 540; end_minute = 1020; day_mask = 62 }

strokes : ℕ → String
strokes zero = String.[]
strokes (suc n) = String.◌∷◌ "1" (strokes n)

strokes_read : String → ℕ
strokes_read String.[] = zero
strokes_read (String.◌∷◌ c s) = suc (strokes_read s)

strokes_back : (n : ℕ) → some (strokes_read (strokes n)) ≡ some n
unfolding strokes strokes_read
strokes_back zero = refl
strokes_back (suc n) = ground (arith, strokes_back n)

abbrev texts : Texts
texts = record {
  parse_u16 = λ s. some (strokes_read s);
  parse_i64 = λ s. some (strokes_read s);
  to_text = strokes;
  to_json = λ ws. "[540,1020,62]";
  from_json = λ s. some (window ∷ []);
}

abbrev games : Policy
games = record {
  id = 4;
  name = "games";
  effect = Effect.time_limit 90;
  target = PolicyTarget.app (record { text = "steam" });
  priority = 10;
  schedule = window ∷ [];
  time_limit_minutes = 90;
  user_id = 1000;
  created_by = 0;
}

abbrev closed_editor : Editor
closed_editor = record {
  policy_edit = none;
  policy_edit_id = some 3;
  last_synced_policy_edit_id = none;
  time_limit_input = none;
  app_class_input = none;
  priority_input = none;
}

save-Updates_example :
    let d = policy_data texts.to_json games in
    Updates d
      (save texts 1000 (ensure_policy_editor_inputs texts (click_policy texts d closed_editor)))
unfolding same_id
save-Updates_example =
    save-Updates texts 1000 games closed_editor strokes_back refl refl (inl (refl, refl, refl))

abbrev actions : List Action
actions =
    Action.press_new
    ∷ Action.day 3
    ∷ Action.add (some "1") none (some "111") none
    ∷ Action.remove 1
    ∷ Action.saved false
    ∷ []

act_all-IsEdit_example : IsEdit (act_all texts actions closed_editor).policy_edit
act_all-IsEdit_example =
    act_all-IsEdit texts actions closed_editor (tt, (omega arith, (tt, (tt, (tt, tt))))) tt

abbrev rounds : List PoliciesRound
rounds =
    record {
      has_proxy = true;
      receives = false;
      event = policy_changed;
      repo = record {
        listed_policies = some (policy_data texts.to_json games ∷ []);
        listed_categories = none;
        app_categories = none;
      };
    }
    ∷ record {
      has_proxy = true;
      receives = false;
      event = disappeared;
      repo = record { listed_policies = none; listed_categories = none; app_categories = none };
    }
    ∷ []

run_policies-shows_example :
    (run_policies rounds (start_policies true)).sent ≡ screen true (last_answers true none rounds)
run_policies-shows_example = run_policies-shows true rounds

abbrev listed : List PolicyData
listed =
    policy_data texts.to_json games
    ∷ policy_data texts.to_json (record games { id = 5 })
    ∷ policy_data texts.to_json (record games { id = 6; target = PolicyTarget.any_target })
    ∷ []

second_type : nth 1 (distinct_types listed) ≡ some TargetType.any
unfolding nth distinct_types is_of policy_data
second_type = refl

item_at-of_type_example : item_at listed 1 0 ≡ nth 0 (filter (is_of TargetType.any) listed)
unfolding items_count distinct_types is_of nth policy_data
item_at-of_type_example =
    item_at-of_type listed 1 0 TargetType.any
      ((omega arith, (omega arith, tt)), ((omega arith, tt), (tt, tt))) second_type (omega arith)
