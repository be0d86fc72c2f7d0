-- ===== src/PolicyEditor/Windows.antt =====
-- The schedule windows that the policy editor can produce, over everything a user can do in it.
use Prim.Native.Nat.{bit_xor}
use Prim.Native.String.{String}
use digital_wellbeing.Common.{
  ℕ, zero, suc, ◌+◌, ◌-◌, ◌*◌, ◌^◌, ◌<◌, ◌≤◌, ◌≡◌, ◌≢◌, refl, max, true, false, ◌==◌, if◌then◌else◌,
  Option, none, some, unwrap_or, List, [], ◌∷◌, ◌++◌, All, inl, inr, Bool-cases, Option-cases,
  arith,
}
use digital_wellbeing.Policy.{PolicyTarget, TimeWindow}
use digital_wellbeing.Policy.Rows.{PolicyData}
use digital_wellbeing.PolicyEditor.{
  Texts, PolicyConfigForm, Editor, edit, default_form, new_policy, form_of_data, click_policy,
  choose_target, choose_kind, choose_category, toggle_day, remove_at, remove_window, clock_part,
  add_window, all_days,
}
use digital_wellbeing.PolicyEditor.Inputs.{
  ensure_policy_editor_inputs, step_time_limit, step_priority, type_app_class, after_save,
  close_editor, number_of,
}
use digital_wellbeing.Values.AppClass
use digital_wellbeing.Values.TargetType.{TargetType}
use digital_wellbeing.PolicyEditor.Actions.{
  Action, act, act_all, press_new, render, click, target, kind, category, day, remove, add,
  limit_step, priority_step, saved, type_app,
}

-- A window within a day that is neither empty nor whole, on days of the week.
abbrev pub IsWindow : TimeWindow → Type 0
IsWindow w =
    (w.start_minute < 1440)
    × (w.end_minute < 1440)
    × (w.start_minute ≢ w.end_minute)
    × (w.day_mask < 128)

abbrev pub IsForm : PolicyConfigForm → Type 0
IsForm f = All IsWindow f.schedules × (f.schedule_new_day_mask < 128)

abbrev pub IsEdit : Option (PolicyTarget × PolicyConfigForm) → Type 0
IsEdit none = Unit
IsEdit (some p) = IsForm p.1

-- The policies that are opened have proper schedules, and the seven day buttons are pressed.
abbrev pub Allowed : Texts → Action → Type 0
Allowed t press_new = Unit
Allowed t render = Unit
Allowed t (click p) = All IsWindow (unwrap_or (t.from_json p.schedule_json) [])
Allowed t (target c) = Unit
Allowed t (kind k) = Unit
Allowed t (category c) = Unit
Allowed t (day i) = i < 7
Allowed t (remove i) = Unit
Allowed t (add a b c d) = Unit
Allowed t (limit_step up) = Unit
Allowed t (priority_step up) = Unit
Allowed t (saved ok) = Unit
Allowed t (type_app text) = Unit

-- A change of the form that keeps it proper.
edit-IsEdit :
    (change : PolicyTarget → PolicyConfigForm → PolicyTarget × PolicyConfigForm) (e : Editor)
    → ((t : PolicyTarget) (f : PolicyConfigForm) → IsForm f → IsForm (change t f).1)
    → IsEdit e.policy_edit
    → IsEdit (edit change e).policy_edit
edit-IsEdit change e keeps h = keep e.policy_edit h
  where
    keep :
        (o : Option (PolicyTarget × PolicyConfigForm))
        → IsEdit o
        → IsEdit (elim o [ none ↦ none | some p ↦ some (change p.0 p.1) ])
    keep none h = tt
    keep (some p) h = keeps p.0 p.1 h

-- The largest value of a function on the numbers below one.
peak : (ℕ → ℕ) → ℕ → ℕ
peak f zero = 0
peak f (suc n) = max (peak f n) (f n)

le_peak : (f : ℕ → ℕ) (n k : ℕ) → k < n → f k ≤ peak f n
unfolding peak
le_peak f zero k lt = absurd (omega arith)
le_peak f (suc n) k lt = ground (arith, le_peak f n k)

-- Turning one of seven bits in every mask of seven bits, by evaluation.
highest : peak (λ i. peak (λ mask. bit_xor mask (2 ^ i)) 128) 7 ≡ 127
unfolding peak
highest = refl

toggle_bounds : (i m : ℕ) → i < 7 → m < 128 → bit_xor m (2 ^ i) < 128
toggle_bounds i m le lt = omega (
  arith,
  highest,
  le_peak (λ mask. bit_xor mask (2 ^ i)) 128 m lt,
  le_peak (λ j. peak (λ mask. bit_xor mask (2 ^ j)) 128) 7 i le,
)

remove_at-All : (i : ℕ) (ws : List TimeWindow) → All IsWindow ws → All IsWindow (remove_at i ws)
unfolding remove_at
remove_at-All i [] h = tt
remove_at-All zero (w ∷ ws) h = h.1
remove_at-All (suc i) (w ∷ ws) h = (h.0, remove_at-All i ws h.1)

push-All :
    (ws : List TimeWindow) (w : TimeWindow)
    → All IsWindow ws
    → IsWindow w
    → All IsWindow (ws ++ w ∷ [])
push-All [] w h is = (is, tt)
push-All (v ∷ ws) w h is = (h.0, push-All ws w h.1 is)

clock_part-le : (t : Texts) (largest : ℕ) (o : Option String) → clock_part t largest o ≤ largest
unfolding clock_part
clock_part-le t largest none = omega arith
clock_part-le t largest (some text) = omega arith

add_window-IsEdit :
    (t : Texts) (a b c d : Option String) (e : Editor)
    → IsEdit e.policy_edit
    → IsEdit (add_window t a b c d e).policy_edit
unfolding add_window
add_window-IsEdit t a b c d e h =
    let start_minute = clock_part t 23 a * 60 + clock_part t 59 b in
    let end_minute = clock_part t 23 c * 60 + clock_part t 59 d in
    let early : start_minute < 1440 = omega (arith, clock_part-le t 23 a, clock_part-le t 59 b) in
    let late : end_minute < 1440 = omega (arith, clock_part-le t 23 c, clock_part-le t 59 d) in
    elim (Bool-cases (start_minute == end_minute)) [
      | inl same ↦ rw same h
      | inr differ ↦
          let apart : start_minute ≢ end_minute = ground arith in
          rw differ (
            edit-IsEdit
              (λ target f. (
                target,
                record f {
                  schedules =
                      f.schedules
                      ++ record {
                        start_minute = start_minute;
                        end_minute = end_minute;
                        day_mask = f.schedule_new_day_mask;
                      }
                        ∷ [];
                  schedule_new_day_mask = all_days;
                },
              ))
              e
              (λ target f is. (
                push-All f.schedules
                    (record {
                      start_minute = start_minute;
                      end_minute = end_minute;
                      day_mask = f.schedule_new_day_mask;
                    })
                    is.0 (early, late, apart, is.1),
                omega arith,
              ))
              h)
    ]

click-IsEdit :
    (t : Texts) (p : PolicyData) (e : Editor)
    → All IsWindow (unwrap_or (t.from_json p.schedule_json) [])
    → IsEdit (click_policy t p e).policy_edit
unfolding click_policy form_of_data
click-IsEdit t p e h =
    elim (Bool-cases (elim e.policy_edit_id [ some id ↦ id == p.id | none ↦ false ])) [
      | inl closes ↦ rw closes tt
      | inr opens ↦ rw opens (h, omega arith)
    ]

same_form :
    (change : PolicyTarget → PolicyConfigForm → PolicyTarget) (e : Editor)
    → IsEdit e.policy_edit
    → IsEdit (edit (λ t f. (change t f, f)) e).policy_edit
same_form change e h = edit-IsEdit (λ t f. (change t f, f)) e (λ t f is. is) h

render-IsEdit :
    (t : Texts) (e : Editor)
    → IsEdit e.policy_edit
    → IsEdit (ensure_policy_editor_inputs t e).policy_edit
unfolding ensure_policy_editor_inputs
render-IsEdit t e h = elim (Option-cases e.policy_edit) [
  | inl nothing ↦ rw (nothing, ensure_policy_editor_inputs) h
  | inr (p, editing) ↦ rw (editing, ensure_policy_editor_inputs) h
]

act-IsEdit :
    (t : Texts) (a : Action) (e : Editor)
    → Allowed t a
    → IsEdit e.policy_edit
    → IsEdit (act t a e).policy_edit
unfolding act new_policy default_form choose_target choose_kind choose_category toggle_day
    remove_window step_time_limit step_priority type_app_class after_save close_editor
act-IsEdit t press_new e ok h = (tt, omega arith)
act-IsEdit t render e ok h = render-IsEdit t e h
act-IsEdit t (click p) e ok h = click-IsEdit t p e ok
act-IsEdit t (target TargetType.category) e ok h = same_form _ e h
act-IsEdit t (target TargetType.any) e ok h = same_form _ e h
act-IsEdit t (target TargetType.app) e ok h = same_form _ e h
act-IsEdit t (target TargetType.domain) e ok h = same_form _ e h
act-IsEdit t (kind k) e ok h = edit-IsEdit _ e (λ target f is. is) h
act-IsEdit t (category c) e ok h = edit-IsEdit _ e (λ target f is. is) h
act-IsEdit t (day i) e ok h =
    edit-IsEdit _ e (λ target f is. (is.0, toggle_bounds i f.schedule_new_day_mask ok is.1)) h
act-IsEdit t (remove i) e ok h =
    edit-IsEdit _ e (λ target f is. (remove_at-All i f.schedules is.0, is.1)) h
act-IsEdit t (add a b c d) e ok h = add_window-IsEdit t a b c d e h
act-IsEdit t (limit_step up) e ok h =
    let cur = number_of t 0 e.time_limit_input in
    let new_val = if up then cur + 1 else max (cur - 1) 0 in
    edit-IsEdit (λ target f. (target, record f { time_limit_minutes = new_val }))
      (record e { time_limit_input = some (t.to_text new_val) }) (λ target f is. is) h
act-IsEdit t (priority_step up) e ok h =
    let cur = number_of t 100 e.priority_input in
    let new_val = if up then cur + 1 else max (cur - 1) 1 in
    edit-IsEdit (λ target f. (target, record f { priority = new_val }))
      (record e { priority_input = some (t.to_text new_val) }) (λ target f is. is) h
act-IsEdit t (saved true) e ok h = tt
act-IsEdit t (saved false) e ok h = h
act-IsEdit t (type_app text) e ok h =
    edit-IsEdit
      (λ target f. (target, record f { app_class = unwrap_or (AppClass.new text) f.app_class }))
      (record e { app_class_input = some text }) (λ target f is. is) h

-- Whatever is done in the editor, in any order, every schedule window of the form starts and ends within a
-- day, does not end where it starts, and has a mask of seven days; so has the mask for the next window. The policies
-- that are opened may have such windows only.
pub act_all-IsEdit :
    (t : Texts) (actions : List Action) (e : Editor)
    → All (Allowed t) actions
    → IsEdit e.policy_edit
    → IsEdit (act_all t actions e).policy_edit
unfolding act_all
act_all-IsEdit t [] e ok h = h
act_all-IsEdit t (a ∷ actions) e ok h =
    act_all-IsEdit t actions (act t a e) ok.1 (act-IsEdit t a e ok.0 h)
