-- ===== src/Examples/Policy.antt =====
-- Evaluations after the tests of crates/daemon/src/policy/core/evaluator.rs.
use digital_wellbeing.Common.{ℕ, ◌≡◌, refl, true, false, none, some, List, [], ◌∷◌, arith}
use digital_wellbeing.Policy.{Policy, Effect, PolicyTarget, TimeWindow, evaluate, is_active}
use digital_wellbeing.Policy.Verdict.{
  Described, restricts, evaluate-Described, evaluate-restricts_mono,
}
use digital_wellbeing.Values.DateTime.{DateTime}

-- Friday 2026-07-17, 10:00.
abbrev friday_ten : DateTime
friday_ten = record { millis = 1784282400000; date = 20651; weekday = 5; hour = 10; minute = 0 }

abbrev policy : ℕ → Effect → ℕ → List TimeWindow → Policy
policy id effect priority schedule = record {
  id = id;
  name = "p";
  effect = effect;
  target = PolicyTarget.any_target;
  priority = priority;
  schedule = schedule;
  time_limit_minutes = 0;
  user_id = 1000;
  created_by = 1000;
}

abbrev night : TimeWindow
night = record { start_minute = 1320; end_minute = 360; day_mask = 0 }

abbrev office_friday : TimeWindow
office_friday = record { start_minute = 540; end_minute = 1020; day_mask = 32 }

abbrev mixed : List Policy
mixed =
    policy 1 (Effect.notify 30) 100 []
    ∷ policy 2 (Effect.time_limit 60) 150 (office_friday ∷ [])
    ∷ policy 3 (Effect.notify 20) 200 []
    ∷ []

mixed_over :
    evaluate mixed 70 friday_ten
    ≡ record { terminating = some (2, Effect.time_limit 60); notifies = (1, Effect.notify 30) ∷ [] }
unfolding evaluate
mixed_over = refl

mixed_under :
    evaluate mixed 45 friday_ten
    ≡ record { terminating = none; notifies = (1, Effect.notify 30) ∷ (3, Effect.notify 20) ∷ [] }
unfolding evaluate
mixed_under = refl

friday_active : is_active office_friday friday_ten ≡ true
unfolding is_active
friday_active = refl

night_inactive : is_active night friday_ten ≡ false
unfolding is_active
night_inactive = refl

evaluate-Described_example : evaluate mixed 70 friday_ten ≡ Described mixed 70 friday_ten []
evaluate-Described_example = evaluate-Described mixed 70 friday_ten

evaluate-restricts_mono_example : restricts (evaluate mixed 90 friday_ten).terminating ≡ true
unfolding evaluate
evaluate-restricts_mono_example =
    evaluate-restricts_mono mixed 70 90 friday_ten (omega arith) (refl, (refl, (refl, tt))) refl
