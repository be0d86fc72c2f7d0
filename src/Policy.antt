-- ===== src/Policy.antt =====
-- crates/daemon/src/policy/domain/types.rs, the schedule windows of
-- crates/core/src/domain/policy_types.rs and the evaluation engine of
-- crates/daemon/src/policy/core/evaluator.rs.
pub mod Rows
pub mod Repo
pub mod Admission
pub mod Owners
pub mod Retarget
pub mod Schedule
pub mod Verdict
use Prim.Native.Nat.{bit_and}
use Prim.Native.String.{String}
use digital_wellbeing.Common.{
  ℕ, ◌+◌, ◌*◌, ◌^◌, Bool, true, false, not, ◌&&◌, ◌||◌, ◌==◌, ltb, leb, if◌then◌else◌, Option, none,
  some, is_some, List, [], ◌∷◌, ◌++◌, any,
}
use digital_wellbeing.Values.AppClass.{AppClass}
use digital_wellbeing.Values.Blocked.{Uid, PolicyId}
use digital_wellbeing.Values.Category.{Category}
use digital_wellbeing.Values.DateTime.{DateTime}
use digital_wellbeing.Values.EffectKind.{EffectKind}

pub record TimeWindow : Type 0 where
  pub start_minute : ℕ
  pub end_minute : ℕ
  pub day_mask : ℕ

-- `(now.hour() * 60 + now.minute())`
abbrev pub minute_of_day : DateTime → ℕ
minute_of_day now = now.hour * 60 + now.minute

-- The minute-of-day check, across midnight where the window starts after it ends.
unfoldable pub minute_matches : TimeWindow → ℕ → Bool
minute_matches w minute =
    if ltb w.start_minute w.end_minute
    then leb w.start_minute minute && ltb minute w.end_minute
    else leb w.start_minute minute || ltb minute w.end_minute

-- `self.day_mask & day_bit != 0`
unfoldable pub day_matches : ℕ → ℕ → Bool
day_matches mask day_bit = not (bit_and mask day_bit == 0)

unfoldable pub is_active : TimeWindow → DateTime → Bool
unfolding minute_matches day_matches
is_active w now =
    if not (w.day_mask == 0) && not (day_matches w.day_mask (2 ^ now.weekday))
    then false
    else minute_matches w (minute_of_day now)

pub data Effect : Type 0 where
  allow block : Effect
  time_limit notify : ℕ → Effect

unfoldable pub is_terminating : Effect → Bool
is_terminating (Effect.notify _) = false
is_terminating Effect.allow = true
is_terminating Effect.block = true
is_terminating (Effect.time_limit _) = true

unfoldable pub kind_discriminant : Effect → EffectKind
kind_discriminant Effect.allow = EffectKind.allow
kind_discriminant Effect.block = EffectKind.block
kind_discriminant (Effect.time_limit _) = EffectKind.time_limit
kind_discriminant (Effect.notify _) = EffectKind.notify

pub data PolicyTarget : Type 0 where
  app : AppClass → PolicyTarget
  category : Category → PolicyTarget
  domain : String → PolicyTarget
  any_target : PolicyTarget

pub record Policy : Type 0 where
  pub id : PolicyId
  pub name : String
  pub effect : Effect
  pub target : PolicyTarget
  pub priority : ℕ
  pub schedule : List TimeWindow
  pub time_limit_minutes : ℕ
  pub user_id : Uid
  pub created_by : Uid

pub record EvalResult : Type 0 where
  pub terminating : Option (PolicyId × Effect)
  pub notifies : List (PolicyId × Effect)

-- `EvalResult::is_unrestricted`
unfoldable pub is_unrestricted : EvalResult → Bool
is_unrestricted r = elim r.terminating [
  | some _ ↦ false
  | none ↦ elim r.notifies [ [] ↦ true | _ ∷ _ ↦ false ]
]

-- An empty schedule is always active.
unfoldable pub filter_by_schedule : List TimeWindow → DateTime → Bool
unfolding is_active
filter_by_schedule [] now = true
filter_by_schedule (w ∷ ws) now = any (λ tw. is_active tw now) (w ∷ ws)

-- The `for` loop over the policies, with its two variables. A `break` returns them, a `continue`
-- is the loop over the rest.
eval_loop :
    List Policy → ℕ → DateTime → Option (PolicyId × Effect) → List (PolicyId × Effect) → EvalResult
unfolding filter_by_schedule
eval_loop [] usage_minutes now terminating notifies = record {
  terminating = terminating;
  notifies = notifies;
}
eval_loop (p ∷ ps) usage_minutes now terminating notifies =
    let continue = eval_loop ps usage_minutes now terminating notifies in
    let break : EvalResult = record { terminating = some (p.id, p.effect); notifies = notifies } in
    let pushed = eval_loop ps usage_minutes now terminating (notifies ++ (p.id, p.effect) ∷ []) in
    if not (filter_by_schedule p.schedule now) then continue else elim p.effect [
      | Effect.allow ↦ if is_some terminating then continue else break
      | Effect.block ↦ if is_some terminating then continue else break
      | Effect.time_limit limit_minutes ↦
          if is_some terminating
          then continue
          else if ltb usage_minutes limit_minutes
          then continue
          else break
      | Effect.notify limit_minutes ↦ if leb limit_minutes usage_minutes then pushed else continue
    ]

unfoldable pub evaluate : List Policy → ℕ → DateTime → EvalResult
unfolding eval_loop
evaluate policies usage_minutes now = eval_loop policies usage_minutes now none []
