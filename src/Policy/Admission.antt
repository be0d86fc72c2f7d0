-- ===== src/Policy/Admission.antt =====
-- Which inputs the database accepts as a policy, and which changes of a policy it refuses.
use Prim.Native.String.{String}
use digital_wellbeing.Common.{
  ℕ, ◌≡◌, refl, Bool, true, false, not, ◌&&◌, ◌==◌, if◌then◌else◌, none, some, is_some,
}
use digital_wellbeing.Common.Eq.{string_eq}
use digital_wellbeing.Policy.Rows.{PolicyInput}
use digital_wellbeing.Store.{as_i32, is_negative}
use digital_wellbeing.Store.Policies.{resolve_category_name_to_discriminant}
use digital_wellbeing.Values.EffectKind
use digital_wellbeing.Values.EffectKind.{EffectKind}
use digital_wellbeing.Values.TargetType
use digital_wellbeing.Values.TargetType.{TargetType}

-- A limit that is positive as an i32.
abbrev is_limit : ℕ → Bool
is_limit minutes = not (as_i32 minutes == 0) && not (is_negative (as_i32 minutes))

abbrev limit_fits : EffectKind → ℕ → Bool
limit_fits EffectKind.allow minutes = true
limit_fits EffectKind.block minutes = true
limit_fits EffectKind.time_limit minutes = is_limit minutes
limit_fits EffectKind.notify minutes = is_limit minutes

abbrev category_fits : TargetType → String → Bool
category_fits TargetType.app name = true
category_fits TargetType.category name = is_some (resolve_category_name_to_discriminant name)
category_fits TargetType.domain name = true
category_fits TargetType.any name = true

-- A name, a priority that is not negative as an i32, a positive limit for the effects that have
-- one, and a known category for a category policy.
abbrev pub admissible : PolicyInput → Bool
admissible input =
    not (string_eq.beq input.name "")
    && not (is_negative (as_i32 input.priority))
    && limit_fits input.effect input.time_limit_minutes
    && category_fits input.target_type input.category_name

pub created_if {ℓ} : {A : Type ℓ} (c : Bool) (a : A) → is_some (if c then some a else none) ≡ c
created_if true a = refl
created_if false a = refl
