-- ===== src/Values/AppClass.antt =====
-- `AppClass` of crates/core/src/valuetypes.rs: an application identifier, never empty once validated.
use Prim.Native.String.{String}
use digital_wellbeing.Common.{◌≡◌, ◌↔◌, true, Option, none, some, arith}
use digital_wellbeing.Common.Eq.{Eq, string_eq}

pub record AppClass : Type 0 where
  pub text : String

unfoldable pub new : String → Option AppClass
new String.[] = none
new (String.◌∷◌ c s) = some (record { text = String.◌∷◌ c s })

pub beq_iff : (a b : AppClass) → (string_eq.beq a.text b.text ≡ true) ↔ (a ≡ b)
beq_iff a b = ground (arith, string_eq.beq_iff a.text b.text)

abbrev pub app_class_eq : Eq AppClass
app_class_eq = record { beq = λ a b. string_eq.beq a.text b.text; beq_iff = beq_iff }
