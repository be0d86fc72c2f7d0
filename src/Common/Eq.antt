-- ===== src/Common/Eq.antt =====
-- Decidable equality as an interface, and its instances for numbers, texts and pairs of keys.
use Prim.Native.Nat.{ℕ}
use Prim.Native.String.{String}
use mathlib.Core.Path.{◌≡◌}
use mathlib.Core.Logic.{◌↔◌}
use mathlib.Core.Bool.{Bool, true, ◌&&◌}
use native.Mathlib.Omega.{arith}
use text.Mathlib.Text.{◌==◌ as same_text}
use text.Mathlib.TextEquality.{eq_iff}
use digital_wellbeing.Common.Tests.{==_iff, ◌==◌ as same_number}

pub record Eq {ℓ} (A : Type ℓ) : Type ℓ where
  pub beq : A → A → Bool
  pub beq_iff : (x y : A) → (beq x y ≡ true) ↔ (x ≡ y)

abbrev pub nat_eq : Eq ℕ
nat_eq = record { beq_iff = ==_iff; beq = same_number }

abbrev pub string_eq : Eq String
string_eq = record { beq_iff = eq_iff; beq = same_text }

module _ {ℓ κ} {A : Type ℓ} {B : Type κ} (ea : Eq A) (eb : Eq B) where
  abbrev pub pair_beq : A × B → A × B → Bool
  pair_beq (a, b) (c, d) = ea.beq a c && eb.beq b d

  pub pair_beq_iff : (x y : A × B) → (pair_beq x y ≡ true) ↔ (x ≡ y)
  pair_beq_iff (a, b) (c, d) = ground (arith, ea.beq_iff a c, eb.beq_iff b d)
