-- ===== src/Values/WindowTitle.antt =====
-- `WindowTitle` of crates/core/src/valuetypes.rs: a title cut to its first 256 characters.
use Prim.Native.String.{String}
use digital_wellbeing.Common.{ℕ, zero, suc}

pub record WindowTitle : Type 0 where
  pub text : String

-- `chars().take(n)`
unfoldable pub take_chars : ℕ → String → String
take_chars zero s = String.[]
take_chars (suc n) String.[] = String.[]
take_chars (suc n) (String.◌∷◌ c s) = String.◌∷◌ c (take_chars n s)

unfoldable pub new : String → WindowTitle
unfolding take_chars
new s = record { text = take_chars 256 s }
