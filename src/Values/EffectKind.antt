-- ===== src/Values/EffectKind.antt =====
-- The wire discriminant `Effect` of crates/core/src/domain/policy_types.rs.
use digital_wellbeing.Common.{ℕ, ◌==◌, if◌then◌else◌, Option, none, some}

pub data EffectKind : Type 0 where
  allow block time_limit notify : EffectKind

unfoldable pub to_code : EffectKind → ℕ
to_code allow = 0
to_code block = 1
to_code time_limit = 2
to_code notify = 3

unfoldable pub try_from : ℕ → Option EffectKind
try_from v =
    if v == 0
    then some allow
    else if v == 1
    then some block
    else if v == 2
    then some time_limit
    else if v == 3
    then some notify
    else none
