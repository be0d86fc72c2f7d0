-- ===== src/Values/TargetType.antt =====
-- `TargetType` of crates/core/src/domain/policy_types.rs and its code.
use digital_wellbeing.Common.{ℕ, ◌==◌, if◌then◌else◌, Option, none, some}

pub data TargetType : Type 0 where
  app category domain any : TargetType

unfoldable pub to_code : TargetType → ℕ
to_code app = 0
to_code category = 1
to_code domain = 2
to_code any = 3

unfoldable pub try_from : ℕ → Option TargetType
try_from v =
    if v == 0
    then some app
    else if v == 1
    then some category
    else if v == 2
    then some domain
    else if v == 3
    then some any
    else none
