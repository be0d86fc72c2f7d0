-- ===== src/Values/Blocked.antt =====
-- `BlockedAppEntry` of crates/core/src/domain/window_types.rs. User and policy ids are plain numbers.
use digital_wellbeing.Common.{ℕ}
use digital_wellbeing.Values.AppClass.{AppClass}
use digital_wellbeing.Values.BlockReason.{BlockReason}

abbrev pub Uid : Type 0
Uid = ℕ

abbrev pub PolicyId : Type 0
PolicyId = ℕ

pub record BlockedAppEntry : Type 0 where
  pub app_class : AppClass
  pub policy_id : PolicyId
  pub reason : BlockReason
  pub blocked_since : ℕ
