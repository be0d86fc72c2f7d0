-- ===== src/Values/BlockReason.antt =====
-- `BlockReason` of crates/core/src/domain/window_types.rs and its D-Bus code.
use digital_wellbeing.Common.{ℕ, ◌==◌, if◌then◌else◌, Option, none, some}

pub data BlockReason : Type 0 where
  app_time_limit category_time_limit app_block category_block : BlockReason

unfoldable pub to_code : BlockReason → ℕ
to_code app_time_limit = 0
to_code category_time_limit = 1
to_code app_block = 2
to_code category_block = 3

unfoldable pub try_from : ℕ → Option BlockReason
try_from v =
    if v == 0
    then some app_time_limit
    else if v == 1
    then some category_time_limit
    else if v == 2
    then some app_block
    else if v == 3
    then some category_block
    else none
