-- ===== src/Store.antt =====
-- The database tables of migrations/2026-07-18-000001_initial_schema/up.sql that hold applications,
-- policies and categories. A table is the list of its rows, and a statement of the DAO modules under
-- crates/daemon/src/store/daos is what its SQL text says of those rows: WHERE is a filter, ORDER BY a
-- stable sort, and a row that violates a CHECK makes the statement fail. An i32 is its 32 bits.
pub mod Apps
pub mod Categories
pub mod Events
pub mod Policies
pub mod Selection
pub mod Usage
use Prim.Native.String.{String}
use digital_wellbeing.Common.{
  ℕ, ◌+◌, ◌-◌, ◌%◌, ◌^◌, Bool, true, false, not, ◌&&◌, ◌||◌, ltb, ◌==◌, if◌then◌else◌, Option, none,
  some, is_some, List,
}
use digital_wellbeing.Common.Eq.{string_eq}
use digital_wellbeing.Values.Blocked.{Uid}

-- `x as i32` of an i64 that is not negative.
abbrev pub as_i32 : ℕ → ℕ
as_i32 n = n % 2 ^ 32

-- Whether the 32 bits are a negative number.
abbrev pub is_negative : ℕ → Bool
is_negative v = not (ltb v (2 ^ 31))

-- `v as u64` of an i32, with the sign extended.
abbrev pub as_u64 : ℕ → ℕ
as_u64 v = if is_negative v then v + (2 ^ 64 - 2 ^ 32) else v

-- A row of `apps`.
pub record AppRow : Type 0 where
  pub id : ℕ
  pub app_class : String

-- A row of `policies`.
pub record PolicyTableRow : Type 0 where
  pub id : ℕ
  pub name : String
  pub priority : ℕ
  pub effect : ℕ
  pub target_type : ℕ
  pub app_id : Option ℕ
  pub category : Option ℕ
  pub domain_pattern : Option String
  pub time_limit_minutes : Option ℕ
  pub user_id : Uid
  pub created_by : Uid

-- A row of `policy_schedules`.
pub record ScheduleRow : Type 0 where
  pub policy_id : ℕ
  pub start_minute : ℕ
  pub end_minute : ℕ
  pub day_mask : ℕ

-- A row of `app_categories`.
pub record CategoryRow : Type 0 where
  pub app_id : ℕ
  pub user_id : Uid
  pub category : ℕ
  pub display_name : Option String
  pub icon_path : Option String
  pub ignore : Bool

pub record Tables : Type 0 where
  pub apps : List AppRow
  pub policies : List PolicyTableRow
  pub schedules : List ScheduleRow
  pub app_categories : List CategoryRow

abbrev pub in_range : ℕ → Option ℕ → Bool
in_range bound none = true
in_range bound (some v) = ltb v bound

-- The CHECK on the target: the column that the target type names is set, the others are NULL.
unfoldable pub check_target : PolicyTableRow → Bool
check_target r =
    let app = is_some r.app_id in
    let category = is_some r.category in
    let domain = is_some r.domain_pattern in
    (r.target_type == 0 && app && not category && not domain)
    || (r.target_type == 1 && not app && category && not domain)
    || (r.target_type == 2 && not app && not category && domain)
    || (r.target_type == 3 && not app && not category && not domain)

-- The CHECKs that a limit is set and positive for the effects that need one, and NULL for the others.
unfoldable pub check_limit : ℕ → Option ℕ → Bool
check_limit effect none = not (effect == 2 || effect == 3)
check_limit effect (some m) =
    not (effect == 0 || effect == 1)
    && (not (effect == 2 || effect == 3) || (not (m == 0) && not (is_negative m)))

-- All the CHECKs of `policies`.
unfoldable pub check_policy : PolicyTableRow → Bool
unfolding check_target check_limit
check_policy r =
    not (string_eq.beq r.name "")
    && not (is_negative r.priority)
    && ltb r.effect 4
    && ltb r.target_type 4
    && in_range 7 r.category
    && check_target r
    && check_limit r.effect r.time_limit_minutes
