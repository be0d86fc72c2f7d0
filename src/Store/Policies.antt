-- ===== src/Store/Policies.antt =====
-- crates/daemon/src/store/daos/policies/queries.rs: the statements on `policies` and
-- `policy_schedules`. Rows that the sort key does not tell apart stay in the order of the table.
use Prim.Native.Nat.{bit_and}
use Prim.Native.String.{String}
use digital_wellbeing.Common.{
  ℕ, ◌+◌, ◌%◌, ◌^◌, Bool, true, false, not, ◌&&◌, ◌||◌, leb, ltb, ◌==◌, if◌then◌else◌, Option, none,
  some, is_some, unwrap_or, List, [], ◌∷◌, ◌++◌, any, filter,
}
use digital_wellbeing.Common.Eq.{string_eq}
use digital_wellbeing.Store.{PolicyTableRow, ScheduleRow, Tables, check_policy}
use digital_wellbeing.Values.Blocked.{Uid}

-- The row with an id.
unfoldable pub find_policy : ℕ → List PolicyTableRow → Option PolicyTableRow
find_policy id [] = none
find_policy id (r ∷ rs) = if r.id == id then some r else find_policy id rs

-- `none` is the error for a policy that does not exist.
unfoldable pub get_policy_user : ℕ → Tables → Option Uid
unfolding find_policy
get_policy_user id t = elim (find_policy id t.policies) [ some r ↦ some r.user_id | none ↦ none ]

-- The WHERE clause: the user's policies for the application, for one of its categories or for all.
unfoldable pub target_matches : ℕ → List ℕ → PolicyTableRow → Bool
target_matches app_id categories r =
    (r.target_type == 0 && elim r.app_id [ some id ↦ id == app_id | none ↦ false ])
    || r.target_type == 3
    || (r.target_type == 1
        && elim r.category [ some c ↦ any (λ d. d == c) categories | none ↦ false ])

unfoldable pub selected : ℕ → List ℕ → Uid → PolicyTableRow → Bool
unfolding target_matches
selected app_id categories uid r = r.user_id == uid && target_matches app_id categories r

-- `ORDER BY target_type ASC, priority ASC`; a signed column is compared from the smallest i32 on.
abbrev pub i32_key : ℕ → ℕ
i32_key v = (v + 2 ^ 31) % 2 ^ 32

unfoldable pub before : PolicyTableRow → PolicyTableRow → Bool
before a b =
    ltb a.target_type b.target_type
    || (a.target_type == b.target_type && leb (i32_key a.priority) (i32_key b.priority))

unfoldable pub insert_row : PolicyTableRow → List PolicyTableRow → List PolicyTableRow
unfolding before
insert_row r [] = r ∷ []
insert_row r (s ∷ ss) = if before r s then r ∷ s ∷ ss else s ∷ insert_row r ss

unfoldable pub order_rows : List PolicyTableRow → List PolicyTableRow
unfolding insert_row
order_rows [] = []
order_rows (r ∷ rs) = insert_row r (order_rows rs)

-- The rows of `load_schedules` for one of the policies, which `schedule_map` holds for its id.
unfoldable pub schedules_of : ℕ → List ScheduleRow → List ScheduleRow
schedules_of id rows = filter (λ s. s.policy_id == id) rows

unfoldable pub row_matches : ℕ → ℕ → ScheduleRow → Bool
row_matches day_mask minute s =
    let day_match = not (bit_and s.day_mask day_mask == 0) in
    let time_match =
      if ltb s.start_minute s.end_minute
      then leb s.start_minute minute && ltb minute s.end_minute
      else leb s.start_minute minute || ltb minute s.end_minute in
    day_match && time_match

-- No schedule row is always active.
unfoldable pub schedule_matches : ℕ → ℕ → List ScheduleRow → Bool
unfolding row_matches
schedule_matches day_mask minute [] = true
schedule_matches day_mask minute (s ∷ ss) = any (row_matches day_mask minute) (s ∷ ss)

unfoldable pub resolve_policies_for_app_full :
    ℕ → List ℕ → Uid → ℕ → ℕ → Tables → List PolicyTableRow
unfolding selected order_rows schedules_of schedule_matches
resolve_policies_for_app_full app_id categories uid day_mask minute t =
    filter (λ r. schedule_matches day_mask minute (schedules_of r.id t.schedules))
      (order_rows (filter (selected app_id categories uid) t.policies))

-- All policies for root, the user's own otherwise.
unfoldable pub read_policies : Bool → Uid → Tables → List PolicyTableRow
unfolding order_rows
read_policies caller_root user_id t =
    if caller_root
    then order_rows t.policies
    else order_rows (filter (λ r. r.user_id == user_id) t.policies)

-- `NewPolicy` of crates/daemon/src/policy/data/insert.rs; the id is the database's choice.
pub record NewPolicy : Type 0 where
  pub name : String
  pub priority : ℕ
  pub effect : ℕ
  pub target_type : ℕ
  pub app_id : Option ℕ
  pub category : Option ℕ
  pub domain_pattern : Option String
  pub time_limit_minutes : Option ℕ
  pub user_id : Uid
  pub created_by : Uid

unfoldable pub new_row : ℕ → NewPolicy → PolicyTableRow
new_row id new = record {
  id = id;
  name = new.name;
  priority = new.priority;
  effect = new.effect;
  target_type = new.target_type;
  app_id = new.app_id;
  category = new.category;
  domain_pattern = new.domain_pattern;
  time_limit_minutes = new.time_limit_minutes;
  user_id = new.user_id;
  created_by = new.created_by;
}

-- INSERT, which fails if a CHECK does.
unfoldable pub create_policy : ℕ → NewPolicy → Tables → Option (ℕ × Tables)
unfolding new_row check_policy
create_policy id new t =
    if check_policy (new_row id new)
    then some (id, record t { policies = t.policies ++ new_row id new ∷ [] })
    else none

-- `UpdatePolicy` of crates/daemon/src/policy/data/insert.rs.
pub record UpdatePolicy : Type 0 where
  pub name : Option String
  pub priority : Option ℕ
  pub effect : Option ℕ
  pub target_type : Option ℕ
  pub app_id : Option ℕ
  pub category : Option ℕ
  pub domain_pattern : Option (Option String)
  pub time_limit_minutes : Option (Option ℕ)

-- A SET clause of a nullable column from an optional change.
abbrev set_some : Option ℕ → Option ℕ → Option ℕ
set_some none old = old
set_some (some v) old = some v

-- The SET clauses on one row; a column without a change keeps its value.
unfoldable pub set_columns : UpdatePolicy → PolicyTableRow → PolicyTableRow
set_columns changes r = record r {
  name = unwrap_or changes.name r.name;
  priority = unwrap_or changes.priority r.priority;
  effect = unwrap_or changes.effect r.effect;
  target_type = unwrap_or changes.target_type r.target_type;
  app_id = set_some changes.app_id r.app_id;
  category = set_some changes.category r.category;
  domain_pattern = unwrap_or changes.domain_pattern r.domain_pattern;
  time_limit_minutes = unwrap_or changes.time_limit_minutes r.time_limit_minutes;
}

abbrev has_changes : UpdatePolicy → Bool
has_changes c =
    is_some c.name
    || is_some c.priority
    || is_some c.effect
    || is_some c.target_type
    || is_some c.app_id
    || is_some c.category
    || is_some c.domain_pattern
    || is_some c.time_limit_minutes

-- UPDATE of the rows with the id, which fails if a CHECK fails on one of them.
unfoldable pub update_rows : ℕ → UpdatePolicy → List PolicyTableRow → Option (List PolicyTableRow)
unfolding set_columns check_policy
update_rows id changes [] = some []
update_rows id changes (r ∷ rs) = elim (update_rows id changes rs) [
  | none ↦ none
  | some rest ↦
      if r.id == id
      then if check_policy (set_columns changes r)
        then some (set_columns changes r ∷ rest)
        else none
      else some (r ∷ rest)
]

unfoldable pub update_policy : ℕ → UpdatePolicy → Tables → Option (Bool × Tables)
unfolding find_policy update_rows
update_policy id changes t =
    if has_changes changes
    then elim (update_rows id changes t.policies) [
      | some rows ↦ some (is_some (find_policy id t.policies), record t { policies = rows })
      | none ↦ none
    ]
    else some (false, t)

unfoldable pub resolve_category_name_to_discriminant : String → Option ℕ
resolve_category_name_to_discriminant name =
    if string_eq.beq name ""
    then none
    else if string_eq.beq name "Productivity"
    then some 0
    else if string_eq.beq name "Communication"
    then some 1
    else if string_eq.beq name "Entertainment"
    then some 2
    else if string_eq.beq name "Social"
    then some 3
    else if string_eq.beq name "Development"
    then some 4
    else if string_eq.beq name "Utilities"
    then some 5
    else if string_eq.beq name "Uncategorized"
    then some 6
    else none

-- DELETE of the rows with the id, and whether there was one.
unfoldable pub delete_policy : ℕ → Tables → Bool × Tables
unfolding find_policy
delete_policy id t = (
  is_some (find_policy id t.policies),
  record t { policies = filter (λ r. not (r.id == id)) t.policies },
)
