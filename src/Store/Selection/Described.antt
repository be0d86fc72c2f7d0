-- ===== src/Store/Selection/Described.antt =====
-- The policies for an application, against a description of the statement's conditions.
use Prim.Native.Nat.{bit_and}
use digital_wellbeing.Common.{
  ℕ, ◌%◌, ◌^◌, ◌≡◌, refl, ◌∙◌, Bool, true, false, not, ◌&&◌, ◌||◌, leb, ltb, ◌==◌, if◌then◌else◌,
  none, some, List, [], ◌∷◌, any, All, inl, inr, Bool-cases, arith,
}
use digital_wellbeing.Store.{PolicyTableRow, ScheduleRow, Tables}
use digital_wellbeing.Store.Policies.{
  before, selected, target_matches, schedules_of, row_matches, schedule_matches,
  resolve_policies_for_app_full,
}
use digital_wellbeing.Store.Selection.{count, IsOrdered, resolve_policies_for_app_full-filters}
use digital_wellbeing.Values.Blocked.{Uid}

-- The policy is for the application, for one of its categories, or for everything.
abbrev pub is_for : ℕ → List ℕ → PolicyTableRow → Bool
is_for app_id categories r =
    if r.target_type == 0
    then elim r.app_id [ some id ↦ id == app_id | none ↦ false ]
    else if r.target_type == 1
    then elim r.category [ some c ↦ any (λ d. d == c) categories | none ↦ false ]
    else r.target_type == 3

-- A schedule that is on at a minute of one of the days: from its start until before its end, or, if
-- it does not end later than it starts, at all minutes but those from its end until before its start.
abbrev pub is_open : ℕ → ℕ → ScheduleRow → Bool
is_open day_mask minute s =
    not (bit_and s.day_mask day_mask == 0)
    && (if leb s.end_minute s.start_minute
        then not (leb s.end_minute minute && ltb minute s.start_minute)
        else leb s.start_minute minute && ltb minute s.end_minute)

-- No schedule is the policy's, or one that is on is.
abbrev pub is_on : ℕ → ℕ → List ScheduleRow → PolicyTableRow → Bool
is_on day_mask minute schedules r =
    not (any (λ s. s.policy_id == r.id) schedules)
    || any (λ s. s.policy_id == r.id && is_open day_mask minute s) schedules

-- By the signed value of 32 bits.
abbrev pub signed_le : ℕ → ℕ → Bool
signed_le a b =
    let positive = ltb (a % 2 ^ 32) (2 ^ 31) in
    let positive' = ltb (b % 2 ^ 32) (2 ^ 31) in
    (not positive && positive')
    || ((positive && positive' || (not positive && not positive')) && leb (a % 2 ^ 32) (b % 2 ^ 32))

-- A smaller target type comes first, and with the same one a priority that is not larger.
abbrev pub comes_first : PolicyTableRow → PolicyTableRow → Bool
comes_first a b =
    if a.target_type == b.target_type
    then signed_le a.priority b.priority
    else leb a.target_type b.target_type

abbrev pub IsInOrder : List PolicyTableRow → Type 0
IsInOrder [] = Unit
IsInOrder (r ∷ rs) = All (λ s. comes_first r s ≡ true) rs × IsInOrder rs

before-comes_first : (a b : PolicyTableRow) → before a b ≡ comes_first a b
unfolding before
before-comes_first a b = ground arith

All-comes_first :
    (r : PolicyTableRow) (rs : List PolicyTableRow)
    → All (λ s. before r s ≡ true) rs
    → All (λ s. comes_first r s ≡ true) rs
All-comes_first r [] h = tt
All-comes_first r (s ∷ ss) h =
    (grind (arith, before-comes_first r s, h.0), All-comes_first r ss h.1)

IsOrdered-IsInOrder : (rs : List PolicyTableRow) → IsOrdered rs → IsInOrder rs
IsOrdered-IsInOrder [] h = tt
IsOrdered-IsInOrder (r ∷ rs) h = (All-comes_first r rs h.0, IsOrdered-IsInOrder rs h.1)

selected-is_for :
    (app_id : ℕ) (categories : List ℕ) (uid : Uid) (r : PolicyTableRow)
    → selected app_id categories uid r ≡ (r.user_id == uid && is_for app_id categories r)
unfolding selected target_matches
selected-is_for app_id categories uid r = ground arith

row_matches-is_open :
    (day_mask minute : ℕ) (s : ScheduleRow)
    → row_matches day_mask minute s ≡ is_open day_mask minute s
unfolding row_matches
row_matches-is_open day_mask minute s = ground arith

abbrev is_empty : List ScheduleRow → Bool
is_empty [] = true
is_empty (s ∷ ss) = false

schedule_matches-any :
    (day_mask minute : ℕ) (ss : List ScheduleRow)
    → schedule_matches day_mask minute ss ≡ (is_empty ss || any (row_matches day_mask minute) ss)
unfolding schedule_matches
schedule_matches-any day_mask minute [] = refl
schedule_matches-any day_mask minute (s ∷ ss) = refl

-- The schedules of a policy among all.
schedules_of-any :
    (day_mask minute id : ℕ) (ss : List ScheduleRow)
    → (is_empty (schedules_of id ss) ≡ not (any (λ s. s.policy_id == id) ss))
      × (any (row_matches day_mask minute) (schedules_of id ss)
          ≡ any (λ s. s.policy_id == id && is_open day_mask minute s) ss)
unfolding schedules_of
schedules_of-any day_mask minute id [] = (refl, refl)
schedules_of-any day_mask minute id (s ∷ ss) =
    let (empty, on) = schedules_of-any day_mask minute id ss in
    elim (Bool-cases (s.policy_id == id)) [
      | inl own ↦ rw (schedules_of, own) (refl, rw (row_matches-is_open day_mask minute s, on) refl)
      | inr other ↦ rw (schedules_of, other) (empty, on)
    ]

schedule_matches-is_on :
    (day_mask minute : ℕ) (ss : List ScheduleRow) (r : PolicyTableRow)
    → schedule_matches day_mask minute (schedules_of r.id ss) ≡ is_on day_mask minute ss r
schedule_matches-is_on day_mask minute ss r =
    let (empty, on) = schedules_of-any day_mask minute r.id ss in
    schedule_matches-any day_mask minute (schedules_of r.id ss) ∙ rw (empty, on) refl

count-alike :
    (p q : PolicyTableRow → Bool) (rs : List PolicyTableRow)
    → ((r : PolicyTableRow) → p r ≡ q r)
    → count p rs ≡ count q rs
count-alike p q [] h = refl
count-alike p q (r ∷ rs) h = rw (h r, count-alike p q rs h) refl

-- The policies for an application are exactly the user's rows that are for the application, one of
-- its categories or everything, and that have no schedule or one that is on at the minute of the
-- day: any test counts as many of them in the result as in the table. They are ordered by target
-- type and then by signed priority.
pub resolve_policies_for_app_full-selects :
    (app_id : ℕ) (categories : List ℕ) (uid : Uid) (day_mask minute : ℕ) (t : Tables)
    (p : PolicyTableRow → Bool)
    → let result = resolve_policies_for_app_full app_id categories uid day_mask minute t in
      (count p result
        ≡ count
            (λ r.
              p r
              && (r.user_id == uid
                  && is_for app_id categories r
                  && is_on day_mask minute t.schedules r))
            t.policies)
      × IsInOrder result
resolve_policies_for_app_full-selects app_id categories uid day_mask minute t p =
    let (counted, sorted) =
      resolve_policies_for_app_full-filters app_id categories uid day_mask minute t p in
    (
      counted
          ∙ count-alike _ _ t.policies (λ r.
            rw
              (
                schedule_matches-is_on day_mask minute t.schedules r,
                selected-is_for app_id categories uid r,
              )
              (ground arith)),
      IsOrdered-IsInOrder _ sorted,
    )
