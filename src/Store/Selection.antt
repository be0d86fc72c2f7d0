-- ===== src/Store/Selection.antt =====
-- What the selection of an application's policies returns, and in which order.
pub mod Described
use digital_wellbeing.Common.{
  ℕ, ◌+◌, ◌≡◌, refl, ◌∙◌, Bool, true, false, ◌&&◌, if◌then◌else◌, List, [], ◌∷◌, filter, All, inl,
  inr, Bool-cases, arith,
}
use digital_wellbeing.Store.{PolicyTableRow, Tables}
use digital_wellbeing.Store.Policies.{
  before, insert_row, order_rows, selected, schedules_of, schedule_matches,
  resolve_policies_for_app_full,
}
use digital_wellbeing.Values.Blocked.{Uid}

-- How many rows pass a test.
abbrev pub count {ℓ} : {A : Type ℓ} → (A → Bool) → List A → ℕ
count p [] = 0
count p (x ∷ xs) = (if p x then 1 else 0) + count p xs

pub count-filter {ℓ} :
    {A : Type ℓ} (p q : A → Bool) (xs : List A) → count p (filter q xs) ≡ count (λ x. p x && q x) xs
count-filter p q [] = refl
count-filter p q (x ∷ xs) = let rest = count-filter p q xs in ground arith

count-insert_row :
    (p : PolicyTableRow → Bool) (r : PolicyTableRow) (rs : List PolicyTableRow)
    → count p (insert_row r rs) ≡ (if p r then 1 else 0) + count p rs
unfolding insert_row
count-insert_row p r [] = refl
count-insert_row p r (s ∷ ss) = let rest = count-insert_row p r ss in ground arith

pub count-order_rows :
    (p : PolicyTableRow → Bool) (rs : List PolicyTableRow) → count p (order_rows rs) ≡ count p rs
unfolding order_rows
count-order_rows p [] = refl
count-order_rows p (r ∷ rs) =
    ground (arith, count-insert_row p r (order_rows rs), count-order_rows p rs)

-- Every row comes before all that follow it, by target type and priority.
abbrev pub IsOrdered : List PolicyTableRow → Type 0
IsOrdered [] = Unit
IsOrdered (r ∷ rs) = All (λ s. before r s ≡ true) rs × IsOrdered rs

before-total : (a b : PolicyTableRow) → before a b ≡ false → before b a ≡ true
unfolding before
before-total a b h = ground arith

before_trans : (a b c : PolicyTableRow) → before a b ≡ true → before b c ≡ true → before a c ≡ true
unfolding before
before_trans a b c h g = ground arith

All-insert_row :
    (a r : PolicyTableRow) (rs : List PolicyTableRow)
    → before a r ≡ true
    → All (λ s. before a s ≡ true) rs
    → All (λ s. before a s ≡ true) (insert_row r rs)
unfolding insert_row
All-insert_row a r [] h hs = (h, tt)
All-insert_row a r (s ∷ ss) h hs = elim (Bool-cases (before r s)) [
  | inl first ↦ rw first (h, hs)
  | inr later ↦ rw later (hs.0, All-insert_row a r ss h hs.1)
]

All-before :
    (r s : PolicyTableRow) (ss : List PolicyTableRow)
    → before r s ≡ true
    → All (λ u. before s u ≡ true) ss
    → All (λ u. before r u ≡ true) ss
All-before r s [] h hs = tt
All-before r s (u ∷ us) h hs = (before_trans r s u h hs.0, All-before r s us h hs.1)

insert_row-IsOrdered :
    (r : PolicyTableRow) (rs : List PolicyTableRow) → IsOrdered rs → IsOrdered (insert_row r rs)
unfolding insert_row
insert_row-IsOrdered r [] h = (tt, tt)
insert_row-IsOrdered r (s ∷ ss) h = elim (Bool-cases (before r s)) [
  | inl first ↦ rw first ((first, All-before r s ss first h.0), h)
  | inr later ↦
      rw later (All-insert_row s r ss (before-total r s later) h.0, insert_row-IsOrdered r ss h.1)
]

pub order_rows-IsOrdered : (rs : List PolicyTableRow) → IsOrdered (order_rows rs)
unfolding order_rows
order_rows-IsOrdered [] = tt
order_rows-IsOrdered (r ∷ rs) = insert_row-IsOrdered r (order_rows rs) (order_rows-IsOrdered rs)

All-filter :
    (P : PolicyTableRow → Type 0) (q : PolicyTableRow → Bool) (xs : List PolicyTableRow)
    → All P xs
    → All P (filter q xs)
All-filter P q [] h = tt
All-filter P q (x ∷ xs) h = elim (Bool-cases (q x)) [
  | inl kept ↦ rw kept (h.0, All-filter P q xs h.1)
  | inr gone ↦ rw gone (All-filter P q xs h.1)
]

filter-IsOrdered :
    (q : PolicyTableRow → Bool) (rs : List PolicyTableRow) → IsOrdered rs → IsOrdered (filter q rs)
filter-IsOrdered q [] h = tt
filter-IsOrdered q (r ∷ rs) h = elim (Bool-cases (q r)) [
  | inl kept ↦ rw kept (All-filter (λ s. before r s ≡ true) q rs h.0, filter-IsOrdered q rs h.1)
  | inr gone ↦ rw gone (filter-IsOrdered q rs h.1)
]

-- The selection by the code's own tests.
pub resolve_policies_for_app_full-filters :
    (app_id : ℕ) (categories : List ℕ) (uid : Uid) (day_mask minute : ℕ) (t : Tables)
    (p : PolicyTableRow → Bool)
    → let on : PolicyTableRow → Bool =
        λ r. schedule_matches day_mask minute (schedules_of r.id t.schedules) in
      let result = resolve_policies_for_app_full app_id categories uid day_mask minute t in
      (count p result ≡ count (λ r. (p r && on r) && selected app_id categories uid r) t.policies)
      × IsOrdered result
unfolding resolve_policies_for_app_full
resolve_policies_for_app_full-filters app_id categories uid day_mask minute t p =
    let on : PolicyTableRow → Bool =
      λ r. schedule_matches day_mask minute (schedules_of r.id t.schedules) in
    let chosen = filter (selected app_id categories uid) t.policies in
    (
      count-filter p on (order_rows chosen)
          ∙ count-order_rows (λ r. p r && on r) chosen
          ∙ count-filter (λ r. p r && on r) (selected app_id categories uid) t.policies,
      filter-IsOrdered on (order_rows chosen) (order_rows-IsOrdered chosen),
    )
