-- ===== src/PolicyEditor/Sections.antt =====
-- The list of the policies screen: `PolListDelegate` of crates/gui/src/components/policy/mod.rs, with a section for
-- each target type that has a policy.
use digital_wellbeing.Common.{
  ℕ, zero, suc, ◌+◌, ◌<◌, ◌≤◌, ◌≡◌, refl, ◌∙◌, subst, Bool, true, false, ◌==◌, if◌then◌else◌,
  Option, none, some, List, [], ◌∷◌, length, filter, any, All, inl, inr, Bool-cases, Option-cases,
  arith,
}
use digital_wellbeing.Policy.Rows.{PolicyData}
use digital_wellbeing.Values.TargetType
use digital_wellbeing.Values.TargetType.{TargetType}

abbrev pub type_code : PolicyData → ℕ
type_code p = TargetType.to_code p.target_type

unfoldable pub is_of : TargetType → PolicyData → Bool
unfolding TargetType.to_code
is_of t p = TargetType.to_code p.target_type == TargetType.to_code t

unfoldable pub distinct_types : List PolicyData → List TargetType
unfolding is_of
distinct_types policies =
    filter (λ t. any (is_of t) policies)
      (TargetType.app ∷ TargetType.category ∷ TargetType.domain ∷ TargetType.any ∷ [])

-- `get` of a vector.
unfoldable pub nth : {A : Type 0} → ℕ → List A → Option A
nth n [] = none
nth zero (x ∷ xs) = some x
nth (suc n) (x ∷ xs) = nth n xs

unfoldable pub items_count : List PolicyData → ℕ → ℕ
unfolding distinct_types nth is_of
items_count policies section = elim (nth section (distinct_types policies)) [
  | some t ↦ length (filter (is_of t) policies)
  | none ↦ 0
]

-- `position` of the first policy of a type.
unfoldable pub position : TargetType → List PolicyData → Option ℕ
unfolding is_of
position t [] = none
position t (p ∷ ps) =
    let rest = position t ps in
    if is_of t p then some 0 else elim rest [ none ↦ none | some i ↦ some (suc i) ]

-- The policy that `render_item` shows.
unfoldable pub item_at : List PolicyData → ℕ → ℕ → Option PolicyData
unfolding distinct_types nth position
item_at policies section row = elim (nth section (distinct_types policies)) [
  | none ↦ none
  | some t ↦ elim (position t policies) [
    | none ↦ none
    | some global_start ↦ nth (global_start + row) policies
  ]
]

-- The policies in the order of their target types, which the daemon reads them in.
abbrev pub ByType : List PolicyData → Type 0
ByType [] = Unit
ByType (p ∷ ps) = All (λ q. type_code p ≤ type_code q) ps × ByType ps

none_of :
    (t : TargetType) (ps : List PolicyData)
    → All (λ q. TargetType.to_code t < type_code q) ps
    → filter (is_of t) ps ≡ []
unfolding is_of
none_of t [] h = refl
none_of t (p ∷ ps) h =
    let other : is_of t p ≡ false = ground (arith, h.0) in rw other (none_of t ps h.1)

-- The policies after one of a later type have later types.
above :
    (t : TargetType) (p : PolicyData) (ps : List PolicyData)
    → TargetType.to_code t < type_code p
    → All (λ q. type_code p ≤ type_code q) ps
    → All (λ q. TargetType.to_code t < type_code q) ps
above t p [] lt h = tt
above t p (q ∷ ps) lt h = (omega (arith, h.0), above t p ps lt h.1)

-- The policies after one that is of a type, or of no other than a later one.
least_head :
    (t : TargetType) (p : PolicyData) → is_of t p ≡ true → TargetType.to_code t ≤ type_code p
unfolding is_of
least_head t p same = ground arith

least_of :
    (t : TargetType) (p : PolicyData) (ps : List PolicyData)
    → is_of t p ≡ true
    → All (λ q. type_code p ≤ type_code q) ps
    → All (λ q. TargetType.to_code t ≤ type_code q) ps
unfolding is_of
least_of t p [] same h = tt
least_of t p (q ∷ ps) same h = (ground (arith, h.0), least_of t p ps same h.1)

after :
    (t : TargetType) (p : PolicyData) (ps : List PolicyData)
    → is_of t p ≡ false
    → TargetType.to_code t ≤ type_code p
    → All (λ q. type_code p ≤ type_code q) ps
    → All (λ q. TargetType.to_code t < type_code q) ps
unfolding is_of
after t p ps other le h = above t p ps (ground arith) h

-- A filter's first element is there, or not.
kept :
    (t : TargetType) (p : PolicyData) (ps : List PolicyData)
    → is_of t p ≡ true
    → filter (is_of t) (p ∷ ps) ≡ p ∷ filter (is_of t) ps
kept t p ps same = rw same refl

dropped :
    (t : TargetType) (p : PolicyData) (ps : List PolicyData)
    → is_of t p ≡ false
    → filter (is_of t) (p ∷ ps) ≡ filter (is_of t) ps
dropped t p ps other = rw other refl

at_front :
    (row : ℕ) (t : TargetType) (p : PolicyData) (ps : List PolicyData)
    → ((row' : ℕ)
        → row ≡ suc row'
        → row' < length (filter (is_of t) ps)
        → nth row' ps ≡ nth row' (filter (is_of t) ps))
    → row < length (p ∷ filter (is_of t) ps)
    → nth row (p ∷ ps) ≡ nth row (p ∷ filter (is_of t) ps)
unfolding nth
at_front zero t p ps rest lt = refl
at_front (suc row) t p ps rest lt = rest row refl (omega (arith, lt))

-- The first policies are the policies of a type, if no other type comes before.
front :
    (t : TargetType) (row : ℕ) (ps : List PolicyData)
    → ByType ps
    → All (λ q. TargetType.to_code t ≤ type_code q) ps
    → row < length (filter (is_of t) ps)
    → nth row ps ≡ nth row (filter (is_of t) ps)
unfolding nth
front t row [] sorted least lt = refl
front t row (p ∷ ps) sorted least lt = elim (Bool-cases (is_of t p)) [
  | inl same ↦
      let lt' = subst (λ l. row < length l) (kept t p ps same) lt in
      rw (kept t p ps same)
        (at_front row t p ps (λ row' _ below. front t row' ps sorted.1 least.1 below) lt')
  | inr other ↦
      let nothing = dropped t p ps other ∙ none_of t ps (after t p ps other least.0 sorted.0) in
      absurd (omega (arith, subst (λ l. row < length l) nothing lt))
]

-- From the first policy of a type on, the policies of the type follow in their order.
position-front :
    (t : TargetType) (row : ℕ) (ps : List PolicyData) (start : ℕ)
    → ByType ps
    → position t ps ≡ some start
    → row < length (filter (is_of t) ps)
    → nth (start + row) ps ≡ nth row (filter (is_of t) ps)
unfolding nth position
position-front t row [] start sorted found lt = absurd (omega (arith, lt))
position-front t row (p ∷ ps) start sorted found lt = elim (Bool-cases (is_of t p)) [
  | inl same ↦
      let at_start : start + row ≡ row = ground arith in
      rw at_start
        (front t row (p ∷ ps) sorted (least_head t p same, least_of t p ps same sorted.0) lt)
  | inr other ↦
      later t row p ps start (position t ps) other refl
        (λ i at_ below. position-front t row ps i sorted.1 at_ below) found lt
]
  where
    later :
        (t : TargetType) (row : ℕ) (p : PolicyData) (ps : List PolicyData) (start : ℕ)
        (o : Option ℕ)
        → is_of t p ≡ false
        → position t ps ≡ o
        → ((i : ℕ)
            → position t ps ≡ some i
            → row < length (filter (is_of t) ps)
            → nth (i + row) ps ≡ nth row (filter (is_of t) ps))
        → position t (p ∷ ps) ≡ some start
        → row < length (filter (is_of t) (p ∷ ps))
        → nth (start + row) (p ∷ ps) ≡ nth row (filter (is_of t) (p ∷ ps))
    later t row p ps start none other at_ rest found lt = absurd (ground arith)
    later t row p ps start (some i) other at_ rest found lt =
        let is : start + row ≡ suc (i + row) = ground arith in
        rw (is, dropped t p ps other)
          (rest i at_ (subst (λ l. row < length l) (dropped t p ps other) lt))

-- A type that has a policy has a first one.
position-none :
    (t : TargetType) (ps : List PolicyData) → position t ps ≡ none → filter (is_of t) ps ≡ []
unfolding position
position-none t [] h = refl
position-none t (p ∷ ps) h = elim (Bool-cases (is_of t p)) [
  | inl same ↦ absurd (ground arith)
  | inr other ↦ dropped t p ps other ∙ position-none t ps (ground arith)
]

-- A row of a section within its count shows the policy that has this place among the policies
-- of the section's target type, if the policies come in the order of their target types.
pub item_at-of_type :
    (policies : List PolicyData) (section row : ℕ) (t : TargetType)
    → ByType policies
    → nth section (distinct_types policies) ≡ some t
    → row < items_count policies section
    → item_at policies section row ≡ nth row (filter (is_of t) policies)
unfolding item_at items_count
item_at-of_type policies section row t sorted is lt =
    let count : items_count policies section ≡ length (filter (is_of t) policies) =
      rw (items_count, is) refl in
    let lt' : row < length (filter (is_of t) policies) = subst (λ n. row < n) count lt in
    elim (Option-cases (position t policies)) [
      | inl nothing ↦
          absurd (omega (arith, subst (λ l. row < length l) (position-none t policies nothing) lt'))
      | inr (start, found) ↦
          rw (item_at, is, found) (position-front t row policies start sorted found lt')
    ]
