-- ===== src/Store/Events/Split.antt =====
-- A query of two neighbouring ranges at once.
use digital_wellbeing.Common.{
  ℕ, ◌≤◌, ◌<◌, ◌≡◌, refl, ap, Bool, true, false, ◌&&◌, ◌==◌, leb, ltb, [], ◌∷◌, ◌++◌, filter, All,
  inl, inr, Bool-cases, arith,
}
use digital_wellbeing.Store.{as_i32}
use digital_wellbeing.Store.Events.{EventTable, earlier}
use digital_wellbeing.Store.Usage.Reads.{sort_by, insert_by}
use digital_wellbeing.Usage.Walk.{EventRow}
use digital_wellbeing.Values.Blocked.{Uid}

abbrev pub Before : ℕ → EventTable → Type 0
Before at t = All (λ e. e.1.timestamp < at) t

abbrev pub From : ℕ → EventTable → Type 0
From at t = All (λ e. at ≤ e.1.timestamp) t

abbrev in_range : Uid → ℕ → ℕ → ℕ × EventRow → Bool
in_range uid start finish e =
    e.1.user_id == as_i32 uid && leb start e.1.timestamp && ltb e.1.timestamp finish

-- The rows of a range, in the order of time.
abbrev pub rows_of : Uid → ℕ → ℕ → EventTable → EventTable
rows_of uid start finish t = sort_by earlier (filter (in_range uid start finish) t)

insert_by-Before :
    (at : ℕ) (e : ℕ × EventRow) (t : EventTable)
    → e.1.timestamp < at
    → Before at t
    → Before at (insert_by earlier e t)
unfolding insert_by
insert_by-Before at (id, e) [] lt h = (lt, tt)
insert_by-Before at (id, e) ((jd, g) ∷ t) lt h = elim (Bool-cases (leb e.timestamp g.timestamp)) [
  | inl first ↦ rw first (lt, h)
  | inr later ↦ rw later (h.0, insert_by-Before at (id, e) t lt h.1)
]

insert_by-From :
    (at : ℕ) (e : ℕ × EventRow) (t : EventTable)
    → at ≤ e.1.timestamp
    → From at t
    → From at (insert_by earlier e t)
unfolding insert_by
insert_by-From at (id, e) [] le h = (le, tt)
insert_by-From at (id, e) ((jd, g) ∷ t) le h = elim (Bool-cases (leb e.timestamp g.timestamp)) [
  | inl first ↦ rw first (le, h)
  | inr later ↦ rw later (h.0, insert_by-From at (id, e) t le h.1)
]

pub rows_of-Before :
    (uid : Uid) (start finish : ℕ) (t : EventTable) → Before finish (rows_of uid start finish t)
unfolding sort_by
rows_of-Before uid start finish [] = tt
rows_of-Before uid start finish ((id, e) ∷ t) =
    let rest = rows_of-Before uid start finish t in
    elim (Bool-cases (in_range uid start finish (id, e))) [
      | inl inside ↦
          let lt : e.timestamp < finish = ground arith in
          rw inside (insert_by-Before finish (id, e) (rows_of uid start finish t) lt rest)
      | inr outside ↦ rw outside rest
    ]

rows_of-From :
    (uid : Uid) (start finish : ℕ) (t : EventTable) → From start (rows_of uid start finish t)
unfolding sort_by
rows_of-From uid start finish [] = tt
rows_of-From uid start finish ((id, e) ∷ t) =
    let rest = rows_of-From uid start finish t in
    elim (Bool-cases (in_range uid start finish (id, e))) [
      | inl inside ↦
          let le : start ≤ e.timestamp = ground arith in
          rw inside (insert_by-From start (id, e) (rows_of uid start finish t) le rest)
      | inr outside ↦ rw outside rest
    ]

-- A row goes into the part where its time is.
insert_by-left :
    (at : ℕ) (e : ℕ × EventRow) (a b : EventTable)
    → e.1.timestamp < at
    → From at b
    → insert_by earlier e (a ++ b) ≡ insert_by earlier e a ++ b
unfolding insert_by
insert_by-left at (id, e) [] [] lt h = refl
insert_by-left at (id, e) [] ((jd, g) ∷ b) lt h =
    let first : leb e.timestamp g.timestamp ≡ true = ground arith in rw first refl
insert_by-left at (id, e) ((jd, g) ∷ a) b lt h = elim (Bool-cases (leb e.timestamp g.timestamp)) [
  | inl first ↦ rw first refl
  | inr later ↦ rw later (ap (◌∷◌ (jd, g)) (insert_by-left at (id, e) a b lt h))
]

insert_by-right :
    (at : ℕ) (e : ℕ × EventRow) (a b : EventTable)
    → at ≤ e.1.timestamp
    → Before at a
    → insert_by earlier e (a ++ b) ≡ a ++ insert_by earlier e b
unfolding insert_by
insert_by-right at (id, e) [] b le h = refl
insert_by-right at (id, e) ((jd, g) ∷ a) b le h =
    let later : leb e.timestamp g.timestamp ≡ false = ground arith in
    rw later (ap (◌∷◌ (jd, g)) (insert_by-right at (id, e) a b le h.1))

-- A range that is cut at a moment between its ends.
pub rows_of-append :
    (uid : Uid) (start mid finish : ℕ) (t : EventTable)
    → start ≤ mid
    → mid ≤ finish
    → rows_of uid start finish t ≡ rows_of uid start mid t ++ rows_of uid mid finish t
unfolding sort_by
rows_of-append uid start mid finish [] le le' = refl
rows_of-append uid start mid finish ((id, e) ∷ t) le le' =
    let rest = rows_of-append uid start mid finish t le le' in
    let a = rows_of uid start mid t in
    let b = rows_of uid mid finish t in
    elim (Bool-cases (ltb e.timestamp mid)) [
      | inl early ↦
          let lt : e.timestamp < mid = ground arith in
          let right : in_range uid mid finish (id, e) ≡ false = ground arith in
          elim (Bool-cases (in_range uid start mid (id, e))) [
            | inl inside ↦
                let whole : in_range uid start finish (id, e) ≡ true = ground arith in
                rw (whole, inside, right, rest)
                  (insert_by-left mid (id, e) a b lt (rows_of-From uid mid finish t))
            | inr outside ↦
                let whole : in_range uid start finish (id, e) ≡ false = ground arith in
                rw (whole, outside, right) rest
          ]
      | inr late ↦
          let le'' : mid ≤ e.timestamp = ground arith in
          let left : in_range uid start mid (id, e) ≡ false = ground arith in
          elim (Bool-cases (in_range uid mid finish (id, e))) [
            | inl inside ↦
                let whole : in_range uid start finish (id, e) ≡ true = ground arith in
                rw (whole, inside, left, rest)
                  (insert_by-right mid (id, e) a b le'' (rows_of-Before uid start mid t))
            | inr outside ↦
                let whole : in_range uid start finish (id, e) ≡ false = ground arith in
                rw (whole, outside, left) rest
          ]
    ]
