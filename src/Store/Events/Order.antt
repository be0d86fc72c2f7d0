-- ===== src/Store/Events/Order.antt =====
-- The event rows that the queries read, in the order of time.
use digital_wellbeing.Common.{
  ℕ, ◌≤◌, ◌≡◌, Bool, true, leb, [], ◌∷◌, filter, inl, inr, Bool-cases, arith,
}
use digital_wellbeing.Store.Events.{EventTable, earlier}
use digital_wellbeing.Store.Usage.Reads.{sort_by, insert_by}
use digital_wellbeing.Usage.Walk.{EventRow}

-- The rows are in the order of their times, from a moment on and up to another.
abbrev pub Ordered : ℕ → EventTable → ℕ → Type 0
Ordered from [] to = from ≤ to
Ordered from ((id, e) ∷ es) to = (from ≤ e.timestamp) × Ordered e.timestamp es to

pub Ordered-le : (from to : ℕ) (es : EventTable) → Ordered from es to → from ≤ to
Ordered-le from to [] h = h
Ordered-le from to ((id, e) ∷ es) h = omega (arith, Ordered-le e.timestamp to es h.1)

insert_by-Ordered :
    (from to : ℕ) (e : ℕ × EventRow) (es : EventTable)
    → from ≤ e.1.timestamp
    → e.1.timestamp ≤ to
    → Ordered from es to
    → Ordered from (insert_by earlier e es) to
unfolding insert_by
insert_by-Ordered from to (id, e) [] le ge h = (le, ge)
insert_by-Ordered from to (id, e) ((jd, f) ∷ fs) le ge h =
    elim (Bool-cases (leb e.timestamp f.timestamp)) [
      | inl first ↦ rw first (le, (ground arith, h.1))
      | inr later ↦
          rw later (h.0, insert_by-Ordered f.timestamp to (id, e) fs (ground arith) ge h.1)
    ]

-- The rows that a query chooses within bounds are, sorted, in the order of time and within them.
pub chosen-Ordered :
    (p : ℕ × EventRow → Bool) (from to : ℕ) (t : EventTable)
    → ((e : ℕ × EventRow) → p e ≡ true → (from ≤ e.1.timestamp) × (e.1.timestamp ≤ to))
    → from ≤ to
    → Ordered from (sort_by earlier (filter p t)) to
unfolding sort_by
chosen-Ordered p from to [] within le = le
chosen-Ordered p from to ((id, e) ∷ t) within le =
    let rest = chosen-Ordered p from to t within le in
    elim (Bool-cases (p (id, e))) [
      | inl inside ↦
          let (early, late) = within (id, e) inside in
          rw inside
            (insert_by-Ordered from to (id, e) (sort_by earlier (filter p t)) early late rest)
      | inr outside ↦ rw outside rest
    ]

Ordered-from :
    (from from' to : ℕ) (es : EventTable) → from ≤ from' → Ordered from' es to → Ordered from es to
Ordered-from from from' to [] le h = omega arith
Ordered-from from from' to ((id, e) ∷ es) le h = (omega arith, h.1)

pub filter-Ordered :
    (p : ℕ × EventRow → Bool) (from to : ℕ) (es : EventTable)
    → Ordered from es to
    → Ordered from (filter p es) to
filter-Ordered p from to [] h = h
filter-Ordered p from to ((id, e) ∷ es) h =
    let rest = filter-Ordered p e.timestamp to es h.1 in
    elim (Bool-cases (p (id, e))) [
      | inl kept ↦ rw kept (h.0, rest)
      | inr gone ↦ rw gone (Ordered-from from e.timestamp to (filter p es) h.0 rest)
    ]
