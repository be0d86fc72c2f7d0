-- ===== src/Reports/Hourly/Slots.antt =====
-- The 24 slots: what adding an interval does to each.
use digital_wellbeing.Common.{
  ℕ, zero, suc, ◌+◌, ◌-◌, ◌*◌, ◌/◌, ◌≤◌, ◌<◌, ◌≡◌, refl, min, max, true, ◌==◌, leb, ltb, ◌&&◌,
  if◌then◌else◌, if_same, some, List, [], ◌∷◌, length, arith,
}
use digital_wellbeing.Clock.{day_ms}
use digital_wellbeing.Reports.Hourly.{add_at, add_hours, add_interval_to_hourly}
use digital_wellbeing.Timeline.Hours.Shares.{hour_overlap}

-- The slot at an index.
abbrev pub slot : ℕ → List ℕ → ℕ
slot k [] = 0
slot zero (n ∷ ns) = n
slot (suc k) (n ∷ ns) = slot k ns

slot-add_at :
    (k h ms : ℕ) (ns : List ℕ)
    → h < length ns
    → (slot k (add_at h ms ns) ≡ slot k ns + (if h == k then ms else 0))
      × (length (add_at h ms ns) ≡ length ns)
unfolding add_at
slot-add_at k h ms [] lt = ground arith
slot-add_at zero zero ms (n ∷ ns) lt = (ground arith, refl)
slot-add_at (suc k) zero ms (n ∷ ns) lt = (ground arith, refl)
slot-add_at zero (suc h) ms (n ∷ ns) lt =
    let (same, long) = slot-add_at zero h ms ns (omega arith) in (ground arith, omega arith)
slot-add_at (suc k) (suc h) ms (n ∷ ns) lt =
    let (same, long) = slot-add_at k h ms ns (omega arith) in (ground arith, omega arith)

module _ (start finish day : ℕ) where
  slot-add_hours :
      (k left h : ℕ) (ns : List ℕ)
      → h + left ≤ 24
      → length ns ≡ 24
      → (slot k (add_hours start finish day left h ns)
          ≡ slot k ns
            + (if leb h k && ltb k (h + left) then hour_overlap day k start finish else 0))
        × (length (add_hours start finish day left h ns) ≡ 24)
  unfolding add_hours
  slot-add_hours k zero h ns le long = (ground arith, long)
  slot-add_hours k (suc left) h ns le long =
      let (pushed, kept) = slot-add_at k h (hour_overlap day h start finish) ns (omega arith) in
      let alike = if_same (λ j. hour_overlap day j start finish) 0 k h in
      let part : min finish (day + h * 3600000 + 3600000) - max start (day + h * 3600000)
          ≡ hour_overlap day h start finish =
        ground arith in
      let (rest, long') =
        slot-add_hours k left (h + 1) (add_at h (hour_overlap day h start finish) ns) (omega arith)
          (omega arith) in
      rw part (ground arith, long')

  -- An interval of the day goes whole into its hours, and its slice is well formed.
  pub slot-add_interval :
      (k : ℕ) (ns : List ℕ)
      → day ≤ start
      → start ≤ finish
      → finish ≤ day + day_ms
      → k < 24
      → length ns ≡ 24
      → (hs : List ℕ) × (add_interval_to_hourly ns start finish day ≡ some hs)
        × (slot k hs ≡ slot k ns + hour_overlap day k start finish)
        × (length hs ≡ 24)
  unfolding add_interval_to_hourly
  slot-add_interval k ns opens le ends lt long =
      let first = (start - day) / 3600000 in
      let last = min ((finish - day - 1) / 3600000) 23 in
      let (filled, long') = slot-add_hours k (last + 1 - first) first ns (omega arith) long in
      let fits : leb first (last + 1) ≡ true = ground arith in
      (add_hours start finish day (last + 1 - first) first ns, rw fits refl, ground arith, long')
