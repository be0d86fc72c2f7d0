-- ===== src/Store/Usage/Columns.antt =====
-- The closed column of a daily usage table: sums over its rows.
use digital_wellbeing.Common.{
  ℕ, ◌+◌, ◌≡◌, refl, ap, ◌∙◌, Bool, if◌then◌else◌, none, some, unwrap_or, List, [], ◌∷◌, map, inl,
  inr, Bool-cases, Option-cases, arith,
}
use digital_wellbeing.Common.Eq.{Eq}
use digital_wellbeing.Common.Map.{get, insert, remove, IsMap, insert-IsMap}
use digital_wellbeing.Store.Usage.{
  UsageRow, UsageTable, exec_batch, set_closed, set_open, closed_row, open_row,
}
use digital_wellbeing.Usage.{add}
use digital_wellbeing.Usage.Totals.{sum_if, sum_if-add}

-- The closed milliseconds by key.
abbrev pub closed_column : {K : Type 0} → UsageTable K → List (K × ℕ)
closed_column [] = []
closed_column ((k, row) ∷ t) = (k, row.closed_millis) ∷ closed_column t

module _ {K : Type 0} (e : Eq K) where
  get-closed_column :
      (k : K) (t : UsageTable K)
      → unwrap_or (get e k (closed_column t)) 0
        ≡ (elim (get e k t) [ none ↦ 0 | some row ↦ row.closed_millis ])
  get-closed_column k [] = refl
  get-closed_column k ((j, row) ∷ t) = elim (Bool-cases (e.beq j k)) [
    | inl same ↦ rw same refl
    | inr other ↦ rw other (get-closed_column k t)
  ]

  absent-closed_column :
      (k : K) (t : UsageTable K) → get e k t ≡ none → get e k (closed_column t) ≡ none
  absent-closed_column k [] h = refl
  absent-closed_column k ((j, row) ∷ t) h = elim (Bool-cases (e.beq j k)) [
    | inl same ↦ ground arith
    | inr other ↦ rw other (ground (arith, absent-closed_column k t))
  ]

  closed_column-IsMap : (t : UsageTable K) → IsMap e t → IsMap e (closed_column t)
  closed_column-IsMap [] h = tt
  closed_column-IsMap ((k, row) ∷ t) h = (absent-closed_column k t h.0, closed_column-IsMap t h.1)

  closed_column-remove :
      (k : K) (t : UsageTable K) → closed_column (remove e k t) ≡ remove e k (closed_column t)
  closed_column-remove k [] = refl
  closed_column-remove k ((j, row) ∷ t) = elim (Bool-cases (e.beq j k)) [
    | inl same ↦ rw same (closed_column-remove k t)
    | inr other ↦ rw other (ap (◌∷◌ (j, row.closed_millis)) (closed_column-remove k t))
  ]

  -- One upsert adds to the column what the new row has in it.
  abbrev upsert_one : (UsageRow → UsageRow → UsageRow) → K → UsageRow → UsageTable K → UsageTable K
  upsert_one set j row t = elim (get e j t) [
    | none ↦ insert e j row t
    | some old ↦ insert e j (set old row) t
  ]

  closed_column-upsert_one :
      (set : UsageRow → UsageRow → UsageRow) (j : K) (row : UsageRow) (t : UsageTable K)
      → ((old : UsageRow) → (set old row).closed_millis ≡ old.closed_millis + row.closed_millis)
      → closed_column (upsert_one set j row t) ≡ add e j row.closed_millis (closed_column t)
  closed_column-upsert_one set j row t adds = elim (Option-cases (get e j t)) [
    | inl absent ↦
        let zero_before : unwrap_or (get e j (closed_column t)) 0 ≡ 0 =
          get-closed_column j t ∙ rw absent refl in
        rw (absent, upsert_one)
          (rw (zero_before, closed_column-remove j t)
            (ap (λ n. (j, n) ∷ remove e j (closed_column t)) (omega arith)))
    | inr (old, present) ↦
        let before : unwrap_or (get e j (closed_column t)) 0 ≡ old.closed_millis =
          get-closed_column j t ∙ rw present refl in
        rw (present, upsert_one)
          (rw (before, closed_column-remove j t)
            (ap (λ n. (j, n) ∷ remove e j (closed_column t)) (adds old)))
  ]

  upsert_one-IsMap :
      (set : UsageRow → UsageRow → UsageRow) (j : K) (row : UsageRow) (t : UsageTable K)
      → IsMap e t
      → IsMap e (upsert_one set j row t)
  upsert_one-IsMap set j row t h = elim (Option-cases (get e j t)) [
    | inl absent ↦ rw (absent, upsert_one) (insert-IsMap e j row t h)
    | inr (old, present) ↦ rw (present, upsert_one) (insert-IsMap e j (set old row) t h)
  ]

  module _ {I : Type 0} (key : I → K) (ms : I → ℕ) (p : K → Bool) where
    -- The milliseconds of the items whose keys pass the test.
    abbrev pub items_sum : List I → ℕ
    items_sum [] = 0
    items_sum (it ∷ its) = (if p (key it) then ms it else 0) + items_sum its

    abbrev pub stored : UsageTable K → ℕ
    stored t = sum_if p (closed_column t)

    stored-upsert_one :
        (set : UsageRow → UsageRow → UsageRow) (j : K) (row : UsageRow) (t : UsageTable K)
        → ((old : UsageRow) → (set old row).closed_millis ≡ old.closed_millis + row.closed_millis)
        → IsMap e t
        → stored (upsert_one set j row t) ≡ stored t + (if p j then row.closed_millis else 0)
    stored-upsert_one set j row t adds h =
        ap (sum_if p) (closed_column-upsert_one set j row t adds)
        ∙ sum_if-add e p j row.closed_millis (closed_column t) (closed_column-IsMap t h)

    -- A batch of closed items adds their milliseconds, and the table keeps its keys distinct.
    pub stored-closed :
        (its : List I) (t : UsageTable K)
        → IsMap e t
        → let t' = exec_batch e set_closed (map (λ it. (key it, closed_row (ms it))) its) t in
          (stored t' ≡ stored t + items_sum its) × IsMap e t'
    unfolding exec_batch
    stored-closed [] t h = (omega arith, h)
    stored-closed (it ∷ its) t h =
        let row = closed_row (ms it) in
        let step = stored-upsert_one set_closed (key it) row t (λ old. refl) h in
        let (rest, h') =
          stored-closed its (upsert_one set_closed (key it) row t)
            (upsert_one-IsMap set_closed (key it) row t h) in
        (rest ∙ omega arith, h')

    -- A batch of open items leaves the column's sum.
    pub stored-open :
        (its : List I) (t : UsageTable K)
        → IsMap e t
        → let t' = exec_batch e set_open (map (λ it. (key it, open_row (ms it))) its) t in
          (stored t' ≡ stored t) × IsMap e t'
    unfolding exec_batch
    stored-open [] t h = (refl, h)
    stored-open (it ∷ its) t h =
        let row = open_row (ms it) in
        let step = stored-upsert_one set_open (key it) row t (λ old. omega arith) h in
        let (rest, h') =
          stored-open its (upsert_one set_open (key it) row t)
            (upsert_one-IsMap set_open (key it) row t h) in
        (rest ∙ ground arith, h')
