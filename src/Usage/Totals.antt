-- ===== src/Usage/Totals.antt =====
-- What an interval adds to the totals of an aggregate: sums over the entries whose key passes a test
-- that does not look at the date.
use digital_wellbeing.Common.{
  ℕ, ◌+◌, ◌-◌, ◌≡◌, refl, ap, Bool, if◌then◌else◌, none, unwrap_or, List, [], ◌∷◌, inl, inr,
  Bool-cases, arith, subst,
}
use digital_wellbeing.Common.Eq.{Eq}
use digital_wellbeing.Common.Map.{get, remove, IsMap, insert-IsMap}
use digital_wellbeing.Clock.{split_by_utc_day}
use digital_wellbeing.Clock.Split.{total, total-split}
use digital_wellbeing.Usage.{
  Agg, OpenFocus, AggKeyApp, AggKeyTitle, app_key_eq, title_key_eq, add, accumulate_segments,
  accumulate_range,
}
use digital_wellbeing.Usage.Dates.{daily_date_str}
use digital_wellbeing.Values.Blocked.{Uid}

-- The sum of the values whose keys pass the test.
abbrev pub sum_if {ℓ} : {K : Type ℓ} → (K → Bool) → List (K × ℕ) → ℕ
sum_if p [] = 0
sum_if p ((k, v) ∷ m) = (if p k then v else 0) + sum_if p m

module _ {ℓ} {K : Type ℓ} (e : Eq K) (p : K → Bool) where
  sum_if-remove_absent :
      (k : K) (m : List (K × ℕ)) → get e k m ≡ none → sum_if p (remove e k m) ≡ sum_if p m
  sum_if-remove_absent k [] h = refl
  sum_if-remove_absent k ((j, v) ∷ m) h = elim (Bool-cases (e.beq j k)) [
    | inl same ↦ ground arith
    | inr other ↦ rw other (ground (arith, sum_if-remove_absent k m))
  ]

  sum_if-remove :
      (k : K) (m : List (K × ℕ))
      → IsMap e m
      → sum_if p (remove e k m) + (if p k then unwrap_or (get e k m) 0 else 0) ≡ sum_if p m
  sum_if-remove k [] h = ground arith
  sum_if-remove k ((j, v) ∷ m) h = elim (Bool-cases (e.beq j k)) [
    | inl same ↦
        let eq : j ≡ k = (e.beq_iff j k).0 same in
        let gone : get e k m ≡ none = subst (λ i. get e i m ≡ none) eq h.0 in
        let rest = sum_if-remove_absent k m gone in
        let keys : p j ≡ p k = ap p eq in rw same (rw keys (ground (arith, rest)))
    | inr other ↦ let rest = sum_if-remove k m h.1 in rw other (ground (arith, rest))
  ]

  -- What `*entry(key).or_insert(0) += dur` adds to a sum.
  pub sum_if-add :
      (k : K) (dur : ℕ) (m : List (K × ℕ))
      → IsMap e m
      → sum_if p (add e k dur m) ≡ sum_if p m + (if p k then dur else 0)
  sum_if-add k dur m h = let rest = sum_if-remove k m h in ground (arith, rest)

-- Both aggregates have distinct keys.
abbrev pub IsAgg : Agg → Type 0
IsAgg agg = IsMap app_key_eq agg.by_app × IsMap title_key_eq agg.by_title

-- The totals of the entries of some users and applications, in either aggregate.
abbrev pub app_total : (Uid → ℕ → Bool) → Agg → ℕ
app_total q agg = sum_if (λ k. q k.0 k.1.1) agg.by_app

abbrev pub title_total : (Uid → ℕ → Bool) → Agg → ℕ
title_total q agg = sum_if (λ k. q k.0 k.1.0.1) agg.by_title

module _ (q : Uid → ℕ → Bool) (f : OpenFocus) (uid : Uid) where
  -- What an interval of the given length adds to both totals.
  abbrev Grows : ℕ → Agg → Agg → Type 0
  Grows dur agg agg' =
      IsAgg agg'
      × (app_total q agg' ≡ app_total q agg + (if q uid f.app_id then dur else 0))
      × (title_total q agg' ≡ title_total q agg + (if q uid f.app_id then dur else 0))

  accumulate_segments-Grows :
      (segs : List (ℕ × ℕ)) (agg : Agg)
      → IsAgg agg
      → Grows (total segs) agg (accumulate_segments f uid segs agg)
  unfolding accumulate_segments
  accumulate_segments-Grows [] agg h = (h, ground arith, ground arith)
  accumulate_segments-Grows ((day, dur) ∷ segs) agg h =
      let key : AggKeyApp = (daily_date_str day, f.app_id) in
      let by_app : List ((Uid × AggKeyApp) × ℕ) = add app_key_eq (uid, key) dur agg.by_app in
      let titled : AggKeyTitle = (key, (f.app_class.text, f.title.text)) in
      let by_title : List ((Uid × AggKeyTitle) × ℕ) =
        add title_key_eq (uid, titled) dur agg.by_title in
      let (ok, apps, titles) =
        accumulate_segments-Grows segs (record { by_app = by_app; by_title = by_title })
          (
            insert-IsMap app_key_eq (uid, key) 0 agg.by_app h.0,
            insert-IsMap title_key_eq (uid, titled) 0 agg.by_title h.1,
          ) in
      let app = sum_if-add app_key_eq (λ k. q k.0 k.1.1) (uid, key) dur agg.by_app h.0 in
      let title = sum_if-add title_key_eq (λ k. q k.0 k.1.0.1) (uid, titled) dur agg.by_title h.1 in
      (ok, ground (arith, apps, app), ground (arith, titles, title))

  -- An interval adds its whole length to the totals of its user and application, whatever days it
  -- spans, and nothing to any other.
  pub accumulate_range-total :
      (end_ms : ℕ) (agg : Agg)
      → IsAgg agg
      → IsAgg (accumulate_range f end_ms uid agg)
        × (app_total q (accumulate_range f end_ms uid agg)
            ≡ app_total q agg + (if q uid f.app_id then end_ms - f.ts_ms else 0))
        × (title_total q (accumulate_range f end_ms uid agg)
            ≡ title_total q agg + (if q uid f.app_id then end_ms - f.ts_ms else 0))
  unfolding accumulate_range
  accumulate_range-total end_ms agg h =
      subst (λ dur. Grows dur agg (accumulate_range f end_ms uid agg)) (total-split f.ts_ms end_ms)
        (accumulate_segments-Grows (split_by_utc_day f.ts_ms end_ms) agg h)
