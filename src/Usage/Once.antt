-- ===== src/Usage/Once.antt =====
-- Each user is counted once: sums over a list of users with and without repetitions.
use digital_wellbeing.Common.{
  ℕ, ◌+◌, ◌≡◌, refl, if◌then◌else◌, ◌==◌, List, [], ◌∷◌, any, inl, inr, Bool-cases, arith,
}
use digital_wellbeing.Blocking.Buffer.{distinct}
use digital_wellbeing.Values.Blocked.{Uid}

-- An amount for each time that the user is in the list.
abbrev pub times : Uid → ℕ → List Uid → ℕ
times u c [] = 0
times u c (v ∷ us) = (if v == u then c else 0) + times u c us

times-zero : (u : Uid) (c : ℕ) (us : List Uid) → times u 1 us ≡ 0 → times u c us ≡ 0
times-zero u c [] h = refl
times-zero u c (v ∷ us) h = ground (arith, times-zero u c us)

pub times-once : (u : Uid) (c : ℕ) (us : List Uid) → times u 1 us ≡ 1 → times u c us ≡ c
times-once u c [] h = ground arith
times-once u c (v ∷ us) h = ground (arith, times-zero u c us, times-once u c us)

pub times-distinct :
    (u : Uid) (c : ℕ) (seen us : List Uid)
    → times u c (distinct seen us)
      ≡ (if any (λ s. s == u) seen then 0 else if any (λ v. v == u) us then c else 0)
unfolding distinct
times-distinct u c seen [] = ground arith
times-distinct u c seen (v ∷ us) = elim (Bool-cases (any (λ s. s == v) seen)) [
  | inl old ↦ rw old (ground (arith, times-distinct u c seen us))
  | inr fresh ↦ rw fresh (ground (arith, times-distinct u c (v ∷ seen) us))
]
