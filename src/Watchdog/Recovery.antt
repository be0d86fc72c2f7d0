-- ===== src/Watchdog/Recovery.antt =====
-- How the recovery of the bus name ends.
use Prim.Native.String.{String}
use digital_wellbeing.Common.{
  ℕ, zero, suc, ◌+◌, ◌*◌, ◌≤◌, ◌<◌, ◌≡◌, refl, Bool, true, false, ◌&&◌, Option, none, some, inl,
  inr, ◌⊎◌, Bool-cases, arith,
}
use digital_wellbeing.Common.Eq.{string_eq}
use digital_wellbeing.Watchdog.{
  Attempt, Step, attempt, retry, attempt_recovery, Verdict, Recovered, should_shutdown,
}

abbrev pub ended : Verdict → Bool
ended Verdict.out_of_fuel = false
ended Verdict.not_ours = true
ended Verdict.stopped = true
ended Verdict.shut_down = true
ended (Verdict.recovered _) = true

-- The waits that are left after some failures.
abbrev left : ℕ → ℕ
left zero = 5000
left (suc zero) = 4500
left (suc (suc zero)) = 3500
left (suc (suc (suc zero))) = 2000
left (suc (suc (suc (suc n)))) = 0

Step-cases :
    (s : Step)
    → (s ≡ Step.cancelled) ⊎ ((s ≡ Step.failed) ⊎ ((name : String) × (s ≡ Step.serving name)))
Step-cases Step.cancelled = inl refl
Step-cases Step.failed = inr (inl refl)
Step-cases (Step.serving name) = inr (inr (name, refl))

-- The bounds on what the loop does after some failures.
abbrev Bounded : ℕ → Recovered → Type 0
Bounded retries r = (ended r.verdict ≡ true) × (retries + r.tries ≤ 5) × (r.waited ≤ left retries)

waits_left : (retries : ℕ) → retries < 4 → 500 * suc retries + left (suc retries) ≤ left retries
waits_left zero h = ground arith
waits_left (suc zero) h = ground arith
waits_left (suc (suc zero)) h = ground arith
waits_left (suc (suc (suc zero))) h = ground arith
waits_left (suc (suc (suc (suc n)))) h = ground (arith, h)

retry-Bounded :
    (fuel retries : ℕ) (attempts : ℕ → Attempt)
    → 5 ≤ fuel + retries
    → retries < 5
    → Bounded retries (retry fuel retries attempts)
unfolding retry should_shutdown
retry-Bounded zero retries attempts h k = ground (arith, h, k)
retry-Bounded (suc fuel) retries attempts h k = elim (Step-cases (attempt (attempts retries))) [
  | inl off ↦ rw (retry, off) (refl, ground (arith, k), ground arith)
  | inr (inr (name, on)) ↦ rw (retry, on) (refl, ground (arith, k), ground arith)
  | inr (inl bad) ↦ elim (Bool-cases (should_shutdown (suc retries))) [
    | inl over ↦ rw (retry, bad, over) (refl, ground (arith, k), ground arith)
    | inr more ↦
        let few : retries < 4 = ground (arith, more) in
        let (done, tries, waited) =
          retry-Bounded fuel (suc retries) attempts (ground arith) (ground (arith, few)) in
        rw (retry, bad, more)
          (done, ground (arith, tries), ground (arith, waited, waits_left retries few))
  ]
]

abbrev pub is_shut_down : Verdict → Bool
is_shut_down Verdict.shut_down = true
is_shut_down Verdict.out_of_fuel = false
is_shut_down Verdict.not_ours = false
is_shut_down Verdict.stopped = false
is_shut_down (Verdict.recovered _) = false

abbrev is_failed : Step → Bool
is_failed Step.failed = true
is_failed Step.cancelled = false
is_failed (Step.serving _) = false

-- So many attempts from one on that all fail.
abbrev pub all_fail : (ℕ → Attempt) → ℕ → ℕ → Bool
all_fail attempts zero n = true
all_fail attempts (suc count) n =
    is_failed (attempt (attempts n)) && all_fail attempts count (suc n)

retry-all_fail :
    (fuel retries : ℕ) (attempts : ℕ → Attempt)
    → suc fuel + retries ≡ 5
    → is_shut_down (retry (suc fuel) retries attempts).verdict
      ≡ all_fail attempts (suc fuel) retries
unfolding retry should_shutdown
retry-all_fail zero retries attempts h =
    let over : should_shutdown (suc retries) ≡ true = ground arith in
    elim (Step-cases (attempt (attempts retries))) [
      | inl off ↦ rw (retry, off) refl
      | inr (inr (name, on)) ↦ rw (retry, on) refl
      | inr (inl bad) ↦ rw (retry, bad, over) refl
    ]
retry-all_fail (suc fuel) retries attempts h =
    let more : should_shutdown (suc retries) ≡ false = ground arith in
    elim (Step-cases (attempt (attempts retries))) [
      | inl off ↦ rw (retry, off) refl
      | inr (inr (name, on)) ↦ rw (retry, on) refl
      | inr (inl bad) ↦
          rw (retry, bad, more) (retry-all_fail fuel (suc retries) attempts (ground arith))
    ]

-- The recovery of the bus name ends after at most five attempts and five seconds of waiting between
-- them, whatever the bus answers; for a name that is ours, it gives up and shuts the daemon down
-- exactly if all five attempts fail.
pub attempt_recovery-ends :
    (serving_state : Option String) (old_owner : String) (attempts : ℕ → Attempt)
    → let r = attempt_recovery serving_state old_owner attempts in
      (ended r.verdict ≡ true)
      × (r.tries ≤ 5)
      × (r.waited ≤ 5000)
      × (is_shut_down r.verdict ≡ (
          elim serving_state [ some our_name ↦ string_eq.beq old_owner our_name | none ↦ false ]
          && all_fail attempts 5 0))
unfolding attempt_recovery
attempt_recovery-ends none old_owner attempts = (refl, ground arith, ground arith, refl)
attempt_recovery-ends (some our_name) old_owner attempts =
    elim (Bool-cases (string_eq.beq old_owner our_name)) [
      | inr foreign ↦ rw (attempt_recovery, foreign) (refl, ground arith, ground arith, refl)
      | inl ours ↦
          let (done, tries, waited) = retry-Bounded 5 0 attempts (ground arith) (ground arith) in
          rw (attempt_recovery, ours)
            (done, ground (arith, tries), waited, retry-all_fail 4 0 attempts refl)
    ]
