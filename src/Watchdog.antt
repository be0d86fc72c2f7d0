-- ===== src/Watchdog.antt =====
-- `attempt_recovery` of crates/daemon/src/main/watchdog.rs: how the daemon takes its bus name back. What the
-- bus answers in each attempt is an argument; times are in milliseconds.
pub mod Recovery
use Prim.Native.String.{String}
use digital_wellbeing.Common.{
  ℕ, zero, suc, ◌+◌, ◌*◌, Bool, true, false, not, leb, if◌then◌else◌, Option, none, some, unwrap_or,
  is_some,
}
use digital_wellbeing.Common.Eq.{string_eq}

-- One attempt: whether the daemon is shutting down, whether the connection, the object server and the
-- name are granted, and the unique name then and after the second of waiting.
pub record Attempt : Type 0 where
  pub is_cancelled : Bool
  pub connected : Bool
  pub registered : Bool
  pub name_granted : Bool
  pub unique_name : Option String
  pub still_named : Bool

pub data Step : Type 0 where
  cancelled failed : Step
  serving : String → Step

-- The body of the loop up to the count of the retries.
unfoldable pub attempt : Attempt → Step
attempt a =
    if a.is_cancelled
    then Step.cancelled
    else if not a.connected
    then Step.failed
    else if not a.registered
    then Step.failed
    else if not a.name_granted
    then Step.failed
    else if a.still_named
    then Step.serving (unwrap_or a.unique_name "")
    else Step.failed

-- `should_shutdown`: true after the fifth failure, and else the wait before the next attempt.
abbrev pub max_retries : ℕ
max_retries = 5

unfoldable pub should_shutdown : ℕ → Bool
should_shutdown retries = leb max_retries retries

abbrev pub backoff : ℕ → ℕ
backoff retries = 500 * retries

-- What the loop ends with; `out_of_fuel` is not an end of the loop, but of the fuel.
pub data Verdict : Type 0 where
  not_ours stopped shut_down out_of_fuel : Verdict
  recovered : String → Verdict

-- The verdict, how often the bus was tried, and the waits between the attempts.
pub record Recovered : Type 0 where
  pub verdict : Verdict
  pub tries : ℕ
  pub waited : ℕ

abbrev ends : Verdict → Recovered
ends v = record { verdict = v; tries = 1; waited = 0 }

abbrev then_again : ℕ → Recovered → Recovered
then_again delay r = record r { tries = suc r.tries; waited = delay + r.waited }

-- The loop, with the failures so far; the attempts are numbered by them.
unfoldable pub retry : ℕ → ℕ → (ℕ → Attempt) → Recovered
unfolding attempt should_shutdown
retry zero retries attempts = record { verdict = Verdict.out_of_fuel; tries = 0; waited = 0 }
retry (suc fuel) retries attempts =
    let again = retry fuel (suc retries) attempts in
    elim (attempt (attempts retries)) [
      | Step.cancelled ↦ ends Verdict.stopped
      | Step.serving name ↦ ends (Verdict.recovered name)
      | Step.failed ↦
          if should_shutdown (suc retries)
          then ends Verdict.shut_down
          else then_again (backoff (suc retries)) again
    ]

-- `attempt_recovery`: only the loss of our own name is answered.
unfoldable pub attempt_recovery : Option String → String → (ℕ → Attempt) → Recovered
unfolding retry
attempt_recovery serving_state old_owner attempts = elim serving_state [
  | none ↦ record { verdict = Verdict.not_ours; tries = 0; waited = 0 }
  | some our_name ↦
      if not (string_eq.beq old_owner our_name)
      then record { verdict = Verdict.not_ours; tries = 0; waited = 0 }
      else retry max_retries 0 attempts
]
