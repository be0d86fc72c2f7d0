-- ===== src/Examples/Recovery.antt =====
-- Losing the bus name.
use digital_wellbeing.Common.{ℕ, zero, suc, ◌≤◌, ◌≡◌, refl, true, false, none, some}
use digital_wellbeing.Watchdog.{Attempt, Verdict, attempt_recovery, attempt}
use digital_wellbeing.Watchdog.Recovery.{ended, attempt_recovery-ends, is_shut_down}

abbrev refused : Attempt
refused = record {
  is_cancelled = false;
  connected = false;
  registered = false;
  name_granted = false;
  unique_name = none;
  still_named = false;
}

abbrev granted : Attempt
granted = record {
  is_cancelled = false;
  connected = true;
  registered = true;
  name_granted = true;
  unique_name = some ":1.9";
  still_named = true;
}

-- Refused twice, and then granted.
abbrev third_time : ℕ → Attempt
third_time zero = refused
third_time (suc zero) = refused
third_time (suc (suc n)) = granted

recovers :
    attempt_recovery (some ":1.2") ":1.2" third_time
    ≡ record { verdict = Verdict.recovered ":1.9"; tries = 3; waited = 1500 }
unfolding attempt_recovery
recovers = refl

attempt_recovery-ends_example :
    let r = attempt_recovery (some ":1.2") ":1.2" (λ n. refused) in
    (ended r.verdict ≡ true) × (r.tries ≤ 5) × (r.waited ≤ 5000) × (is_shut_down r.verdict ≡ true)
unfolding attempt
attempt_recovery-ends_example = attempt_recovery-ends (some ":1.2") ":1.2" (λ n. refused)
