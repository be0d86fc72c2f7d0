-- ===== src/Policy/Verdict.antt =====
-- What the evaluation of a priority-ordered list of policies returns.
use digital_wellbeing.Common.{
  All, ℕ, ◌≤◌, ◌≡◌, refl, Bool, true, false, ◌&&◌, ltb, leb, Option, none, some, List, [], ◌∷◌,
  ◌++◌, map, filter, find?, take_until, arith, if◌then◌else◌, append_assoc, append-nil, inl, inr,
  Bool-cases,
}
use mathlib.Core.Option
use digital_wellbeing.Policy.{Policy, Effect, EvalResult, filter_by_schedule, eval_loop, evaluate}
use digital_wellbeing.Values.Blocked.{PolicyId}
use digital_wellbeing.Values.DateTime.{DateTime}

-- A policy that ends the evaluation: it is scheduled now, and allows, blocks, or limits the time at
-- a limit that the usage has reached.
abbrev pub ends : ℕ → DateTime → Policy → Bool
ends usage now p = filter_by_schedule p.schedule now && elim p.effect [
  | Effect.allow ↦ true
  | Effect.block ↦ true
  | Effect.time_limit limit ↦ leb limit usage
  | Effect.notify limit ↦ false
]

-- A policy that notifies: it is scheduled now, and the usage has reached its threshold.
abbrev pub notifies_now : ℕ → DateTime → Policy → Bool
notifies_now usage now p = filter_by_schedule p.schedule now && elim p.effect [
  | Effect.allow ↦ false
  | Effect.block ↦ false
  | Effect.time_limit limit ↦ false
  | Effect.notify limit ↦ leb limit usage
]

abbrev pub verdict : Policy → PolicyId × Effect
verdict p = (p.id, p.effect)

-- The loop's result, described by the first policy that ends it and the notifications before that.
abbrev pub Described : List Policy → ℕ → DateTime → List (PolicyId × Effect) → EvalResult
Described ps usage now ns = record {
  terminating = Option.map verdict (find? (ends usage now) ps);
  notifies = ns ++ map verdict (filter (notifies_now usage now) (take_until (ends usage now) ps));
}

module _ (p : Policy) (ps : List Policy) (usage : ℕ) (now : DateTime)
    (ns : List (PolicyId × Effect)) (on : filter_by_schedule p.schedule now ≡ true)
    (ih : (ms : List (PolicyId × Effect))
      → eval_loop ps usage now none ms ≡ Described ps usage now ms) where
  eval_loop-cons :
      (e : Effect)
      → p.effect ≡ e
      → eval_loop (p ∷ ps) usage now none ns ≡ Described (p ∷ ps) usage now ns
  unfolding eval_loop
  eval_loop-cons Effect.allow e = simp (on, e, append-nil)
  eval_loop-cons Effect.block e = simp (on, e, append-nil)
  eval_loop-cons (Effect.time_limit limit) e = elim (Bool-cases (ltb usage limit)) [
    | inl below ↦ let l : leb limit usage ≡ false = ground arith in simp (on, e, below, l, ih)
    | inr over ↦ let l : leb limit usage ≡ true = ground arith in simp (on, e, over, l, append-nil)
  ]
  eval_loop-cons (Effect.notify limit) e = elim (Bool-cases (leb limit usage)) [
    | inl over ↦ simp (on, e, over, ih, append_assoc)
    | inr below ↦ simp (on, e, below, ih)
  ]

eval_loop-Described :
    (ps : List Policy) (usage : ℕ) (now : DateTime) (ns : List (PolicyId × Effect))
    → eval_loop ps usage now none ns ≡ Described ps usage now ns
unfolding eval_loop
eval_loop-Described [] usage now ns = rw append-nil
eval_loop-Described (p ∷ ps) usage now ns = elim (Bool-cases (filter_by_schedule p.schedule now)) [
  | inl on ↦
      eval_loop-cons p ps usage now ns on (λ ms. eval_loop-Described ps usage now ms) p.effect refl
  | inr off ↦ simp off (eval_loop-Described ps usage now ns)
]

-- `evaluate` returns the first policy in the list that is scheduled now and allows, blocks or has
-- reached its time limit, and exactly the scheduled notifications at or above their threshold that
-- stand before it, in order.
pub evaluate-Described :
    (ps : List Policy) (usage : ℕ) (now : DateTime)
    → evaluate ps usage now ≡ Described ps usage now []
unfolding evaluate
evaluate-Described ps usage now = eval_loop-Described ps usage now []

-- A verdict that restricts the application.
abbrev pub restricts : Option (PolicyId × Effect) → Bool
restricts none = false
restricts (some (id, Effect.allow)) = false
restricts (some (id, Effect.block)) = true
restricts (some (id, Effect.time_limit _)) = true
restricts (some (id, Effect.notify _)) = false

abbrev pub allows : Policy → Bool
allows p = elim p.effect [
  | Effect.allow ↦ true
  | Effect.block ↦ false
  | Effect.time_limit _ ↦ false
  | Effect.notify _ ↦ false
]

restricted : ℕ → DateTime → List Policy → Bool
restricted usage now ps = restricts (Option.map verdict (find? (ends usage now) ps))

restricted-cons :
    (p : Policy) (ps : List Policy) (usage : ℕ) (now : DateTime)
    → restricted usage now (p ∷ ps)
      ≡ (if ends usage now p then restricts (some (verdict p)) else restricted usage now ps)
unfolding restricted
restricted-cons p ps usage now = elim (Bool-cases (ends usage now p)) [
  | inl here ↦ rw here
  | inr later ↦ rw later
]

restricted_mono :
    (ps : List Policy) (u v : ℕ) (now : DateTime)
    → u ≤ v
    → All (λ p. allows p ≡ false) ps
    → restricted u now ps ≡ true
    → restricted v now ps ≡ true
restricted_mono [] u v now le no_allow h = unfold restricted in h
restricted_mono (p ∷ ps) u v now le no_allow h = ground (
  arith,
  restricted-cons p ps u now,
  restricted-cons p ps v now,
  restricted_mono ps u v now le no_allow.1,
)

-- Without an allowing policy in the list, an application that is restricted at some usage stays
-- restricted at every higher usage.
pub evaluate-restricts_mono :
    (ps : List Policy) (u v : ℕ) (now : DateTime)
    → u ≤ v
    → All (λ p. allows p ≡ false) ps
    → restricts (evaluate ps u now).terminating ≡ true
    → restricts (evaluate ps v now).terminating ≡ true
evaluate-restricts_mono ps u v now le no_allow h = rw (evaluate-Described ps v now) (
    unfold restricted in
    restricted_mono ps u v now le no_allow (rw (evaluate-Described ps u now) at h))
