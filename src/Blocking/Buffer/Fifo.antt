-- ===== src/Blocking/Buffer/Fifo.antt =====
-- The event buffer is a bounded queue.
use digital_wellbeing.Common.{
  ap, sym, ◌∙◌, zero, ℕ, suc, ◌≤◌, ◌≡◌, refl, leb, List, [], ◌∷◌, ◌++◌, length, take, length-append,
  take_of_length-le, append_assoc, append-nil, true, false, arith, inl, inr, Bool-cases,
}
use digital_wellbeing.Blocking.Buffer.{EventBuffer, push, drain}
use digital_wellbeing.Platform.{TimedEvent}

pub push_all : List TimedEvent → EventBuffer → EventBuffer
push_all [] b = b
push_all (t ∷ ts) b = push_all ts (push t.event t.timestamp b)

take-append_full {ℓ} :
    {A : Type ℓ} (n : ℕ) (xs ys : List A) → length xs ≡ n → take n (xs ++ ys) ≡ xs
take-append_full zero [] ys h = refl
take-append_full zero (x ∷ xs) ys h = absurd (omega arith)
take-append_full (suc n) [] ys h = absurd (omega arith)
take-append_full (suc n) (x ∷ xs) ys h = ap (◌∷◌ x) (take-append_full n xs ys (omega arith))

pub push_full :
    (t : TimedEvent) (b : EventBuffer)
    → leb b.max_capacity (length b.events) ≡ true
    → push t.event t.timestamp b ≡ b
unfolding push
push_full t b h = rw h

pub push_room :
    (t : TimedEvent) (b : EventBuffer)
    → leb b.max_capacity (length b.events) ≡ false
    → push t.event t.timestamp b ≡ record b { events = b.events ++ t ∷ [] }
unfolding push
push_room t b h = rw h

-- Pushing a sequence of events into a buffer that is within its capacity and draining it returns
-- the events that were buffered followed by the new ones, in order, cut off at the capacity; and
-- leaves the buffer empty with the same capacity.
pub drain-push_all :
    (ts : List TimedEvent) (b : EventBuffer)
    → length b.events ≤ b.max_capacity
    → drain (push_all ts b) ≡ (take b.max_capacity (b.events ++ ts), record b { events = [] })
unfolding push_all drain
drain-push_all [] b h = rw (append-nil, take_of_length-le _ _ h)
drain-push_all (t ∷ ts) b h = elim (Bool-cases (leb b.max_capacity (length b.events))) [
  | inl full ↦
      let e : length b.events ≡ b.max_capacity = ground arith in
      ap (λ c. drain (push_all ts c)) (push_full t b full)
      ∙ (drain-push_all ts b h
          ∙ ap (λ es. (es, record b { events = [] }))
              (take-append_full _ b.events ts e ∙ sym (take-append_full _ b.events (t ∷ ts) e)))
  | inr room ↦
      let grown : length (b.events ++ t ∷ []) ≤ b.max_capacity =
        ground (arith, length-append b.events (t ∷ [])) in
      ap (λ c. drain (push_all ts c)) (push_room t b room)
      ∙ (drain-push_all ts (record b { events = b.events ++ t ∷ [] }) grown ∙ rw append_assoc)
]
