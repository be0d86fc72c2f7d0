-- ===== src/Blocking/Buffer.antt =====
-- `EventBuffer` of crates/daemon/src/blocking/core/buffer.rs: a FIFO of timed events that refuses new
-- ones when it is full. The allocation hint is left out.
pub mod Fifo
use digital_wellbeing.Common.{ℕ, Bool, ◌==◌, leb, if◌then◌else◌, List, [], ◌∷◌, ◌++◌, length, any}
use digital_wellbeing.Platform.{PlatformEvent, TimedEvent, event_uid}
use digital_wellbeing.Values.Blocked.{Uid}

pub record EventBuffer : Type 0 where
  pub events : List TimedEvent
  pub max_capacity : ℕ

unfoldable pub push : PlatformEvent → ℕ → EventBuffer → EventBuffer
push event timestamp b =
    if leb b.max_capacity (length b.events)
    then b
    else record b { events = b.events ++ record { event = event; timestamp = timestamp } ∷ [] }

unfoldable pub with_max_capacity : ℕ → EventBuffer
with_max_capacity max = record { events = []; max_capacity = max }

abbrev pub default_capacity : ℕ
default_capacity = 10000

-- The distinct elements of a list, each at its first place: a `HashSet` filled in order.
unfoldable pub distinct : List Uid → List Uid → List Uid
distinct seen [] = []
distinct seen (u ∷ us) =
    let fresh = distinct (u ∷ seen) us in
    let old = distinct seen us in if any (λ s. s == u) seen then old else u ∷ fresh

unfoldable pub uids : EventBuffer → List Uid
unfolding distinct event_uid
uids b = distinct [] (uids_of b.events)
  where
    uids_of : List TimedEvent → List Uid
    uids_of [] = []
    uids_of (t ∷ ts) = event_uid t.event ∷ uids_of ts

-- The events, and the buffer without them.
unfoldable pub drain : EventBuffer → List TimedEvent × EventBuffer
drain b = (b.events, record b { events = [] })

unfoldable pub len : EventBuffer → ℕ
len b = length b.events
