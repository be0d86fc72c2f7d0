-- ===== src/Blocking/Actor/Delivery/Lost.antt =====
-- What the actor loses while the transactions fail.
use digital_wellbeing.Common.{◌≡◌, false, some, List}
use digital_wellbeing.Blocking.Actor.{Services, Actor, AppCache}
use digital_wellbeing.Platform.{TimedEvent}
use digital_wellbeing.Values.Blocked.{Uid}
use digital_wellbeing.Values.DateTime.{DateTime}

-- The lookup finds users, and no transaction commits.
pub record Fails {Proxy : Type 0} (s : Services Proxy) : Type 0 where
  pub open_uids : List Uid
  pub lookup : s.uids_with_open_intervals ≡ some open_uids
  pub fails :
      (events : List TimedEvent) (us : List Uid) (now : DateTime) (cache : AppCache)
      → (s.flush_with_deltas events us now cache).0 ≡ false
