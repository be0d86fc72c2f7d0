-- ===== src/Blocking/Actor/Flush.antt =====
-- `flush_buffer` and `maybe_midnight_reset` of crates/daemon/src/blocking/core/mod.rs.
use digital_wellbeing.Common.{Bool, false, leb, if◌then◌else◌, none, some, [], ◌++◌}
use digital_wellbeing.Blocking.Actor.{Services, Actor}
use digital_wellbeing.Blocking.Buffer.{uids, drain, distinct}
use digital_wellbeing.Blocking.Signals.{midnight_reset}
use digital_wellbeing.Platform.Registry.{registered_uids}
use digital_wellbeing.Values.DateTime.{DateTime}

module _ {Proxy : Type 0} (s : Services Proxy) where
  -- `false` is the error that the `?` operator returns. The buffer is drained before the
  -- transaction, and a failed transaction commits nothing.
  unfoldable pub flush_buffer : DateTime → Actor Proxy → Bool × Actor Proxy
  flush_buffer now a = elim s.uids_with_open_intervals [
    | none ↦ (false, a)
    | some db_uids ↦
        let all_uids = distinct [] (uids a.event_buffer ++ registered_uids a.registry ++ db_uids) in
        let (events, buffer) = drain a.event_buffer in
        let (committed, cache) = s.flush_with_deltas events all_uids now a.app_cache in
        (
          committed,
          record a {
            event_buffer = buffer;
            app_cache = cache;
            persisted = if committed then a.persisted ++ events else a.persisted;
          },
        )
  ]

  abbrev reset_told : Actor Proxy → Actor Proxy
  reset_told a = record a { told = midnight_reset a.told }

  unfoldable pub maybe_midnight_reset : Actor Proxy → Actor Proxy
  maybe_midnight_reset a = elim a.last_midnight_reset [
    | none ↦ record a { last_midnight_reset = some s.wall_date }
    | some last ↦
        if leb s.wall_date last
        then a
        else record (reset_told a) { last_midnight_reset = some s.wall_date }
  ]
