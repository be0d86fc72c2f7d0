-- ===== src/Lib.antt =====
-- Verification of the digital-wellbeing daemon and of its client: dashboard, policy editor and reports.
--
-- The daemon (crates/daemon) hears from a compositor plugin for each user which window has the focus,
-- records these events in a database with the time that each application had, and evaluates the
-- policies that restrict applications. The client (crates/gui) reads the events of a day and draws
-- them. Both use the value types of crates/core.
--
-- Parts and files:
-- - Values: the validated texts, identifiers and enumerations of crates/core/src/valuetypes.rs,
--   event_types.rs, domain/policy_types.rs and domain/window_types.rs with their integer codes.
-- - Clock: `split_by_utc_day` of crates/core/src/clock.rs. Its loop runs on fuel, a round for each day
--   of the span and two more; Clock/Split shows that the segments then cover the span.
-- - Policy: effects, schedule windows and `evaluate` of crates/daemon/src/policy. Policy/Rows has the
--   conversions between rows, policies and D-Bus data, Policy/Repo the repository of policies.
-- - Platform: `PlatformEvent` and its projections (crates/daemon/src/platform/mod.rs); Platform/Payload
--   is `parse_event_payload` and Platform/Registry `PluginRegistry` of
--   crates/daemon/src/platform/linux/manager.rs.
-- - Blocking: `EnforcerActor` of crates/daemon/src/blocking/core. Blocking/Buffer is the event buffer,
--   Blocking/Signals the blocked-apps map with the signals told about it, Blocking/Actor the actor's
--   state with the handlers (Evaluate, Flush, Handlers). A run is a list of inputs, as `select!` takes
--   them, each with the answers of the database, the clocks and the plugins.
-- - Focus: the abstract focus time of an event log, which no code computes. The daemon's and the
--   client's totals are compared with it.
-- - Usage: the closed and open intervals of crates/daemon/src/store/daos/daily_usage (accumulate.rs and
--   deltas.rs), from the buffered events to the rows that are upserted.
-- - Timeline: `build_day_timeline` and, in Timeline/Hours, `compute_hourly_buckets` of
--   crates/gui/src/dashboard/timeline.rs. Timeline/Recorded sets the client's total beside the daemon's.
-- - Store: the tables of migrations/2026-07-18-000001_initial_schema/up.sql as lists of rows or maps from
--   their primary key, and the statements of crates/daemon/src/store/daos on them: Store/Apps,
--   Store/Policies, Store/Categories, Store/Usage with its Reads, Store/Events. What a statement does is
--   what its SQL text says; a row that violates a CHECK makes it fail.
-- - Categorization and Reports: crates/daemon/src/categorization and crates/daemon/src/reports/data;
--   Reports/Hourly is crates/daemon/src/reports/core/aggregation.rs.
-- - Dbus: `DaemonInterface` of crates/daemon/src/dbus. Dbus/Methods and Dbus/Reports are the methods,
--   Dbus/Requests one call of any of them as a step of the daemon.
-- - Watchdog: the recovery of the bus name of crates/daemon/src/main/watchdog.rs. Its loop runs on fuel five,
--   the number of failures after which the code gives up.
-- - Client: `BusManager` of crates/gui/src/dbus/bus.rs, the client's connection to the daemon.
-- - Dashboard: the client's dashboard, crates/gui/src/dashboard. Dashboard/Derive is viewmodel.rs,
--   Dashboard/Repo the calls of one fetch (data/repo.rs), Dashboard/Flow the task that fetches when a signal
--   comes (data/flow.rs), as a list of rounds. The operations of f64 are a parameter.
-- - PolicyEditor: the client's policies screen. PolicyEditor holds the form and the buttons
--   (crates/gui/src/policies/domain.rs, policies/ui/editor and components/policy), PolicyEditor/Inputs the text
--   inputs with Save and Delete (also appshell/data.rs), PolicyEditor/Sections the list of policies,
--   PolicyEditor/View the data with its background task (policies/data). Numbers as texts and JSON are parameters.
-- - ReportsScreen: the client's reports screen, crates/gui/src/reports (domain.rs, data/mod.rs and data/repo.rs);
--   ReportsScreen/Flow is its background task (data/flow.rs).
--   The loop over the days runs on fuel, a round for each day of the range.
--   A panic is no view, and ends the task; whether overflows are checked is a parameter.
-- - Examples: runs at concrete inputs. Common: shared tests, lists and keyed maps.
--
-- Conventions: times are milliseconds since the epoch and identifiers are natural numbers, since the
-- code never goes below zero with them; a chrono time is the record of what is read of it. A
-- HashMap is an association list with distinct keys, and where its iteration order is free the model
-- takes the list's order. A number that the code keeps within machine width by its inputs (sums of
-- durations) has no wrap-around here.
--
-- The actor of Blocking takes the answers of the repositories as parameters; the modules of Store say
-- what the answers are when the database works, and Blocking/Repo puts them in the place of the
-- parameters, with the transaction of a flush (crates/daemon/src/blocking/data/repo.rs).
--
-- Not modelled: the database itself (its statements are read as SQL defines them, and a connection
-- that fails is not modelled in Store), zbus and tokio, the process wiring, and
-- the client's views, which draw what the view models hold.
pub mod Common
pub mod Values
pub mod Clock
pub mod Policy
pub mod Platform
pub mod Blocking
pub mod Focus
pub mod Usage
pub mod Timeline
pub mod Store
pub mod Categorization
pub mod Reports
pub mod Dbus
pub mod Watchdog
pub mod Client
pub mod Dashboard
pub mod PolicyEditor
pub mod ReportsScreen
pub mod Examples
