-- ===== src/Blocking.antt =====
-- crates/daemon/src/blocking: the event buffer and the enforcer actor.
pub mod Buffer
pub mod Signals
pub mod Actor
pub mod Repo
