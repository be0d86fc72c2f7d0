-- ===== src/Values.antt =====
-- The value types of crates/core/src: validated texts, enumerations with their integer codes at the
-- D-Bus and database boundaries, times, and the entries of the blocked-apps map.
pub mod AppClass
pub mod WindowTitle
pub mod DateTime
pub mod EventType
pub mod BlockReason
pub mod EffectKind
pub mod TargetType
pub mod Category
pub mod Blocked
