-- ===== src/SecurityCounter/Freshness.antt =====
-- No frame counter value is handed out twice, whatever fails and whenever power is lost.
pub mod Commit
pub mod Invariant
pub mod Take
pub mod Open
pub mod Write
pub mod Save
