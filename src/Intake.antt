-- ===== src/Intake.antt =====
-- python/rithmic_nt_connect/notification_intake.py: live order notifications become events of a
-- tracked order, or reports of an untracked one.
pub mod Tests
pub mod Dispatch
pub mod Actions
pub mod Tracked
pub mod Redelivered
