-- ===== src/Recon.antt =====
-- python/rithmic_nt_connect/recon.py: the working-orders drain. A drain row becomes an advisory
-- status report; the freshest row of each basket is applied or reported.
pub mod Tests
pub mod Rows
pub mod Reports
pub mod Stale
pub mod Apply
