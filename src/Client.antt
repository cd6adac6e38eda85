-- ===== src/Client.antt =====
-- python/rithmic_nt_connect/execution.py: the state of the execution client, and its helpers.
pub mod Tests
pub mod State
pub mod Returned
pub mod Keeps
pub mod Identity
pub mod Fills
