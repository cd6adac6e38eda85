-- ===== src/Core.antt =====
-- crates/rithmic-exec: the rules that the Python adapter calls through its extension module.
pub mod Plant
pub mod Notify
pub mod Fills
pub mod Ident
pub mod DrainRules
pub mod Lru
pub mod InventoryRules
pub mod ExposureRules
pub mod Rates
