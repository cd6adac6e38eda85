-- ===== src/Commands.antt =====
-- python/rithmic_nt_connect/execution.py: the commands of the execution client, and the mapping of
-- orders to the venue's words in _orders.py. A command runs alone between its awaits; what the
-- session answers to a request is a parameter.
pub mod Mapping
pub mod Gates
pub mod Submit
pub mod Change
pub mod Bracket
pub mod Traces
pub mod Shut
pub mod Brackets
pub mod Distances
pub mod Tests
