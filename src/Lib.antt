-- ===== src/Lib.antt =====
-- The order path of the Rithmic adapter for NautilusTrader, and the parts of it that keep orders and
-- positions honest across lost messages, restarts of the transport and reconciliation.
--
-- The program. `python/rithmic_nt_connect/execution.py` is the execution client of a NautilusTrader
-- node. Order notifications come from a session, in batches, through a poll loop per plant
-- (`polling.py`); each is normalized (`_orders.py`) and handled (`notification_intake.py`): one for an
-- order that the cache tracks becomes an order event, any other becomes a status report and a fill
-- report. After a break of the transport (`recovery_bridge.py`) and at start-up, a drain of the working
-- orders is read (`recon.py`, `order_rows.py`): its rows are advisory, only the freshest row of a basket
-- counts, and a row that is older than what the client knows is skipped. The order plant
-- (`_order_plant.py`) gates commands: only a whole barrier of connecting, draining and re-arming opens
-- it. Both live and reconciled fills pass one dedup store, a bounded recency map. Commands of the engine
-- pass the gates, are mapped to the venue's words and go to the session; what a failure means decides
-- between a rejection and a latched plant. The PnL stream (`_convert.py`, `exposure.py`) tells the
-- positions, of which only those of the current stream count. The rules are Rust code
-- (`crates/rithmic-exec`), which the Python modules call through an extension module.
--
-- Files and what they model. A method that changes the client becomes a function from the client's
-- state to a result and a new state; an exception is a value, and what was written before it stays.
--   Base: the Boolean tests, lists, integers and texts that the rest uses.
--   Values: values of the notification dicts and Python's conversions of them (`int`, `str`, truth);
--     Doubles: Python's float arithmetic, for the ticks of a bracket.
--   Core: the rules of crates/rithmic-exec/src, a file each: Plant (plant.rs), Notify (notify.rs), Fills
--     (fills.rs), Ident (ident.rs), DrainRules (drain.rs), Lru (lru.rs), Rates (commission.rs),
--     InventoryRules (inventory.rs), ExposureRules (exposure.rs).
--   OrderPlant: `OrderPlantPolicy` of python/rithmic_nt_connect/_order_plant.py.
--   Notice: notifications of _orders.py: the wire row, the normalized row, fill identity and keys.
--   OrderRows: order_rows.py. Nautilus: the records and calls of NautilusTrader that the code uses.
--   Client: the state of the execution client and its helpers: State, Identity (attribution of a
--     notification to an order), Fills (prices, commissions, fill reports), Keeps (relations between
--     states before and after an action).
--   Recon: recon.py: Rows (one row), Reports (the freshest rows, re-arm, bulk reports, fill reports).
--   Intake: notification_intake.py: Actions (`notification_action`), Dispatch (the handlers), Redelivered
--     (deliveries of one fill in a row).
--   Commands: execution.py's commands and the mappings of _orders.py: Mapping, Gates (refusals and
--     failure classes), Submit, Change (modify and cancel), Bracket (`_submit_order_list`).
--   Convert: _convert.py: Quote (`bbo_to_fields`), Book, Pnl, Bars. Exposure: the PnL state of
--     execution.py and the snapshot of exposure.py: Feed (the handlers of PnL rows, with the epoch of a
--     poll), Request (`request_exposure`, working orders of a root, position reports).
--   Rearm: the order plant part of `_connect_attempt` with `_rearm_after_reconnect`; its subscriptions
--     are a list of session calls, each answered by a parameter.
--   TextSets: sets of texts. Inventory: inventory.py, with the poll rounds of its snapshot.
--   FillOnce: the dedup store across Intake and Recon. Polling: polling.py and errors.py.
--   Recovery: recovery_bridge.py. HistoryWindow: python/rithmic_gateway/history_window.py.
--   Fixtures and the Tests modules: concrete values, at which the results are applied.
--
-- Conventions. Prices and NautilusTrader's conversions are parameters (`Library` in Nautilus): building
-- a quantity or a price may fail, the engine's endpoint may refuse a report. Times are integers, and one
-- handler call reads the clock once. A float is its exact dyadic value. Texts are case-mapped as ASCII.
-- Rows have the types that the extension module gives them, so a branch that only another type reaches
-- is left out. A back-off of the poll loop is a multiple of 0.05 s. Integers have no bound: the u64
-- clock of lru.rs and the i64 sums of exposure.rs do not overflow here, while in the source 2 ^ 64
-- look-ups, or positions beyond 2 ^ 63, would. Where the code computes with floats, in the ticks of a
-- bracket, each result is rounded to the nearest double as binary64 does (Values/Doubles).
--
-- Fuel. The loop of `window_slices` runs on the length of its window, which is enough since every slice
-- but the last advances by a step of at least one. `recover_gap` of Polling retries for as long as its
-- callback fails; it has the number of tries as fuel and gives no result when they are used up.
--
-- Not modelled: logs, sleeps and threads; the asynchronous loading of drains; the restore after a
-- transport break and the mass status of execution.py; market data (`data.py`, `historical.py`,
-- `providers.py`), sessions, configuration and factories; the gateway client under
-- python/rithmic_gateway but for history windows; the Rust host, plants and gateway crates, which
-- are network services; generated protocol code, scripts and examples.
pub mod Base
pub mod Core
pub mod OrderPlant
pub mod Values
pub mod Notice
pub mod OrderRows
pub mod Nautilus
pub mod Client
pub mod Recon
pub mod Intake
pub mod FillOnce
pub mod Commands
pub mod Rearm
pub mod TextSets
pub mod Exposure
pub mod Inventory
pub mod Convert
pub mod Fixtures
pub mod HistoryWindow
pub mod Recovery
pub mod Polling
