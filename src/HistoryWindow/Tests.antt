-- ===== src/HistoryWindow/Tests.antt =====
-- A window that is longer than one slice.
