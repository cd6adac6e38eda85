-- ===== src/Recon/Tests.antt =====
-- A drained row about an order that the cache holds as closed, and about one that is open.
use rithmic_nt_connect.Base.{[], ◌∷◌, All, ℤ, pos, none}
use rithmic_nt_connect.Client.State.{Host}
use rithmic_nt_connect.Core.DrainRules.{stale_reason}
use rithmic_nt_connect.Client.Identity.{drain_client_order_id}
use rithmic_nt_connect.Recon.Reports.{apply_row, forwarded, row_stale_reason, order_stale_reason}
use rithmic_nt_connect.Recon.Apply.{RowOutcome, FromRow, apply_row-Outcome, forwarded-FromRow}
use rithmic_nt_connect.Fixtures.{library, host_with, cache_of, open_order, report, row}

-- a client whose open order is older than the row and has no venue id yet
abbrev unbound_host : Host ℤ
unbound_host =
    host_with
      record (cache_of (record open_order { ts_last = pos 1 })) { venue_order_id = λ s. none }

apply_row-Outcome_example : RowOutcome library unbound_host row (apply_row library row unbound_host)
apply_row-Outcome_example = apply_row-Outcome library row unbound_host

-- the report of an open order is forwarded
forwarded-FromRow_example :
    All (FromRow library (host_with (cache_of open_order)) (row ∷ [])) (report ∷ [])
unfolding forwarded row_stale_reason order_stale_reason stale_reason drain_client_order_id
forwarded-FromRow_example = forwarded-FromRow library (row ∷ []) (host_with (cache_of open_order))
