-- ===== src/Recon/Reports.antt =====
-- recon.py: the freshest rows of a drain, when a row is stale, and what reconciliation reports.
use rithmic_nt_connect.Base.{
  ℕ, zero, suc, String, Bool, true, false, ◌&&◌, not, Option, none, some, List, [], ◌∷◌,
  if◌then◌else◌, ℤ, pos, eqb_ℤ, map, is_some, select, is_some,
}
use rithmic_nt_connect.Values.{ok, query_unavailable, text_or_empty}
use rithmic_nt_connect.Notice.{Wire}
use rithmic_nt_connect.Notice.Identity.{fill_dedup_key}
use rithmic_nt_connect.Core.DrainRules
use rithmic_nt_connect.Core.DrainRules.{StaleReason, freshest_per_key}
use rithmic_nt_connect.OrderRows.{is_terminal, is_kind}
use rithmic_nt_connect.Nautilus.{Library, Order, OrderStatusReport, FillReport, Event}
use rithmic_nt_connect.Client.State.{
  Host, Action, ◌>>=◌, ◌>>◌, pure, raise, gets, emit, fill_key_seen, mark_fill_key,
}
use rithmic_nt_connect.Client.Identity.{matches_instrument, drain_client_order_id, bind_venue_id}
use rithmic_nt_connect.Client.Fills.{fill_report_from_fields}
use rithmic_nt_connect.Recon.Rows.{
  DrainRowResult, iter_drain_rows, drain_row_from_fields, ts_or_now,
}

module _ {A : Type 0} where
  abbrev pub get_elem? : List A → ℕ → Option A
  get_elem? [] i = none
  get_elem? (x ∷ xs) zero = some x
  get_elem? (x ∷ xs) (suc i) = get_elem? xs i

  abbrev pub pick : List A → List ℕ → List A
  pick xs [] = []
  pick xs (i ∷ is) = elim (get_elem? xs i) [ none ↦ pick xs is | some x ↦ x ∷ pick xs is ]

-- the order's last event time, read only when the rule can use it
unfoldable pub age : Bool → Bool → ℤ → ℤ → ℤ
age closed live row_ts ts_last =
    if not closed && (live && not (eqb_ℤ row_ts (pos 0))) then ts_last else pos 0

module _ {Price : Type 0} where
  abbrev pub basket_and_ts : DrainRowResult Price → String × ℤ
  basket_and_ts row = (text_or_empty row.fields.basket_id, row.ts_event)

  -- the freshest row of each basket, in order of the baskets' first appearance
  unfoldable pub freshest_rows : List (DrainRowResult Price) → List (DrainRowResult Price)
  freshest_rows candidates = pick candidates (freshest_per_key (map basket_and_ts candidates))

  unfoldable pub non_terminal : Option (OrderStatusReport Price) → Bool
  non_terminal none = false
  non_terminal (some r) = not (is_terminal r.order_status)

  unfoldable pub order_stale_reason :
      Option (Order Price) → DrainRowResult Price → Bool → Option StaleReason
  order_stale_reason none row live = none
  order_stale_reason (some o) row live = DrainRules.stale_reason (record {
    order_closed = o.is_closed;
    live_stream_authoritative = live;
    report_non_terminal = non_terminal row.report;
    row_ts_ns = row.ts_event;
    order_ts_last_ns = age o.is_closed live row.ts_event o.ts_last;
  })

  -- `row_stale_reason`
  unfoldable pub row_stale_reason :
      Option String → DrainRowResult Price → Bool → Host Price → Option StaleReason
  row_stale_reason none row live h = none
  row_stale_reason (some cid) row live h = order_stale_reason (h.cache.order cid) row live

module _ {Price : Type 0} (nt : Library Price) where
  -- `_publish_order_status_report`: false, and nothing sent, when the engine's endpoint raises
  unfoldable pub publish_order_status_report : OrderStatusReport Price → Action Price Bool
  publish_order_status_report report =
      if nt.send_fails report
      then pure false
      else (do emit (Event.status_reported report); pure true)

  unfoldable pub candidate :
      Option String → DrainRowResult Price → Action Price (Option (DrainRowResult Price))
  candidate instrument_id row =
      if matches_instrument row.fields instrument_id none then pure (some row) else pure none

  -- `latest_drain_rows`; the dict's values, in order
  unfoldable pub latest_drain_rows :
      List Wire → Option String → ℤ → Action Price (List (DrainRowResult Price))
  latest_drain_rows events instrument_id now = do
    candidates ← iter_drain_rows nt events now (candidate instrument_id)
    pure (freshest_rows candidates)

  abbrev wants_bind : DrainRowResult Price → String → Host Price → Bool
  wants_bind row cid h =
      row.bindable && (is_some (h.cache.order cid) && not (is_some (h.cache.venue_order_id cid)))

  unfoldable pub bind_row : Option String → DrainRowResult Price → Action Price (Unit {0})
  bind_row none row h = (ok tt, h)
  bind_row (some cid) row h =
      if wants_bind row cid h
      then bind_venue_id nt cid (text_or_empty row.fields.basket_id) h
      else (ok tt, h)

  unfoldable pub publish_then_bind :
      Option String → DrainRowResult Price → OrderStatusReport Price → Action Price (Unit {0})
  publish_then_bind cid row report = do
    sent ← publish_order_status_report report
    if sent then bind_row cid row else raise query_unavailable

  unfoldable pub apply_row : DrainRowResult Price → Action Price (Unit {0})
  apply_row row h = elim row.report [
    | none ↦ (ok tt, h)
    | some report ↦
        if is_some (row_stale_reason (drain_client_order_id h.cache row.fields) row true h)
        then (ok tt, h)
        else publish_then_bind (drain_client_order_id h.cache row.fields) row report h
  ]

  unfoldable pub apply_rows : List (DrainRowResult Price) → Action Price (Unit {0})
  apply_rows [] = pure tt
  apply_rows (row ∷ rows) = let rest = apply_rows rows in do apply_row row; rest

  -- `apply_drain_rows`
  unfoldable pub apply_drain_rows : List Wire → ℤ → Action Price (Unit {0})
  apply_drain_rows events now = do rows ← latest_drain_rows events none now; apply_rows rows

  unfoldable pub open_report : OrderStatusReport Price → Bool
  open_report r = not (is_terminal r.order_status)

  -- the reports that forward, under the advisory authority of bulk reconciliation
  unfoldable pub forwarded :
      List (DrainRowResult Price) → Host Price → List (OrderStatusReport Price)
  forwarded [] h = []
  forwarded (row ∷ rows) h =
      let rest = forwarded rows h in
      if is_some (row_stale_reason (drain_client_order_id h.cache row.fields) row false h)
      then rest
      else elim row.report [ none ↦ rest | some r ↦ r ∷ rest ]

  -- `order_status_reports_from_events`
  unfoldable pub order_status_reports_from_events :
      List Wire → Option String → Bool → ℤ → Action Price (List (OrderStatusReport Price))
  order_status_reports_from_events [] instrument_id true now = pure []
  order_status_reports_from_events [] instrument_id false now = raise query_unavailable
  order_status_reports_from_events (e ∷ es) instrument_id open_only now = do
    rows ← latest_drain_rows (e ∷ es) instrument_id now
    reports ← gets (forwarded rows)
    pure (if open_only then select open_report reports else reports)

  unfoldable pub publish_then_mark :
      String
      → FillReport Price
      → Option (OrderStatusReport Price)
      → Action Price (Option (FillReport Price))
  publish_then_mark key report none = pure none
  publish_then_mark key report (some status) = do
    sent ← publish_order_status_report status
    if sent then (do mark_fill_key key; pure (some report)) else pure none

  -- a fill is reported after its order's status, which carries the clock where the venue has no time
  unfoldable pub report_fill :
      DrainRowResult Price
      → ℤ
      → String
      → Option (FillReport Price)
      → Action Price (Option (FillReport Price))
  report_fill row now key none = pure none
  report_fill row now key (some report) = do
    status ← drain_row_from_fields nt row.fields (ts_or_now row.ts_event now) now
    publish_then_mark key report status.report

  -- the body of the loop in `generate_fill_reports`
  unfoldable pub fill_row :
      Option String
      → Option String
      → ℤ
      → DrainRowResult Price
      → Action Price (Option (FillReport Price))
  fill_row instrument_id venue_order_id now row =
      let key = fill_dedup_key nt.show_float row.fields row.ts_event in
      if is_kind "filled" row.fields.kind
        && matches_instrument row.fields instrument_id venue_order_id
      then (do
        seen ← fill_key_seen key
        if seen then pure none else (do
          report ← fill_report_from_fields nt row.fields row.ts_event now
          report_fill row now key report))
      else pure none

  -- `generate_fill_reports`, after the drain
  unfoldable pub generate_fill_reports :
      List Wire → Option String → Option String → ℤ → Action Price (List (FillReport Price))
  generate_fill_reports events instrument_id venue_order_id now =
      iter_drain_rows nt events now (fill_row instrument_id venue_order_id now)
