-- ===== src/Intake/Dispatch.antt =====
-- notification_intake.py: the handlers.
use rithmic_nt_connect.Base.{
  ℕ, String, Bool, true, false, ◌&&◌, ◌||◌, not, Option, none, some, List, [], ◌∷◌, ◌==◌,
  if◌then◌else◌, ℤ, ltb_ℤ,
}
use rithmic_nt_connect.Values
use rithmic_nt_connect.Values.{
  Value, absent, Result, ok, err, Error, is_number_error, value_error, has_text, text_or_empty,
  show_int, show_value,
}
use rithmic_nt_connect.Core.Lru
use rithmic_nt_connect.Notice.{Fields}
use rithmic_nt_connect.Notice.Identity.{fill_identity_ts, fill_dedup_key}
use rithmic_nt_connect.OrderRows.{
  OrderType, OrderStatus, submitted, triggered, is_triggerable, is_kind,
}
use rithmic_nt_connect.OrderRows
use rithmic_nt_connect.Nautilus.{Library, Cache, Order, OrderStatusReport, FillReport, Event}
use rithmic_nt_connect.Client.State.{
  Host, Action, StatusKey, ◌>>=◌, ◌>>◌, pure, lift, asks, gets, emit, fill_key_seen, mark_fill_key,
  latch_order_plant,
}
use rithmic_nt_connect.Client.Identity.{resolve_client_order_id, bind_venue_id, venue_id_for}
use rithmic_nt_connect.Client.Fills.{
  price_from_wire, price_for_instrument, commission_rate, fill_report_from_fields, priced_or_none,
  seed_if,
}
use rithmic_nt_connect.Recon.Rows.{drain_row_from_fields}
use rithmic_nt_connect.Recon.Reports.{publish_order_status_report}
use rithmic_nt_connect.Intake.Actions.{
  OrderAction, accepts, cancels, triggers, rejects, modify_rejects, cancel_rejects, updates, fills,
  notification_action,
}

unfoldable pub is_submitted : OrderStatus → Bool
is_submitted submitted = true
is_submitted _ = false

unfoldable pub is_triggered : OrderStatus → Bool
is_triggered triggered = true
is_triggered _ = false

-- `int(ts_event) if ts_event is not None else clock`
unfoldable pub event_time : Fields → ℤ → ℤ
event_time f now = elim f.ts_event [ none ↦ now | some n ↦ n ]

unfoldable pub same_texts : List String → List String → Bool
same_texts [] [] = true
same_texts (x ∷ xs) (y ∷ ys) = x == y && same_texts xs ys
same_texts _ _ = false

unfoldable pub same_key : Option StatusKey → StatusKey → Bool
same_key none key = false
same_key (some last) key = same_texts last key

module _ {Price : Type 0} (nt : Library Price) where
  -- `emit_accepted`: only while the order is still submitted
  unfoldable pub emit_accepted : Order Price → String → String → ℤ → Action Price (Unit {0})
  emit_accepted order cid vid ts =
      if is_submitted order.status then emit (Event.accepted cid vid ts) else pure tt

  -- `emit_triggered_guarded`
  unfoldable pub emit_triggered_guarded :
      Order Price → String → String → ℤ → Action Price (Unit {0})
  emit_triggered_guarded order cid vid ts =
      if not (is_triggerable order.order_type) || is_triggered order.status
      then pure tt
      else emit (Event.triggered cid vid ts)

  -- a term of an update: the venue's, else the order's
  unfoldable pub updated_price : Option ℕ → Value → Option Price → Result (Option Price)
  updated_price precision absent held = ok held
  updated_price precision v held = Values.◌>>=◌ (price_from_wire nt v precision) (λ p. ok (some p))

  unfoldable pub order_precision : Option Price → Option ℕ
  order_precision none = none
  order_precision (some p) = some (nt.precision p)

  -- `resolve_updated_terms`
  unfoldable pub resolve_updated_terms :
      Order Price → ℤ → Value → Value → Result (ℤ × Option Price × Option Price)
  resolve_updated_terms order quantity price trigger =
      Values.◌>>=◌ (nt.quantity_from_int quantity) λ qty.
        Values.◌>>=◌ (updated_price (order_precision order.price) price order.price) λ p.
          Values.◌>>=◌ (updated_price (order_precision order.price) trigger order.trigger_price)
            λ t. ok (qty, p, t)

  -- quantity and price of a tracked fill, or `none` where it is not priceable
  unfoldable pub required_price : Cache Price → String → Value → Result Price
  required_price c instrument_id absent = err value_error
  required_price c instrument_id v = price_for_instrument nt c instrument_id v

  unfoldable pub fill_terms : Order Price → ℤ → Value → Host Price → Result (Option (ℤ × Price))
  fill_terms order fill_qty fill_px h = priced_or_none nt (
      Values.◌>>=◌ (nt.quantity_from_int fill_qty)
        λ qty. Values.◌>>=◌ (required_price h.cache order.instrument_id fill_px) λ p. ok (qty, p))

  unfoldable pub exceeds : ℤ → Option ℤ → Bool
  exceeds qty none = false
  exceeds qty (some leaves) = ltb_ℤ leaves qty

  -- an overfill latches, and the fill still goes out
  unfoldable pub send_fill :
      Order Price
      → String
      → String
      → String
      → ℤ
      → String
      → Option String
      → Option (ℤ × Price)
      → Action Price (Unit {0})
  send_fill order cid vid trade_id ts key symbol none = latch_order_plant
  send_fill order cid vid trade_id ts key symbol (some (qty, px)) = do
    (if exceeds qty order.leaves_qty then latch_order_plant else pure tt)
    rate ← gets (λ h. commission_rate nt h order.instrument_id symbol)
    emit (Event.filled cid vid trade_id qty px rate ts)
    mark_fill_key key

  -- `handle_tracked_fill`; the action carries a quantity and a trade id by its type
  unfoldable pub handle_tracked_fill :
      Order Price → String → String → Fields → ℤ → ℤ → Value → String → Action Price (Unit {0})
  handle_tracked_fill order cid vid f ts fill_qty fill_px trade_id =
      let key = fill_dedup_key nt.show_float f (fill_identity_ts f) in
      do
        seen ← fill_key_seen key
        if seen then pure tt else (do
          terms ← asks (fill_terms order fill_qty fill_px)
          send_fill order cid vid trade_id ts key f.symbol terms)

  unfoldable pub act :
      Order Price → String → String → Fields → ℤ → OrderAction → Action Price (Unit {0})
  act order cid vid f ts accepts = emit_accepted order cid vid ts
  act order cid vid f ts (rejects reason) = emit (Event.rejected cid reason ts)
  act order cid vid f ts (modify_rejects reason) = emit (Event.modify_rejected cid vid reason ts)
  act order cid vid f ts (cancel_rejects reason) = emit (Event.cancel_rejected cid vid reason ts)
  act order cid vid f ts (updates quantity price trigger) = do
    terms ← lift (resolve_updated_terms order quantity price trigger)
    emit (Event.updated cid vid terms.0 terms.1 terms.2 ts)
  act order cid vid f ts cancels = emit (Event.canceled cid vid ts)
  act order cid vid f ts triggers = emit_triggered_guarded order cid vid ts
  act order cid vid f ts (fills qty px trade_id) =
      handle_tracked_fill order cid vid f ts qty px trade_id

  unfoldable pub act_if :
      Order Price → String → String → Fields → ℤ → Option OrderAction → Action Price (Unit {0})
  act_if order cid vid f ts none = pure tt
  act_if order cid vid f ts (some action) = act order cid vid f ts action

  -- the tracked half of `handle_order_notification`
  unfoldable pub handle_tracked : Fields → ℤ → String → Order Price → Action Price (Unit {0})
  handle_tracked f now cid order = do
    (if has_text f.basket_id then bind_venue_id nt cid (text_or_empty f.basket_id) else pure tt)
    vid ← gets (λ h. venue_id_for h.cache f (some cid))
    action ← lift (notification_action nt.show_float f order.quantity)
    act_if order cid vid f (event_time f now) action

  -- The texts of a report, by which an unchanged one is known.
  unfoldable pub show_optional : Option Price → String
  show_optional none = "None"
  show_optional (some p) = nt.show_price p

  unfoldable pub status_key : OrderStatusReport Price → StatusKey
  status_key r =
      r.venue_order_id
      ∷ OrderRows.status_name r.order_status
      ∷ show_int r.quantity
      ∷ show_optional r.price
      ∷ show_optional r.trigger_price
      ∷ show_int r.filled_qty
      ∷ show_value nt.show_float r.avg_px
      ∷ []

  -- `status_key` was the last one recorded for the venue order; a hit refreshes the entry
  unfoldable pub status_unchanged : String → StatusKey → Action Price Bool
  status_unchanged vid key h =
      let (book, last) = Lru.get vid h.untracked_status_keys in
      (ok (same_key last key), record h { untracked_status_keys = book })

  unfoldable pub record_status : String → StatusKey → Action Price (Unit {0})
  record_status vid key h =
      (ok tt, record h { untracked_status_keys = Lru.put vid key h.untracked_status_keys })

  unfoldable pub publish_new : OrderStatusReport Price → StatusKey → Action Price Bool
  publish_new report key = do
    sent ← publish_order_status_report nt report
    if sent then (do record_status report.venue_order_id key; pure true) else pure false

  unfoldable pub publish_changed : Option (OrderStatusReport Price) → Action Price Bool
  publish_changed none = pure true
  publish_changed (some report) = do
    unchanged ← status_unchanged report.venue_order_id (status_key report)
    if unchanged then pure true else publish_new report (status_key report)

  -- `publish_untracked_status`: false suppresses the fill
  unfoldable pub publish_untracked_status : Fields → ℤ → ℤ → Action Price Bool
  publish_untracked_status f ts now = do
    row ← drain_row_from_fields nt f ts now
    publish_changed row.report

  unfoldable pub send_and_mark : String → Option (FillReport Price) → Action Price (Unit {0})
  send_and_mark key none = pure tt
  send_and_mark key (some report) = do emit (Event.fill_reported report); mark_fill_key key

  -- `publish_untracked_fill`
  unfoldable pub publish_untracked_fill : Fields → ℤ → Action Price (Unit {0})
  publish_untracked_fill f now =
      let ts = fill_identity_ts f in
      let key = fill_dedup_key nt.show_float f ts in
      if is_kind "filled" f.kind
      then (do
        seen ← fill_key_seen key
        if seen
            then pure tt
            else (do report ← fill_report_from_fields nt f ts now; send_and_mark key report))
      else pure tt

  unfoldable pub publish_for_account : Fields → ℤ → Option String → Action Price (Unit {0})
  publish_for_account f now none = pure tt
  publish_for_account f now (some account) = do
    forwarded ← publish_untracked_status f (event_time f now) now
    if forwarded then publish_untracked_fill f now else pure tt

  unfoldable pub has_identity : Fields → Bool
  has_identity f = has_text f.basket_id && (has_text f.instrument_id || has_text f.symbol)

  -- `handle_untracked_notification`
  unfoldable pub handle_untracked_notification : Fields → ℤ → Action Price (Unit {0})
  handle_untracked_notification f now =
      if has_identity f
      then (do
        seed_if f.account_id
        account ← gets (λ h. h.account_id)
        publish_for_account f now account)
      else pure tt

  unfoldable pub handle_resolved :
      Fields → ℤ → Option String → Host Price → Result (Unit {0}) × Host Price
  handle_resolved f now none h = handle_untracked_notification f now h
  handle_resolved f now (some cid) h = elim (h.cache.order cid) [
    | none ↦ (ok tt, h)
    | some order ↦ handle_tracked f now cid order h
  ]

  -- `handle_order_notification`
  unfoldable pub handle_order_notification : Fields → ℤ → Action Price (Unit {0})
  handle_order_notification f now = do
    seed_if f.account_id
    cid ← gets (λ h. resolve_client_order_id h.cache f)
    handle_resolved f now cid
