-- ===== src/Recon/Rows.antt =====
-- recon.py: the interpretation of one drain row, and the rows of a drain.
use rithmic_nt_connect.Base.{
  String, Bool, false, not, Option, none, some, List, [], ◌∷◌, ◌==◌, if◌then◌else◌, ℤ, pos, eqb_ℤ,
  ltb_ℤ,
}
use rithmic_nt_connect.Values
use rithmic_nt_connect.Values.{
  Value, absent, Result, ok, err, Error, to_int_or_zero, is_number_error, has_text, text_or_empty,
}
use rithmic_nt_connect.Notice.{Wire, Fields, Side, buy, order_side_from_notification}
use rithmic_nt_connect.Notice.Normalize.{order_notification_to_fields}
use rithmic_nt_connect.OrderRows.{
  order_type_from_fields, tif_from_fields, trigger_type_from_fields, order_status_from_fields,
  row_is_trustworthy,
}
use rithmic_nt_connect.Nautilus.{Library, OrderStatusReport}
use rithmic_nt_connect.Client.State.{Action, ◌>>=◌, ◌>>◌, pure, lift, gets, given}
use rithmic_nt_connect.Client.Identity.{instrument_id_from_order_fields}
use rithmic_nt_connect.Client.Fills.{price_from_wire, seed_if}

pub record DrainRowResult (Price : Type 0) : Type 0 where
  pub fields : Fields
  pub ts_event : ℤ
  pub report : Option (OrderStatusReport Price)
  pub bindable : Bool

unfoldable pub side_or_buy : Option Side → Side
side_or_buy none = buy
side_or_buy (some s) = s

-- `max(0, n)`
unfoldable pub at_least_zero : ℤ → ℤ
at_least_zero n = if ltb_ℤ n (pos 0) then pos 0 else n

-- `ts_event or clock`
abbrev pub ts_or_now : ℤ → ℤ → ℤ
ts_or_now ts now = if eqb_ℤ ts (pos 0) then now else ts

-- an empty tag is no client order id
unfoldable pub client_order_id_for_tag : Option String → Option String
client_order_id_for_tag none = none
client_order_id_for_tag (some t) = if t == "" then none else some t

module _ {Price : Type 0} (nt : Library Price) where
  unfoldable pub optional_price : Value → Result (Option Price)
  optional_price absent = ok none
  optional_price v = Values.◌>>=◌ (price_from_wire nt v none) (λ p. ok (some p))

  unfoldable pub report_terms :
      Fields
      → ℤ
      → ℤ
      → String
      → String
      → Option Side
      → ℤ
      → ℤ
      → Option Price
      → Option Price
      → Result (Option (OrderStatusReport Price))
  report_terms f ts_event now account instrument_id side qty done price trigger =
      if not (ltb_ℤ (pos 0) qty)
      then ok none
      else Values.◌>>=◌ (order_status_from_fields f) λ status. ok (
          some (record {
            account_id = account;
            instrument_id = instrument_id;
            venue_order_id = text_or_empty f.basket_id;
            order_side = side_or_buy side;
            order_type = order_type_from_fields f;
            time_in_force = tif_from_fields f;
            order_status = status;
            quantity = qty;
            filled_qty = done;
            ts_accepted = ts_or_now ts_event now;
            ts_last = ts_or_now ts_event now;
            ts_init = now;
            client_order_id = client_order_id_for_tag f.user_tag;
            price = price;
            trigger_price = trigger;
            trigger_type = trigger_type_from_fields f;
            avg_px = f.avg_fill_price;
          }))

  -- the body of the `try`, in the order of its conversions
  unfoldable pub try_report :
      Fields → ℤ → ℤ → String → String → Result (Option (OrderStatusReport Price))
  try_report f ts_event now account instrument_id =
      Values.◌>>=◌ (order_side_from_notification f) λ side.
        Values.◌>>=◌ (to_int_or_zero f.quantity) λ n.
          Values.◌>>=◌ (nt.quantity_from_int (at_least_zero n)) λ qty.
            Values.◌>>=◌ (to_int_or_zero f.total_fill_size) λ m.
              Values.◌>>=◌ (nt.quantity_from_int (at_least_zero m)) λ done.
                Values.◌>>=◌ (optional_price f.price) λ price.
                  Values.◌>>=◌ (optional_price f.trigger_price) λ trigger.
                    report_terms f ts_event now account instrument_id side qty done price trigger

  -- `except (TypeError, ValueError, OverflowError): return None`
  unfoldable pub or_skip :
      Result (Option (OrderStatusReport Price)) → Result (Option (OrderStatusReport Price))
  or_skip (ok r) = ok r
  or_skip (err e) = if is_number_error e then ok none else err e

  unfoldable pub for_account :
      Fields → ℤ → ℤ → String → Option String → Result (Option (OrderStatusReport Price))
  for_account f ts_event now instrument_id none = ok none
  for_account f ts_event now instrument_id (some account) =
      or_skip (try_report f ts_event now account instrument_id)

  -- `order_status_report_from_fields`
  unfoldable pub order_status_report_from_fields :
      Fields → ℤ → ℤ → Action Price (Option (OrderStatusReport Price))
  order_status_report_from_fields f ts_event now =
      given (instrument_id_from_order_fields nt f) (pure none) λ instrument_id.
        if has_text f.basket_id
        then (do
          seed_if f.account_id
          account ← gets (λ h. h.account_id)
          lift (for_account f ts_event now instrument_id account))
        else pure none

  unfoldable pub bindable_row : Fields → Option (OrderStatusReport Price) → Result Bool
  bindable_row f none = ok false
  bindable_row f (some r) = row_is_trustworthy f

  -- `drain_row_from_fields`
  unfoldable pub drain_row_from_fields : Fields → ℤ → ℤ → Action Price (DrainRowResult Price)
  drain_row_from_fields f ts_event now = do
    report ← order_status_report_from_fields f ts_event now
    bindable ← lift (bindable_row f report)
    pure (record { fields = f; ts_event = ts_event; report = report; bindable = bindable })

-- `int(fields.get("ts_event") or 0)`
unfoldable pub row_ts : Fields → ℤ
row_ts f = elim f.ts_event [ none ↦ pos 0 | some n ↦ n ]

module _ {Price A : Type 0} (nt : Library Price) where
  abbrev pub keep : Option A → List A → List A
  keep none rows = rows
  keep (some a) rows = a ∷ rows

  unfoldable pub visit :
      (DrainRowResult Price → Action Price (Option A))
      → DrainRowResult Price
      → Action Price (Option A)
  visit body row = given row.report (pure none) λ r. body row

  unfoldable pub read_row :
      Wire → ℤ → (DrainRowResult Price → Action Price (Option A)) → Action Price (Option A)
  read_row raw now body = elim (order_notification_to_fields nt.parse_float raw) [
    | err e ↦ pure none
    | ok f ↦
        if has_text f.basket_id
        then (do row ← drain_row_from_fields nt f (row_ts f) now; visit body row)
        else pure none
  ]

  -- The generator `iter_drain_rows` with the body of the loop that consumes it: rows that do not
  -- normalize, have no basket or no report are skipped, and the body's results are collected. After
  -- normalization `ts_event` is an integer or absent, so its coercion does not fail.
  unfoldable pub iter_drain_rows :
      List Wire → ℤ → (DrainRowResult Price → Action Price (Option A)) → Action Price (List A)
  iter_drain_rows [] now body = pure []
  iter_drain_rows (raw ∷ events) now body =
      let rest = iter_drain_rows events now body in
      do a ← read_row raw now body; rows ← rest; pure (keep a rows)
