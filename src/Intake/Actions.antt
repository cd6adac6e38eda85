-- ===== src/Intake/Actions.antt =====
-- `notification_action` of _orders.py: a normalized notification as one action of the client.
use rithmic_nt_connect.Base.{
  String, Bool, true, false, ◌&&◌, Option, none, some, ◌==◌, if◌then◌else◌, ℤ, lower, same_text,
  codes, upper_string,
}
use rithmic_nt_connect.Values
use rithmic_nt_connect.Values.{
  Value, absent, Float, Result, ok, err, Error, to_int, has_text, text_or_empty,
}
use rithmic_nt_connect.Notice.{Fields}
use rithmic_nt_connect.Notice.Identity.{fill_identity_ts, trade_id_from_fill_fields}
use rithmic_nt_connect.Core.Notify
use rithmic_nt_connect.OrderRows.{OrderStatus, filled, canceled}
use rithmic_nt_connect.Nautilus.{Order}

pub data OrderAction : Type 0 where
  accepts cancels triggers : OrderAction
  rejects modify_rejects cancel_rejects : (reason : String) → OrderAction
  updates : (quantity : ℤ) (price trigger : Value) → OrderAction
  fills : (fill_qty : ℤ) (fill_px : Value) (trade_id : String) → OrderAction

-- `_text_or_none`
text_or_none : Option String → Option String
text_or_none none = none
text_or_none (some s) = if s == "" then none else some s

module _ (show_float : Float → String) where
  updated_quantity : Value → ℤ → Result ℤ
  unfolding to_int
  updated_quantity absent order_quantity = ok order_quantity
  updated_quantity v order_quantity = to_int v

  fill_action : Fields → Value → Result (Option OrderAction)
  unfolding to_int fill_identity_ts trade_id_from_fill_fields
  fill_action f absent = ok none
  fill_action f fill_size = Values.◌>>=◌ (to_int fill_size) λ n.
      ok (some (fills n f.fill_price (trade_id_from_fill_fields show_float f (fill_identity_ts f))))

  decided_action : Fields → ℤ → String → Option String → Result (Option OrderAction)
  unfolding updated_quantity fill_action
  decided_action f quantity action reason =
      if action == "updated"
      then (Values.◌>>=◌ (updated_quantity f.quantity quantity)
          λ n. ok (some (updates n f.price f.trigger_price)))
      else if action == "filled"
      then fill_action f f.fill_size
      else if action == "accepted"
      then ok (some accepts)
      else if action == "canceled"
      then ok (some cancels)
      else if action == "triggered"
      then ok (some triggers)
      else if action == "rejected"
      then ok (some (rejects (text_or_empty reason)))
      else if action == "modify_rejected"
      then ok (some (modify_rejects (text_or_empty reason)))
      else if action == "cancel_rejected"
      then ok (some (cancel_rejects (text_or_empty reason)))
      else ok none

  -- `notification_action`; `quantity` is the order's, used by an update that carries none
  unfoldable pub notification_action : Fields → ℤ → Result (Option OrderAction)
  unfolding text_or_none decided_action Notify.notification_action
  notification_action f quantity =
      if has_text f.kind
      then elim (Notify.notification_action (text_or_empty f.kind) (text_or_none f.text)
          (text_or_none f.report_text) (text_or_none f.status)) [
            | none ↦ ok none
            | some (action, reason) ↦ decided_action f quantity action reason
          ]
      else ok none

is_absent : Value → Bool
is_absent absent = true
is_absent v = false

is_filled_or_canceled : OrderStatus → Bool
is_filled_or_canceled filled = true
is_filled_or_canceled canceled = true
is_filled_or_canceled _ = false

no_kind : Option String → Bool
no_kind none = true
no_kind (some k) = false

-- `is_benign_bare_complete`
unfoldable pub is_benign_bare_complete : {Price : Type 0} → Fields → Option (Order Price) → Bool
unfolding is_absent is_filled_or_canceled no_kind
is_benign_bare_complete f none = false
is_benign_bare_complete f (some o) =
    o.is_closed
    && (f.source == "rithmic"
        && (upper_string (text_or_empty f.notify_type_name) == "COMPLETE"
            && (same_text (lower (text_or_empty f.status)) (codes "complete")
                && (no_kind f.kind
                    && (is_absent f.quantity
                        && (is_absent f.fill_size
                            && (no_kind f.fill_id && is_filled_or_canceled o.status)))))))
