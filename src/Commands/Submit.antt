-- ===== src/Commands/Submit.antt =====
-- execution.py: `_submit_order`.
use rithmic_nt_connect.Base.{String, Option, none, some, [], ◌∷◌, if◌then◌else◌, ℤ, pos}
use rithmic_nt_connect.Values
use rithmic_nt_connect.Values.{Result, ok, err, Error}
use rithmic_nt_connect.Polling.{Failure}
use rithmic_nt_connect.Nautilus.{Order, Event, Request, Cache}
use rithmic_nt_connect.Client.State.{Action, ◌>>◌, raise, emit}
use rithmic_nt_connect.Commands.Mapping.{
  route, nautilus_side_to_rithmic, nautilus_order_type_to_rithmic, nautilus_tif_to_rithmic,
  trailing_ticks_from_order,
}
use rithmic_nt_connect.Commands.Gates.{
  submit, command_refusal, is_value_error, deny_all, reject_all, request,
}

abbrev pub default_trail_by_price_id : ℤ
default_trail_by_price_id = pos 1

unfoldable pub trail_by_price_id : Option ℤ → Option ℤ
trail_by_price_id none = none
trail_by_price_id (some ticks) = some default_trail_by_price_id

module _ {Price : Type 0} where
  -- the request for an order, in the order of the conversions
  unfoldable pub place_request : Cache Price → Order Price → Result (Request Price)
  place_request c o = Values.◌>>=◌ (route c o.instrument_id) λ (symbol, exchange).
      Values.◌>>=◌ (nautilus_side_to_rithmic o.side) λ side.
        Values.◌>>=◌ (nautilus_order_type_to_rithmic o.order_type) λ price_type.
          Values.◌>>=◌ (nautilus_tif_to_rithmic o.time_in_force) λ duration.
            Values.◌>>=◌ (trailing_ticks_from_order o) λ trail. ok (
              Request.place_order symbol exchange side price_type o.quantity o.client_order_id
                o.price o.trigger_price duration trail (trail_by_price_id trail))

-- `session` is what the session raises for a request, `show_error` an exception's text.
module _ {Price : Type 0} (session : Request Price → Option Failure)
    (show_error : Error → String) where
  unfoldable pub send_order : Order Price → ℤ → Result (Request Price) → Action Price (Unit {0})
  send_order o now (err e) =
      if is_value_error e then deny_all (o ∷ []) now (show_error e) else raise e
  send_order o now (ok r) = do
    emit (Event.submitted o.client_order_id now)
    request session r (reject_all (o ∷ []) now)

  unfoldable pub if_allowed : Order Price → ℤ → Option String → Action Price (Unit {0})
  if_allowed o now (some reason) h = deny_all (o ∷ []) now reason h
  if_allowed o now none h = send_order o now (place_request h.cache o) h

  -- `_submit_order`
  unfoldable pub submit_order : Order Price → ℤ → Action Price (Unit {0})
  submit_order o now h = if_allowed o now (command_refusal submit h) h
