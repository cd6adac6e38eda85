-- ===== src/Commands/Change.antt =====
-- execution.py: `_modify_order`, `_cancel_order`, `_cancel_all_orders` and `_batch_cancel_orders`.
use rithmic_nt_connect.Base.{
  String, Option, none, some, List, [], ◌∷◌, if◌then◌else◌, ℤ, or_else, map,
}
use rithmic_nt_connect.Values
use rithmic_nt_connect.Values.{Result, ok, err, Error, has_text, text_or_empty}
use rithmic_nt_connect.Polling.{Failure}
use rithmic_nt_connect.Nautilus.{Order, Request, Cache}
use rithmic_nt_connect.Client.State.{Action, ◌>>◌, pure, raise}
use rithmic_nt_connect.Commands.Mapping.{
  route, nautilus_order_type_to_rithmic, trailing_ticks_from_order,
}
use rithmic_nt_connect.Commands.Gates.{
  modify, cancel, command_refusal, is_value_error, modify_rejected, cancel_rejected, request,
}

pub record ModifyCommand (Price : Type 0) : Type 0 where
  pub client_order_id : String
  pub instrument_id : String
  pub venue_order_id : Option String
  pub quantity : Option ℤ
  pub price : Option Price
  pub trigger_price : Option Price

pub record CancelCommand : Type 0 where
  pub client_order_id : String
  pub venue_order_id : Option String

unfoldable pub value_or : Option ℤ → ℤ → ℤ
value_or none n = n
value_or (some m) n = m

module _ {Price : Type 0} where
  -- `_venue_id_for_order`
  unfoldable pub venue_id_for_order : Cache Price → Order Price → Option String
  venue_id_for_order c o = or_else (c.venue_order_id o.client_order_id) o.venue_order_id

  unfoldable pub modify_request :
      Cache Price → ModifyCommand Price → Order Price → String → Result (Request Price)
  modify_request c m o venue_id = Values.◌>>=◌ (route c m.instrument_id) λ (symbol, exchange).
      Values.◌>>=◌ (nautilus_order_type_to_rithmic o.order_type) λ price_type.
        Values.◌>>=◌ (trailing_ticks_from_order o) λ trail. ok (
          Request.modify_order venue_id symbol exchange (value_or m.quantity o.quantity) price_type
            (or_else m.price o.price) (or_else m.trigger_price o.trigger_price) trail)

  -- the venue id of a cancel: the command's, else the cache's
  unfoldable pub cancel_venue_id : Cache Price → CancelCommand → Option String
  cancel_venue_id c m =
      if has_text m.venue_order_id
      then m.venue_order_id
      else or_else (c.venue_order_id m.client_order_id) m.venue_order_id

module _ {Price : Type 0} (session : Request Price → Option Failure)
    (show_error : Error → String) where
  unfoldable pub send_modify :
      ModifyCommand Price → String → ℤ → Result (Request Price) → Action Price (Unit {0})
  send_modify m venue_id now (err e) =
      if is_value_error e
      then modify_rejected m.client_order_id (some venue_id) now (show_error e)
      else raise e
  send_modify m venue_id now (ok r) =
      request session r (modify_rejected m.client_order_id (some venue_id) now)

  unfoldable pub modify_known :
      ModifyCommand Price → ℤ → Order Price → Option String → Action Price (Unit {0})
  modify_known m now o venue_id h =
      if has_text venue_id
      then send_modify m (text_or_empty venue_id) now
          (modify_request h.cache m o (text_or_empty venue_id)) h
      else modify_rejected m.client_order_id m.venue_order_id now "no venue basket_id for modify" h

  unfoldable pub modify_cached :
      ModifyCommand Price → ℤ → Option (Order Price) → Action Price (Unit {0})
  modify_cached m now none h =
      modify_rejected m.client_order_id m.venue_order_id now "order not in cache" h
  modify_cached m now (some o) h = modify_known m now o (venue_id_for_order h.cache o) h

  unfoldable pub modify_if_allowed :
      ModifyCommand Price → ℤ → Option String → Action Price (Unit {0})
  modify_if_allowed m now (some reason) h =
      modify_rejected m.client_order_id m.venue_order_id now reason h
  modify_if_allowed m now none h = modify_cached m now (h.cache.order m.client_order_id) h

  -- `_modify_order`
  unfoldable pub modify_order : ModifyCommand Price → ℤ → Action Price (Unit {0})
  modify_order m now h = modify_if_allowed m now (command_refusal modify h) h

  unfoldable pub send_cancel : CancelCommand → ℤ → Option String → Action Price (Unit {0})
  send_cancel m now venue_id =
      if has_text venue_id
      then request session (Request.cancel_order (text_or_empty venue_id))
          (cancel_rejected m.client_order_id venue_id now)
      else cancel_rejected m.client_order_id none now "no venue basket_id for cancel"

  unfoldable pub cancel_if_allowed :
      CancelCommand → ℤ → Option String → Option String → Action Price (Unit {0})
  cancel_if_allowed m now venue_id (some reason) =
      cancel_rejected m.client_order_id venue_id now reason
  cancel_if_allowed m now venue_id none = send_cancel m now venue_id

  -- `_cancel_order`
  unfoldable pub cancel_order : CancelCommand → ℤ → Action Price (Unit {0})
  cancel_order m now h =
      cancel_if_allowed m now (cancel_venue_id h.cache m) (command_refusal cancel h) h

  -- `_batch_cancel_orders`
  unfoldable pub batch_cancel_orders : List CancelCommand → ℤ → Action Price (Unit {0})
  batch_cancel_orders [] now = pure tt
  batch_cancel_orders (m ∷ ms) now =
      let rest = batch_cancel_orders ms now in do cancel_order m now; rest

  -- `_cancel_all_orders`, over the open orders that the cache selects for the command
  unfoldable pub cancel_all_orders : List (Order Price) → ℤ → Action Price (Unit {0})
  cancel_all_orders orders now =
      batch_cancel_orders
        (map
          (λ o. record { client_order_id = o.client_order_id; venue_order_id = o.venue_order_id })
          orders)
        now
