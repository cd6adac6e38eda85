-- ===== src/Commands/Bracket.antt =====
-- execution.py: `_submit_order_list`, with brackets of three linked orders.
use rithmic_nt_connect.Base.{
  String, Bool, true, false, ◌&&◌, ◌||◌, not, Option, none, some, List, [], ◌∷◌, if◌then◌else◌, ℤ,
  pos, eqb, leb_ℤ, length, select, any, mem_text, map, is_some, ◌==◌,
}
use rithmic_nt_connect.Values
use rithmic_nt_connect.Values.{Float, finite, inf, neg_inf, nan, Result, ok, err, Error}
use rithmic_nt_connect.Values.Doubles.{difference, absolute, quotient, round}
use rithmic_nt_connect.Polling.{Failure}
use rithmic_nt_connect.OrderRows.{OrderType, stop_market, stop_limit}
use rithmic_nt_connect.Nautilus.{Library, Order, Event, Request, Cache, Instrument}
use rithmic_nt_connect.Client.State.{Action, ◌>>◌, pure, raise, emit}
use rithmic_nt_connect.Commands.Mapping.{
  route, nautilus_side_to_rithmic, nautilus_order_type_to_rithmic, nautilus_tif_to_rithmic,
}
use rithmic_nt_connect.Commands.Gates.{
  submit, command_refusal, is_value_error, deny_all, reject_all, request, trading_disabled_reason,
}
use rithmic_nt_connect.Commands.Submit.{submit_order}

-- `tick_size <= 0`
unfoldable pub not_positive : Float → Bool
not_positive (finite m e) = leb_ℤ m (pos 0)
not_positive inf = false
not_positive neg_inf = true
not_positive nan = false

unfoldable pub is_stop_type : OrderType → Bool
is_stop_type stop_market = true
is_stop_type stop_limit = true
is_stop_type t = false

-- `round(abs(a - b) / tick)`: a leg that lies between two ticks is rounded to one of them
unfoldable pub ticks_between : Float → Float → Float → Result ℤ
unfolding difference absolute quotient round
ticks_between tick a b = Values.◌>>=◌ (quotient (absolute (difference a b)) tick) λ x. round x

-- the ticks of one leg: `None` when it rounds to nothing
unfoldable pub positive_ticks : ℤ → Option ℤ
positive_ticks n = if leb_ℤ n (pos 0) then none else some n

unfoldable pub in_list : List String → Option String → Bool
in_list cids none = false
in_list cids (some id) = mem_text id cids

abbrev pub Legs : Type 0 → Type 0
Legs Price = Order Price × Order Price × Order Price

module _ {Price : Type 0} where
  unfoldable pub links : List String → Order Price → Bool
  links cids o = in_list cids o.parent_order_id || any (λ id. mem_text id cids) o.linked_order_ids

  -- `_is_bracket_order_list`
  unfoldable pub is_bracket_order_list : List (Order Price) → Bool
  is_bracket_order_list orders =
      eqb (length orders) 3 && any (links (map (λ o. o.client_order_id) orders)) orders

  unfoldable pub is_entry : Order Price → Bool
  is_entry o = not (is_some o.parent_order_id)

  unfoldable pub has_parent : String → Order Price → Bool
  has_parent cid o = elim (o.parent_order_id) [ none ↦ false | some p ↦ p == cid ]

  unfoldable pub is_stop_exit : Order Price → Bool
  is_stop_exit o = is_stop_type o.order_type

  unfoldable pub one_each :
      Order Price → List (Order Price) → List (Order Price) → Option (Legs Price)
  one_each entry (stop ∷ []) (target ∷ []) = some (entry, stop, target)
  one_each entry stops targets = none

  unfoldable pub exits_of : Order Price → List (Order Price) → Option (Legs Price)
  exits_of entry exits =
      if any (λ o. not (has_parent entry.client_order_id o)) exits
      then none
      else one_each entry (select is_stop_exit exits) (select (λ o. not (is_stop_exit o)) exits)

  unfoldable pub legs_of : List (Order Price) → List (Order Price) → Option (Legs Price)
  legs_of (entry ∷ []) exits = exits_of entry exits
  legs_of entries exits = none

  -- `_bracket_legs`: entry, stop and target
  unfoldable pub bracket_legs : List (Order Price) → Option (Legs Price)
  bracket_legs orders = legs_of (select is_entry orders) (select (λ o. not (is_entry o)) orders)

module _ {Price : Type 0} (nt : Library Price) where
  unfoldable pub leg_ticks : Float → Price → Option Price → Result (Option ℤ)
  leg_ticks tick entry none = ok none
  leg_ticks tick entry (some p) =
      Values.◌>>=◌ (ticks_between tick (nt.price_float entry) (nt.price_float p))
        λ n. ok (positive_ticks n)

  -- the price of a stop leg: its trigger, else its price
  unfoldable pub stop_price : Order Price → Option Price
  stop_price o = elim (o.trigger_price) [ some p ↦ some p | none ↦ o.price ]

  unfoldable pub both_ticks :
      Float → Price → Order Price → Order Price → Result (Option ℤ × Option ℤ)
  both_ticks tick entry stop target =
      Values.◌>>=◌ (leg_ticks tick entry (stop_price stop))
        λ s. Values.◌>>=◌ (leg_ticks tick entry target.price) λ t. ok (s, t)

  -- `except Exception: return None, None`
  unfoldable pub or_none : Result (Option ℤ × Option ℤ) → Option ℤ × Option ℤ
  or_none (ok ticks) = ticks
  or_none (err e) = (none, none)

  unfoldable pub ticks_with :
      Option (Instrument Price) → Option Price → Order Price → Order Price → Option ℤ × Option ℤ
  ticks_with (some i) (some entry) stop target =
      if not_positive i.price_increment
      then (none, none)
      else or_none (both_ticks i.price_increment entry stop target)
  ticks_with _ _ stop target = (none, none)

  -- `_bracket_ticks`
  unfoldable pub bracket_ticks : Cache Price → Legs Price → Option ℤ × Option ℤ
  bracket_ticks c (entry, stop, target) =
      ticks_with (c.instrument entry.instrument_id) entry.price stop target

module _ {Price : Type 0} where
  unfoldable pub bracket_request : Cache Price → Order Price → ℤ → ℤ → Result (Request Price)
  bracket_request c entry stop_ticks target_ticks =
      Values.◌>>=◌ (route c entry.instrument_id) λ (symbol, exchange).
        Values.◌>>=◌ (nautilus_side_to_rithmic entry.side) λ side.
          Values.◌>>=◌ (nautilus_order_type_to_rithmic entry.order_type) λ price_type.
            Values.◌>>=◌ (nautilus_tif_to_rithmic entry.time_in_force) λ duration. ok (
              Request.place_bracket_order symbol exchange side price_type entry.quantity
                entry.client_order_id entry.price entry.trigger_price duration stop_ticks
                target_ticks)

  unfoldable pub announce_submitted : List (Order Price) → ℤ → Action Price (Unit {0})
  announce_submitted [] now = pure tt
  announce_submitted (o ∷ orders) now =
      let rest = announce_submitted orders now in
      do emit (Event.submitted o.client_order_id now); rest

module _ {Price : Type 0} (nt : Library Price) (session : Request Price → Option Failure)
    (show_error : Error → String) where
  unfoldable pub send_bracket :
      List (Order Price) → ℤ → Option String → Request Price → Action Price (Unit {0})
  send_bracket orders now (some reason) r = deny_all orders now reason
  send_bracket orders now none r = do
    announce_submitted orders now
    request session r (reject_all orders now)

  unfoldable pub bracket_mapped :
      List (Order Price) → ℤ → Result (Request Price) → Action Price (Unit {0})
  bracket_mapped orders now (err e) h =
      (if is_value_error e then deny_all orders now (show_error e) else raise e) h
  bracket_mapped orders now (ok r) h = send_bracket orders now (command_refusal submit h) r h

  unfoldable pub bracket_with_ticks :
      List (Order Price) → ℤ → Order Price → Option ℤ × Option ℤ → Action Price (Unit {0})
  bracket_with_ticks orders now entry (some s, some t) h =
      bracket_mapped orders now (bracket_request h.cache entry s t) h
  bracket_with_ticks orders now entry ticks h =
      deny_all orders now
        "bracket not losslessly representable as stop_ticks/target_ticks (need entry limit price + stop/target absolute prices a whole number of ticks away)"
        h

  unfoldable pub bracket_with_legs :
      List (Order Price) → ℤ → Option (Legs Price) → Action Price (Unit {0})
  bracket_with_legs orders now none h =
      deny_all orders now
        "bracket needs one entry and a stop and a target exit whose parent is the entry" h
  bracket_with_legs orders now (some legs) h =
      bracket_with_ticks orders now legs.0 (bracket_ticks nt h.cache legs) h

  unfoldable pub submit_bracket : Bool → List (Order Price) → ℤ → Action Price (Unit {0})
  submit_bracket brackets_enabled orders now =
      if brackets_enabled
      then bracket_with_legs orders now (bracket_legs orders)
      else deny_all orders now "Rithmic brackets not enabled (RITHMIC_BRACKETS=1 required)"

  unfoldable pub submit_each : List (Order Price) → ℤ → Action Price (Unit {0})
  submit_each [] now = pure tt
  submit_each (o ∷ orders) now =
      let rest = submit_each orders now in do submit_order session show_error o now; rest

  -- `_submit_order_list`; `brackets_enabled` is the environment's flag or the client's own
  unfoldable pub submit_order_list : Bool → List (Order Price) → ℤ → Action Price (Unit {0})
  submit_order_list brackets_enabled orders now h =
      if not h.enable_trading
      then deny_all orders now trading_disabled_reason h
      else if is_bracket_order_list orders
      then submit_bracket brackets_enabled orders now h
      else submit_each orders now h
