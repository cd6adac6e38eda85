-- ===== src/Commands/Mapping.antt =====
-- _orders.py and _convert.py: orders in the venue's words.
use Prim.Native.String.{slice}
use rithmic_nt_connect.Base.{
  String, Bool, true, false, ◌&&◌, ◌||◌, not, Option, none, some, List, [], ◌∷◌, ◌==◌,
  if◌then◌else◌, ℤ, pos, lookup, mem_text, upper_string, is_prefix, codes, length, ltb_ℤ,
}
use rithmic_nt_connect.Values.{
  Value, absent, float, finite, Result, ok, err, order_map_error, value_error, to_int, has_text,
  text_or_empty, is_whole, ◌>>=◌,
}
use rithmic_nt_connect.Notice.{Side, buy, sell}
use rithmic_nt_connect.OrderRows.{
  OrderType, market, limit, stop_market, stop_limit, market_if_touched, limit_if_touched,
  trailing_stop_market, trailing_stop_limit, market_to_limit, TimeInForce, day, gtc, ioc, fok, gtd,
  at_the_open, at_the_close,
}
use rithmic_nt_connect.Nautilus.{Order, Instrument, Cache}

-- the names of Nautilus's enum members
abbrev pub order_type_member : OrderType → String
order_type_member market = "MARKET"
order_type_member limit = "LIMIT"
order_type_member stop_market = "STOP_MARKET"
order_type_member stop_limit = "STOP_LIMIT"
order_type_member market_if_touched = "MARKET_IF_TOUCHED"
order_type_member limit_if_touched = "LIMIT_IF_TOUCHED"
order_type_member trailing_stop_market = "TRAILING_STOP_MARKET"
order_type_member trailing_stop_limit = "TRAILING_STOP_LIMIT"
order_type_member market_to_limit = "MARKET_TO_LIMIT"

abbrev pub tif_member : TimeInForce → String
tif_member day = "DAY"
tif_member gtc = "GTC"
tif_member ioc = "IOC"
tif_member fok = "FOK"
tif_member gtd = "GTD"
tif_member at_the_open = "AT_THE_OPEN"
tif_member at_the_close = "AT_THE_CLOSE"

abbrev pub side_member : Side → String
side_member buy = "BUY"
side_member sell = "SELL"

-- `s.removeprefix(prefix)`
abbrev pub remove_prefix : String → String → String
remove_prefix prefix s =
    if is_prefix (codes prefix) (codes s)
    then slice s (length (codes prefix)) (length (codes s))
    else s

-- `_enum_name`, of a member's name
unfoldable pub enum_name : String → String → String
enum_name name prefix = remove_prefix prefix (upper_string name)

-- `_ORDER_TYPE_TO_RITHMIC`
abbrev pub order_type_to_rithmic : List (String × String)
order_type_to_rithmic =
    ("MARKET", "MARKET")
    ∷ ("LIMIT", "LIMIT")
    ∷ ("STOP_MARKET", "STOP_MARKET")
    ∷ ("STOP_LIMIT", "STOP_LIMIT")
    ∷ ("MARKET_IF_TOUCHED", "MARKET_IF_TOUCHED")
    ∷ ("LIMIT_IF_TOUCHED", "LIMIT_IF_TOUCHED")
    ∷ ("TRAILING_STOP_MARKET", "STOP_MARKET")
    ∷ ("TRAILING_STOP_LIMIT", "STOP_LIMIT")
    ∷ []

-- `_TIF_TO_RITHMIC`
abbrev pub tif_to_rithmic : List (String × String)
tif_to_rithmic = ("DAY", "DAY") ∷ ("GTC", "GTC") ∷ ("IOC", "IOC") ∷ ("FOK", "FOK") ∷ []

abbrev mapped : Option String → Result String
mapped none = err order_map_error
mapped (some word) = ok word

unfoldable pub nautilus_side_to_rithmic : Side → Result String
unfolding enum_name
nautilus_side_to_rithmic side =
    let name = enum_name (side_member side) "ORDERSIDE." in
    if name == "BUY" || name == "B"
    then ok "BUY"
    else if name == "SELL" || name == "S"
    then ok "SELL"
    else err order_map_error

unfoldable pub nautilus_order_type_to_rithmic : OrderType → Result String
unfolding enum_name
nautilus_order_type_to_rithmic t =
    mapped (lookup (enum_name (order_type_member t) "ORDERTYPE.") order_type_to_rithmic)

unfoldable pub nautilus_tif_to_rithmic : TimeInForce → Result String
unfolding enum_name
nautilus_tif_to_rithmic tif =
    mapped (lookup (enum_name (tif_member tif) "TIMEINFORCE.") tif_to_rithmic)

unfoldable pub is_trailing_order_type : OrderType → Bool
unfolding enum_name
is_trailing_order_type t =
    mem_text (enum_name (order_type_member t) "ORDERTYPE.")
      ("TRAILING_STOP_MARKET" ∷ "TRAILING_STOP_LIMIT" ∷ [])

-- `float(offset) == float(ticks)` where `ticks` is `int(offset)`
unfoldable pub is_whole_offset : Value → Bool
is_whole_offset (float (finite m e)) = is_whole m e
is_whole_offset (float f) = false
is_whole_offset v = true

-- A trailing offset is an `int` or a `float`, or absent.
unfoldable pub ticks_of_offset : Value → Result (Option ℤ)
unfolding to_int
ticks_of_offset absent = err order_map_error
ticks_of_offset v = to_int v >>= λ n.
    if ltb_ℤ n (pos 1)
    then err order_map_error
    else if is_whole_offset v
    then ok (some n)
    else err order_map_error

module _ {Price : Type 0} where
  unfoldable pub trailing_ticks_from_order : Order Price → Result (Option ℤ)
  unfolding ticks_of_offset is_trailing_order_type enum_name
  trailing_ticks_from_order o =
      if not (is_trailing_order_type o.order_type)
      then ok none
      else if enum_name (text_or_empty o.trailing_offset_type) "TRAILINGOFFSETTYPE." == "TICKS"
      then ticks_of_offset o.trailing_offset
      else err order_map_error

  -- `rithmic_route_from_info`
  unfoldable pub rithmic_route_from_info : Instrument Price → Result (String × String)
  rithmic_route_from_info i =
      if has_text i.rithmic_symbol && has_text i.rithmic_exchange
      then ok (text_or_empty i.rithmic_symbol, text_or_empty i.rithmic_exchange)
      else err value_error

  -- `_route`
  unfoldable pub route : Cache Price → String → Result (String × String)
  route c instrument_id = elim (c.instrument instrument_id) [
    | none ↦ err value_error
    | some i ↦ rithmic_route_from_info i
  ]
