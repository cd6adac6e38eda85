-- ===== src/OrderRows.antt =====
-- python/rithmic_nt_connect/order_rows.py: what a normalized order row means.
pub mod Tests
pub mod Status
use rithmic_nt_connect.Base.{
  ℕ, String, Bool, true, false, ◌&&◌, ◌||◌, not, Option, none, some, ◌==◌, if◌then◌else◌, ℤ, pos,
  eqb_ℤ, ltb_ℤ, leb_ℤ, upper_string, contains, codes, upper,
}
use rithmic_nt_connect.Values.{
  Value, Result, ok, err, to_int_or_zero, text_or_empty, is_number_error, is_type_or_value, ◌>>=◌,
}
use rithmic_nt_connect.Core.DrainRules
use rithmic_nt_connect.Core.DrainRules.{RowTerms}
use rithmic_nt_connect.Notice.{Fields, Side, order_side_from_notification}

-- the members of Nautilus's enums that the adapter names
pub data OrderType : Type 0 where
  market limit stop_market stop_limit market_if_touched limit_if_touched : OrderType
  trailing_stop_market trailing_stop_limit market_to_limit : OrderType

pub data TimeInForce : Type 0 where
  day gtc ioc fok gtd at_the_open at_the_close : TimeInForce

pub data TriggerType : Type 0 where
  no_trigger default_trigger : TriggerType

pub data OrderStatus : Type 0 where
  initialized denied submitted accepted rejected canceled expired triggered : OrderStatus
  pending_update pending_cancel partially_filled filled : OrderStatus

-- `str(order_status)`
unfoldable pub status_name : OrderStatus → String
status_name initialized = "INITIALIZED"
status_name denied = "DENIED"
status_name submitted = "SUBMITTED"
status_name accepted = "ACCEPTED"
status_name rejected = "REJECTED"
status_name canceled = "CANCELED"
status_name expired = "EXPIRED"
status_name triggered = "TRIGGERED"
status_name pending_update = "PENDING_UPDATE"
status_name pending_cancel = "PENDING_CANCEL"
status_name partially_filled = "PARTIALLY_FILLED"
status_name filled = "FILLED"

-- `RITHMIC_PRICE_TYPE_TO_ORDER_TYPE`
unfoldable pub price_type_to_order_type : ℤ → Option OrderType
price_type_to_order_type n =
    if eqb_ℤ n (pos 1)
    then some limit
    else if eqb_ℤ n (pos 2)
    then some market
    else if eqb_ℤ n (pos 3)
    then some stop_limit
    else if eqb_ℤ n (pos 4)
    then some stop_market
    else none

-- `RITHMIC_DURATION_TO_TIF`
unfoldable pub duration_to_tif : ℤ → Option TimeInForce
duration_to_tif n =
    if eqb_ℤ n (pos 1)
    then some day
    else if eqb_ℤ n (pos 2)
    then some gtc
    else if eqb_ℤ n (pos 3)
    then some ioc
    else if eqb_ℤ n (pos 4)
    then some fok
    else none

get_or {ℓ} : {A : Type ℓ} → Option A → A → A
get_or none d = d
get_or (some a) d = a

-- `price_type` is an integer or absent after normalization, so `int(raw)` does not fail.
unfoldable pub order_type_from_fields : Fields → OrderType
unfolding price_type_to_order_type get_or
order_type_from_fields f = elim f.price_type [
  | none ↦ market
  | some n ↦ get_or (price_type_to_order_type n) market
]

unfoldable pub tif_from_fields : Fields → TimeInForce
unfolding duration_to_tif get_or
tif_from_fields f = elim f.duration [ none ↦ gtc | some n ↦ get_or (duration_to_tif n) gtc ]

is_stop : Option OrderType → Bool
is_stop (some stop_limit) = true
is_stop (some stop_market) = true
is_stop _ = false

unfoldable pub trigger_type_from_fields : Fields → TriggerType
unfolding price_type_to_order_type is_stop
trigger_type_from_fields f = elim f.price_type [
  | none ↦ no_trigger
  | some n ↦ if is_stop (price_type_to_order_type n) then default_trigger else no_trigger
]

-- `TRIGGERABLE_ORDER_TYPES`
unfoldable pub is_triggerable : OrderType → Bool
is_triggerable stop_limit = true
is_triggerable trailing_stop_limit = true
is_triggerable limit_if_touched = true
is_triggerable _ = false

-- Both sizes, or 0 and 0 when one does not convert. An `OverflowError` leaves the function.
sizes_or_zero : Result (ℤ × ℤ) → Result (ℤ × ℤ)
sizes_or_zero (ok p) = ok p
sizes_or_zero (err e) = if is_type_or_value e then ok (pos 0, pos 0) else err e

unfoldable pub sizes : Value → Value → Result (ℤ × ℤ)
unfolding sizes_or_zero
sizes quantity total_fill_size =
    sizes_or_zero
      do qty ← to_int_or_zero quantity; done ← to_int_or_zero total_fill_size; ok (qty, done)

abbrev pub is_kind : String → Option String → Bool
is_kind k none = false
is_kind k (some j) = j == k

partial : ℤ → ℤ → Bool
partial qty done = ltb_ℤ (pos 0) qty && (ltb_ℤ (pos 0) done && ltb_ℤ done qty)

unfoldable pub status_of : Option String → String → OrderType → ℤ → ℤ → OrderStatus
unfolding partial is_triggerable
status_of kind status order_type qty done =
    if is_kind "filled" kind || (ltb_ℤ (pos 0) qty && leb_ℤ qty done)
    then filled
    else if is_kind "modify_rejected" kind || is_kind "cancel_rejected" kind
    then (if partial qty done then partially_filled else accepted)
    else if is_kind "rejected" kind || contains (codes "REJECT") (codes status)
    then rejected
    else if is_kind "canceled" kind || (status == "CANCELLED" || status == "CANCELED")
    then canceled
    else if is_kind "expired" kind || contains (codes "EXPIRED") (codes status)
    then expired
    else if partial qty done
    then partially_filled
    else if is_kind "triggered" kind
    then (if is_triggerable order_type then triggered else accepted)
    else accepted

unfoldable pub order_status_from_fields : Fields → Result OrderStatus
unfolding sizes to_int_or_zero status_of order_type_from_fields
order_status_from_fields f = do
  s ← sizes f.quantity f.total_fill_size
  ok (status_of f.kind (upper_string (text_or_empty f.status)) (order_type_from_fields f) s.0 s.1)

-- `TERMINAL_ORDER_STATUSES`
unfoldable pub is_terminal : OrderStatus → Bool
is_terminal filled = true
is_terminal canceled = true
is_terminal rejected = true
is_terminal expired = true
is_terminal _ = false

side_known : Option Side → Bool
side_known none = false
side_known (some s) = true

unfoldable pub row_is_trustworthy : Fields → Result Bool
unfolding side_known order_side_from_notification DrainRules.row_is_trustworthy
row_is_trustworthy f = do
  side ← order_side_from_notification f
  ok (
      DrainRules.row_is_trustworthy (record {
        side_known = side_known side;
        price_type = f.price_type;
        duration = f.duration;
        kind = f.kind;
        status = text_or_empty f.status;
      }))
