-- ===== src/Notice.antt =====
-- python/rithmic_nt_connect/_orders.py, `order_notification_to_fields` and what reads a normalized
-- row. A dict that is read by `get` alone is a record of its keys, with `absent` or `none` for a
-- missing key. Texts (ids, tags, names) are `str` or `None`; numbers, prices and enums are any value.
pub mod Normalize
pub mod Identity
use rithmic_nt_connect.Base.{
  String, Option, none, some, ℤ, pos, eqb_ℤ, Bool, true, false, if◌then◌else◌,
}
use rithmic_nt_connect.Values.{Value, absent, Result, ok, err, to_int, is_type_or_value}

-- A wire `order_notification`, as the extension builds it.
pub record Wire : Type 0 where
  pub type : Option String
  pub source : Option String
  pub kind : Option String
  pub notify_type : Value
  pub notify_type_name : Option String
  pub status : Option String
  pub basket_id : Option String
  pub exchange_order_id : Option String
  pub user_tag : Option String
  pub account_id : Option String
  pub symbol : Option String
  pub exchange : Option String
  pub quantity : Value
  pub total_fill_size : Value
  pub total_unfilled_size : Value
  pub fill_size : Value
  pub price : Value
  pub trigger_price : Value
  pub avg_fill_price : Value
  pub fill_price : Value
  pub transaction_type : Value
  pub price_type : Value
  pub duration : Value
  pub fill_id : Option String
  pub text : Option String
  pub report_text : Option String
  pub completion_reason : Option String
  pub ssboe : Value
  pub usecs : Value
  pub ts_event_ns : Value
  pub is_snapshot : Value

-- A normalized row.
pub record Fields : Type 0 where
  pub source : String
  pub kind : Option String
  pub notify_type : Value
  pub notify_type_name : Option String
  pub status : Option String
  pub basket_id : Option String
  pub exchange_order_id : Option String
  pub user_tag : Option String
  pub account_id : Option String
  pub symbol : Option String
  pub exchange : Option String
  pub instrument_id : Option String
  pub quantity : Value
  pub total_fill_size : Value
  pub total_unfilled_size : Value
  pub fill_size : Value
  pub price : Value
  pub trigger_price : Value
  pub avg_fill_price : Value
  pub fill_price : Value
  pub transaction_type : Value
  pub price_type : Option ℤ
  pub duration : Option ℤ
  pub fill_id : Option String
  pub text : Option String
  pub report_text : Option String
  pub completion_reason : Option String
  pub ssboe : Value
  pub usecs : Value
  pub ts_event : Option ℤ
  pub is_snapshot : Value

pub data Side : Type 0 where
  buy sell : Side

side_code : ℤ → Option Side
side_code n = if eqb_ℤ n (pos 1) then some buy else if eqb_ℤ n (pos 2) then some sell else none

-- `TypeError` and `ValueError` mean no side; any other error leaves the function.
side_or_raise : Result ℤ → Result (Option Side)
unfolding side_code
side_or_raise (ok n) = ok (side_code n)
side_or_raise (err e) = if is_type_or_value e then ok none else err e

unfoldable pub order_side_from_notification : Fields → Result (Option Side)
unfolding side_or_raise to_int
order_side_from_notification f = elim (f.transaction_type) [
  | absent ↦ ok none
  | v ↦ side_or_raise (to_int v)
]
