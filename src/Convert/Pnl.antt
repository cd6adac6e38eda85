-- ===== src/Convert/Pnl.antt =====
-- _convert.py: `account_pnl_to_fields` and `instrument_pnl_to_fields`.
use rithmic_nt_connect.Base.{
  zero, suc, String, Option, if◌then◌else◌, ℤ, pos, negsuc, ◌-ℤ◌, ◌≡◌, refl, ◌∙◌, ap, arith, sym,
}
use rithmic_nt_connect.Values.{
  Value, absent, str, Result, ok, ◌>>=◌, to_int, has_text, text_or_empty,
}
use rithmic_nt_connect.Values.Binds.{bind-ok}
use rithmic_nt_connect.Notice.Normalize.{instrument_id_from_symbol}
use rithmic_nt_connect.Core.ExposureRules.{PositionRow, row_net}
use rithmic_nt_connect.Convert.{require, require_value}

pub record AccountPnl : Type 0 where
  pub account_id : Option String
  pub fcm_id : Option String
  pub ib_id : Option String
  pub account_balance : Value
  pub cash_on_hand : Value
  pub margin_balance : Value
  pub day_pnl : Value
  pub open_position_pnl : Value
  pub closed_position_pnl : Value
  pub available_buying_power : Value
  pub used_buying_power : Value
  pub currency : Option String
  pub is_snapshot : Value

pub record AccountFields : Type 0 where
  pub account_id : String
  pub fcm_id : Option String
  pub ib_id : Option String
  pub account_balance : Value
  pub cash_on_hand : Value
  pub margin_balance : Value
  pub day_pnl : Value
  pub open_position_pnl : Value
  pub closed_position_pnl : Value
  pub available_buying_power : Value
  pub used_buying_power : Value
  pub currency : String
  pub is_snapshot : Value

abbrev pub default_account_currency : String
default_account_currency = "USD"

-- cash and balance; both absent count as "0"
unfoldable pub cash_and_balance : Value → Value → Value × Value
cash_and_balance absent absent = (str "0", str "0")
cash_and_balance cash balance = (cash, balance)

-- `currency or DEFAULT_ACCOUNT_CURRENCY`
unfoldable pub currency_or_default : Option String → String
currency_or_default c = if has_text c then text_or_empty c else default_account_currency

unfoldable pub account_fields : AccountPnl → String → Value × Value → AccountFields
account_fields d id (cash, balance) = record {
  account_id = id;
  fcm_id = d.fcm_id;
  ib_id = d.ib_id;
  account_balance = balance;
  cash_on_hand = cash;
  margin_balance = d.margin_balance;
  day_pnl = d.day_pnl;
  open_position_pnl = d.open_position_pnl;
  closed_position_pnl = d.closed_position_pnl;
  available_buying_power = d.available_buying_power;
  used_buying_power = d.used_buying_power;
  currency = currency_or_default d.currency;
  is_snapshot = d.is_snapshot;
}

unfoldable pub account_pnl_to_fields : AccountPnl → Result AccountFields
account_pnl_to_fields d = do
  id ← require d.account_id
  ok (account_fields d id (cash_and_balance d.cash_on_hand d.account_balance))

pub record InstrumentPnl : Type 0 where
  pub symbol : Option String
  pub exchange : Option String
  pub account_id : Option String
  pub net_quantity : Value
  pub avg_open_fill_price : Value
  pub open_position_pnl : Value
  pub closed_position_pnl : Value
  pub is_snapshot : Value

pub record PositionFields : Type 0 where
  pub account_id : Option String
  pub instrument_id : String
  pub symbol : String
  pub exchange : Option String
  pub position_side : String
  pub quantity : ℤ
  pub avg_px_open : Value
  pub open_position_pnl : Value
  pub closed_position_pnl : Value
  pub is_snapshot : Value

-- the side and the size of a net quantity
unfoldable pub side_and_qty : ℤ → String × ℤ
side_and_qty (pos zero) = ("FLAT", pos 0)
side_and_qty (pos (suc n)) = ("LONG", pos (suc n))
side_and_qty (negsuc n) = ("SHORT", pos (suc n))

unfoldable pub position_fields : InstrumentPnl → String → String → String × ℤ → PositionFields
position_fields d symbol id (side, qty) = record {
  account_id = d.account_id;
  instrument_id = id;
  symbol = symbol;
  exchange = d.exchange;
  position_side = side;
  quantity = qty;
  avg_px_open = d.avg_open_fill_price;
  open_position_pnl = d.open_position_pnl;
  closed_position_pnl = d.closed_position_pnl;
  is_snapshot = d.is_snapshot;
}

unfoldable pub instrument_pnl_to_fields : InstrumentPnl → Result PositionFields
instrument_pnl_to_fields d = do
  symbol ← require d.symbol
  net ← require_value d.net_quantity
  n ← to_int net
  id ← instrument_id_from_symbol symbol d.exchange
  ok (position_fields d symbol id (side_and_qty n))

-- The row that `signed_net` of exposure.py makes of the fields; `quantity` is an integer there.
unfoldable pub exposure_row : PositionFields → PositionRow
exposure_row f = record { symbol = f.symbol; quantity = f.quantity; side = f.position_side }

row_net-side_and_qty :
    (d : InstrumentPnl) (symbol id : String) (n : ℤ)
    → row_net (exposure_row (position_fields d symbol id (side_and_qty n))) ≡ n
unfolding row_net exposure_row position_fields side_and_qty ◌-ℤ◌
row_net-side_and_qty d symbol id (pos zero) = refl
row_net-side_and_qty d symbol id (pos (suc n)) = refl
row_net-side_and_qty d symbol id (negsuc n) = ground arith

require_value-same : (v w : Value) → require_value v ≡ ok w → v ≡ w
unfolding require_value
require_value-same absent w e = cc
require_value-same (Value.boolean x) w e = cc
require_value-same (Value.int x) w e = cc
require_value-same (Value.float x) w e = cc
require_value-same (str x) w e = cc

row_of_ok :
    (a f : PositionFields)
    → ◌≡◌ {A = Result PositionFields} (ok a) (ok f)
    → exposure_row a ≡ exposure_row f
row_of_ok a f e = cc

-- The side and the size that a position row is split into give the venue's signed net quantity
-- back, under the rule that exposure is summed with.
pub net_quantity_round_trip :
    (d : InstrumentPnl) (f : PositionFields)
    → instrument_pnl_to_fields d ≡ ok f
    → to_int d.net_quantity ≡ ok (row_net (exposure_row f))
unfolding instrument_pnl_to_fields
net_quantity_round_trip d f e =
    let (symbol, (p, e1)) = bind-ok (require d.symbol) _ f e in
    let (net, (q, e2)) = bind-ok (require_value d.net_quantity) _ f e1 in
    let (n, (r, e3)) = bind-ok (to_int net) _ f e2 in
    let (id, (i, e4)) = bind-ok (instrument_id_from_symbol symbol d.exchange) _ f e3 in
    ap to_int (require_value-same d.net_quantity net q)
    ∙ r
    ∙ ap ok (sym (row_net-side_and_qty d symbol id n) ∙ ap row_net (row_of_ok _ f e4))
