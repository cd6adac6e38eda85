-- ===== src/Convert/Bars.antt =====
-- _convert.py: `last_trade_to_fields` and `time_bar_to_fields`.
use rithmic_nt_connect.Base.{
  String, Bool, true, false, Option, none, some, if◌then◌else◌, ℤ, pos, ◌*ℤ◌, ltb_ℤ,
}
use rithmic_nt_connect.Values.{
  Value, absent, Float, finite, inf, neg_inf, nan, Result, ok, err, ◌>>=◌, ◌>>◌, convert_error,
  to_int,
}
use rithmic_nt_connect.Notice.Normalize.{ts_ns, instrument_id_from_symbol}
use rithmic_nt_connect.Convert.{Floats, require, require_value, to_float}
use rithmic_nt_connect.Convert.Book.{required_ts}

pub record LastTrade : Type 0 where
  pub symbol : Option String
  pub exchange : Option String
  pub trade_price : Value
  pub trade_size : Value
  pub aggressor : Value
  pub ts_event_ns : Value
  pub ssboe : Value
  pub usecs : Value

pub record TradeFields : Type 0 where
  pub instrument_id : String
  pub symbol : String
  pub exchange : Option String
  pub price : Float
  pub size : Float
  pub aggressor : Value
  pub ts_event : ℤ

pub record TimeBar : Type 0 where
  pub symbol : Option String
  pub exchange : Option String
  pub open_price : Value
  pub high_price : Value
  pub low_price : Value
  pub close_price : Value
  pub volume : Value
  pub num_trades : Value
  pub bar_type : Value
  pub period : Value
  pub marker : Value
  pub ts_event_ns : Value
  pub ssboe : Value
  pub usecs : Value

pub record BarFields : Type 0 where
  pub instrument_id : String
  pub symbol : String
  pub exchange : Option String
  pub open_price : Float
  pub high_price : Float
  pub low_price : Float
  pub close_price : Float
  pub volume : Float
  pub num_trades : Value
  pub bar_type : Value
  pub period : Value
  pub marker : Value
  pub ts_event : ℤ

-- `volume < 0`
unfoldable pub is_negative : Float → Bool
is_negative (finite m e) = ltb_ℤ m (pos 0)
is_negative inf = false
is_negative neg_inf = true
is_negative nan = false

unfoldable pub checked_volume : Float → Result (Unit {0})
checked_volume v = if is_negative v then err convert_error else ok tt

-- the bar's close: the marker in seconds, when the bar has no other time
unfoldable pub ts_or_marker : Option ℤ → Value → Result (Option ℤ)
ts_or_marker (some ts) marker = ok (some ts)
ts_or_marker none absent = ok none
ts_or_marker none marker = do n ← to_int marker; ok (some (n *ℤ pos 1_000_000_000))

module _ (fs : Floats) where
  unfoldable pub last_trade_to_fields : LastTrade → Result TradeFields
  last_trade_to_fields d = do
    symbol ← require d.symbol
    price ← require_value d.trade_price
    size ← require_value d.trade_size
    stamp ← ts_ns d.ts_event_ns d.ssboe d.usecs
    ts ← required_ts stamp
    id ← instrument_id_from_symbol symbol d.exchange
    p ← to_float fs price
    z ← to_float fs size
    ok (record {
      instrument_id = id;
      symbol = symbol;
      exchange = d.exchange;
      price = p;
      size = z;
      aggressor = d.aggressor;
      ts_event = ts;
    })

  unfoldable pub bar_of : TimeBar → String → ℤ → Float → Result BarFields
  bar_of d symbol ts volume = do
    id ← instrument_id_from_symbol symbol d.exchange
    open_px ← to_float fs d.open_price
    high_px ← to_float fs d.high_price
    low_px ← to_float fs d.low_price
    close_px ← to_float fs d.close_price
    ok (record {
      instrument_id = id;
      symbol = symbol;
      exchange = d.exchange;
      open_price = open_px;
      high_price = high_px;
      low_price = low_px;
      close_price = close_px;
      volume = volume;
      num_trades = d.num_trades;
      bar_type = d.bar_type;
      period = d.period;
      marker = d.marker;
      ts_event = ts;
    })

  unfoldable pub time_bar_to_fields : TimeBar → Result BarFields
  time_bar_to_fields d = do
    symbol ← require d.symbol
    require_value d.open_price
    require_value d.high_price
    require_value d.low_price
    require_value d.close_price
    require_value d.volume
    stamp ← ts_ns d.ts_event_ns d.ssboe d.usecs
    close_ts ← ts_or_marker stamp d.marker
    ts ← required_ts close_ts
    volume ← to_float fs d.volume
    checked_volume volume
    bar_of d symbol ts volume
