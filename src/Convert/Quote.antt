-- ===== src/Convert/Quote.antt =====
-- _convert.py: `bbo_to_fields`, which merges one-sided quotes in the caller's accumulator.
use rithmic_nt_connect.Base.{
  String, Bool, true, false, ◌||◌, Option, none, some, if◌then◌else◌, ℤ, pos, ltb_ℤ, ◌^◌, or_else,
}
use rithmic_nt_connect.Values
use rithmic_nt_connect.Values.{
  Value, absent, Float, finite, inf, neg_inf, nan, Result, ok, err, Error,
}
use rithmic_nt_connect.Notice.Normalize.{ts_ns, instrument_id_from_symbol}
use rithmic_nt_connect.Convert.{Floats, require, to_float, to_float_or_zero}

pub record BboEvent : Type 0 where
  pub symbol : Option String
  pub exchange : Option String
  pub bid_price : Value
  pub bid_size : Value
  pub ask_price : Value
  pub ask_size : Value
  pub ts_event_ns : Value
  pub ssboe : Value
  pub usecs : Value

-- the accumulator's price and size of one side
pub record SideState : Type 0 where
  pub price : Option Float
  pub size : Option Float

-- the caller's accumulator
pub record QuoteState : Type 0 where
  pub symbol : Option String
  pub exchange : Option String
  pub ts_event : Option ℤ
  pub bid : SideState
  pub ask : SideState

pub record Quote : Type 0 where
  pub instrument_id : String
  pub symbol : String
  pub exchange : Option String
  pub bid_price : Float
  pub ask_price : Float
  pub bid_size : Float
  pub ask_size : Float
  pub ts_event : ℤ

abbrev pub no_side : SideState
no_side = record { price = none; size = none }

-- the accumulator `{}`
abbrev pub no_quote : QuoteState
no_quote = record { symbol = none; exchange = none; ts_event = none; bid = no_side; ask = no_side }

-- `f < 1`
unfoldable pub below_one : Float → Bool
below_one (finite m e) = ltb_ℤ m (pos (2 ^ e))
below_one inf = false
below_one neg_inf = true
below_one nan = false

-- `float(size or 0) < 1`
unfoldable pub too_small : Option Float → Bool
too_small none = true
too_small (some f) = below_one f

unfoldable pub with_ids : QuoteState → String → Option String → QuoteState
with_ids s symbol exchange = record s {
  symbol = some symbol;
  exchange = or_else exchange s.exchange;
}

unfoldable pub with_time : QuoteState → Option ℤ → QuoteState
with_time s ts = record s { ts_event = or_else ts s.ts_event }

-- The price is stored before the size is read: a size that does not convert leaves the new price
-- with the old size.
unfoldable pub merged : Result Float → Result Float → SideState → Result (Unit {0}) × SideState
merged (err e) size s = (err e, s)
merged (ok p) (err e) s = (err e, record s { price = some p })
merged (ok p) (ok z) s = (ok tt, record { price = some p; size = some z })

module _ (fs : Floats) where
  unfoldable pub merge_side : Value → Value → SideState → Result (Unit {0}) × SideState
  merge_side absent size s = (ok tt, s)
  merge_side price size s = merged (to_float fs price) (to_float_or_zero fs size) s

unfoldable pub known : QuoteState → Float → Float → ℤ → Float → Float → Result (Option Quote)
known s bid ask ts bid_size ask_size = Values.◌>>=◌ (require s.symbol) λ symbol.
    Values.◌>>=◌ (instrument_id_from_symbol symbol s.exchange) λ id. ok (
      some (record {
        instrument_id = id;
        symbol = symbol;
        exchange = s.exchange;
        bid_price = bid;
        ask_price = ask;
        bid_size = bid_size;
        ask_size = ask_size;
        ts_event = ts;
      }))

unfoldable pub sized :
    QuoteState → Float → Float → ℤ → Option Float → Option Float → Result (Option Quote)
sized s bid ask ts (some z) (some w) =
    if below_one z || below_one w then ok none else known s bid ask ts z w
sized s bid ask ts _ _ = ok none

-- the quote of the accumulator, once both sides and a time are known and neither side is empty
unfoldable pub priced : QuoteState → Option Float → Option Float → Option ℤ → Result (Option Quote)
priced s (some bid) (some ask) (some ts) = sized s bid ask ts s.bid.size s.ask.size
priced s _ _ _ = ok none

unfoldable pub quote_of : QuoteState → Result (Option Quote)
quote_of s = priced s s.bid.price s.ask.price s.ts_event

unfoldable pub after_ask :
    QuoteState → Result (Unit {0}) × SideState → Result (Option Quote) × QuoteState
after_ask s (err e, side) = (err e, record s { ask = side })
after_ask s (ok u, side) = (quote_of (record s { ask = side }), record s { ask = side })

module _ (fs : Floats) where
  unfoldable pub after_bid :
      BboEvent → QuoteState → Result (Unit {0}) × SideState → Result (Option Quote) × QuoteState
  after_bid d s (err e, side) = (err e, record s { bid = side })
  after_bid d s (ok u, side) =
      after_ask (record s { bid = side }) (merge_side fs d.ask_price d.ask_size s.ask)

  unfoldable pub after_time :
      BboEvent → QuoteState → Result (Option ℤ) → Result (Option Quote) × QuoteState
  after_time d s (err e) = (err e, s)
  after_time d s (ok ts) = after_bid d (with_time s ts) (merge_side fs d.bid_price d.bid_size s.bid)

  unfoldable pub after_symbol :
      BboEvent → QuoteState → Result String → Result (Option Quote) × QuoteState
  after_symbol d s (err e) = (err e, s)
  after_symbol d s (ok symbol) =
      after_time d (with_ids s symbol d.exchange) (ts_ns d.ts_event_ns d.ssboe d.usecs)

  -- The result and the accumulator, which an exception leaves as far as it was merged.
  unfoldable pub bbo_to_fields : BboEvent → QuoteState → Result (Option Quote) × QuoteState
  bbo_to_fields d s = after_symbol d s (require d.symbol)
