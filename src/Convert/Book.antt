-- ===== src/Convert/Book.antt =====
-- _convert.py: `order_book_to_fields`; crates/rithmic-exec/src/book.rs: the kinds of updates.
use rithmic_nt_connect.Base.{
  ℕ, suc, ◌+◌, String, Bool, true, false, not, ◌||◌, Option, none, some, List, [], ◌∷◌, ◌++◌,
  if◌then◌else◌, ℤ, pos, negsuc, eqb, ltb_ℤ, length, or_else,
}
use rithmic_nt_connect.Values.{
  Value, absent, Float, Result, ok, err, ◌>>=◌, ◌>>◌, convert_error, overflow_error, to_int,
}
use rithmic_nt_connect.Notice.Normalize.{ts_ns, instrument_id_from_symbol}
use rithmic_nt_connect.Convert.{Floats, require, require_value, to_float}

pub data BookUpdate : Type 0 where
  clear no_book snapshot begin middle end solo : BookUpdate

unfoldable pub kind_of_number : ℕ → Option BookUpdate
kind_of_number n =
    if eqb n 1
    then some clear
    else if eqb n 2
    then some no_book
    else if eqb n 3
    then some snapshot
    else if eqb n 4
    then some begin
    else if eqb n 5
    then some middle
    else if eqb n 6
    then some end
    else if eqb n 7
    then some solo
    else none

-- `BookUpdate::from_wire`
unfoldable pub book_update_kind : ℤ → Option BookUpdate
book_update_kind (pos n) = kind_of_number n
book_update_kind (negsuc n) = none

-- a key that may not be in the dict, or be `None` there
pub data Column : Type 0 where
  missing null : Column
  values : List Value → Column

pub record BookEvent : Type 0 where
  pub symbol : Option String
  pub exchange : Option String
  pub bid_price : Column
  pub bid_size : Column
  pub ask_price : Column
  pub ask_size : Column
  pub update_type : Value
  pub ts_event_ns : Value
  pub ssboe : Value
  pub usecs : Value

pub data BookSide : Type 0 where
  bid ask : BookSide

pub record Level : Type 0 where
  pub side : BookSide
  pub price : Float
  pub size : Float
  pub order_id : ℕ

pub record BookFields : Type 0 where
  pub instrument_id : String
  pub symbol : String
  pub exchange : Option String
  pub update_kind : BookUpdate
  pub levels : List Level
  pub ts_event : ℤ

-- `list(d[key] if d[key] is not None else [])`
unfoldable pub column : Column → List Value
column missing = []
column null = []
column (values vs) = vs

unfoldable pub is_missing : Column → Bool
is_missing missing = true
is_missing c = false

unfoldable pub check : Bool → Result (Unit {0})
check true = ok tt
check false = err convert_error

unfoldable pub required_ts : Option ℤ → Result ℤ
required_ts none = err convert_error
required_ts (some ts) = ok ts

-- a 32-bit argument of the extension
unfoldable pub to_i32 : ℤ → Result ℤ
to_i32 n =
    if ltb_ℤ n (negsuc 2_147_483_647) || ltb_ℤ (pos 2_147_483_647) n
    then err overflow_error
    else ok n

unfoldable pub known_kind : Option BookUpdate → Result BookUpdate
known_kind none = err convert_error
known_kind (some k) = ok k

unfoldable pub update_kind : Value → Result BookUpdate
update_kind absent = ok snapshot
update_kind v = do n ← to_int v; i ← to_i32 n; known_kind (book_update_kind i)

module _ (fs : Floats) where
  -- The loop over one side, from index `i`; `base` is what the side's order ids start after. The
  -- lengths were compared before.
  unfoldable pub levels_from : BookSide → ℕ → ℕ → List Value → List Value → Result (List Level)
  levels_from side base i [] sizes = ok []
  levels_from side base i (price ∷ prices) [] = err convert_error
  levels_from side base i (price ∷ prices) (size ∷ sizes) =
      let rest = levels_from side base (suc i) prices sizes in
      do
        price ← require_value price
        size ← require_value size
        p ← to_float fs price
        z ← to_float fs size
        levels ← rest
        ok (record { side = side; price = p; size = z; order_id = base + i + 1 } ∷ levels)

  unfoldable pub book_levels : BookEvent → Result (List Level)
  book_levels d = do
    check (not (is_missing d.bid_price || is_missing d.ask_price))
    check (eqb (length (column d.bid_price)) (length (column d.bid_size)))
    check (eqb (length (column d.ask_price)) (length (column d.ask_size)))
    bids ← levels_from bid 0 0 (column d.bid_price) (column d.bid_size)
    asks ← levels_from ask 1_000_000 0 (column d.ask_price) (column d.ask_size)
    ok (bids ++ asks)

  -- `ts_init` is the adapter's clock, for a book without the venue's time
  unfoldable pub order_book_to_fields : BookEvent → Option ℤ → Result BookFields
  order_book_to_fields d ts_init = do
    symbol ← require d.symbol
    venue_ts ← ts_ns d.ts_event_ns d.ssboe d.usecs
    ts ← required_ts (or_else venue_ts ts_init)
    levels ← book_levels d
    kind ← update_kind d.update_type
    id ← instrument_id_from_symbol symbol d.exchange
    ok (record {
      instrument_id = id;
      symbol = symbol;
      exchange = d.exchange;
      update_kind = kind;
      levels = levels;
      ts_event = ts;
    })
