-- ===== src/Core/Fills.antt =====
-- crates/rithmic-exec/src/fills.rs: the trade id of a fill, and its key in the dedup store.
use Prim.Native.String.{◌++◌}
use rithmic_nt_connect.Base.{String, Option, none, some, ◌==◌, if◌then◌else◌, ℤ}
use rithmic_nt_connect.Values.{show_int}

pub record FillParts : Type 0 where
  pub fill_id : Option String
  pub basket_id : String
  pub exchange_order_id : String
  pub fill_size : String
  pub fill_price : String

composite : FillParts → ℤ → String
composite p ts_event =
    p.basket_id
    ++ ":"
    ++ p.exchange_order_id
    ++ ":"
    ++ show_int ts_event
    ++ ":"
    ++ p.fill_size
    ++ ":"
    ++ p.fill_price

unfoldable pub trade_id : FillParts → ℤ → String
unfolding composite
trade_id p ts_event = elim p.fill_id [
  | none ↦ composite p ts_event
  | some id ↦ if id == "" then composite p ts_event else id
]

unfoldable pub dedup_key : String → String → FillParts → ℤ → String
unfolding trade_id
dedup_key account_id instrument_id p ts_event =
    account_id ++ "|" ++ instrument_id ++ "|" ++ trade_id p ts_event
