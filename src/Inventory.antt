-- ===== src/Inventory.antt =====
-- inventory.py: working orders and net positions from a session's events. Times are seconds of a
-- monotonic clock, counted in a unit of which the settle window is a whole number.
pub mod Events
pub mod Finished
pub mod Unknown
pub mod Tests
use Prim.Native.String.{◌++◌ as append}
use rithmic_nt_connect.TextSets.{
  add_text, discard, mem_text-add_text, mem_text-added, mem_text-discard,
}
use rithmic_nt_connect.Base.{
  ℕ, ◌+◌, max, String, Bool, true, false, not, ◌&&◌, ◌||◌, Option, none, some, List, [], ◌∷◌,
  if◌then◌else◌, ℤ, pos, eqb, ◌==◌, lookup, insert, erase, mem_text, strip, upper_string, or_else,
}
use rithmic_nt_connect.Values.{
  Value, absent, boolean, int, float, str, Float, Result, ok, err, ◌>>=◌, ◌>>◌, Error, type_error,
  value_error, has_text, text_or_empty, truthy, to_int, parse_int, show_int, show_value,
}
use rithmic_nt_connect.Core.InventoryRules
use rithmic_nt_connect.Core.InventoryRules.{
  StatusClass, order_is_gone, PositionChange, position_change, side_from_txn,
}
use rithmic_nt_connect.Notice.{Wire, Fields}
use rithmic_nt_connect.Notice.Normalize.{order_notification_to_fields}
use rithmic_nt_connect.OrderRows.{OrderStatus, order_status_from_fields, is_terminal}
use rithmic_nt_connect.Convert.Pnl.{InstrumentPnl}

pub record WorkingOrder : Type 0 where
  pub basket_id : String
  pub symbol : String
  pub exchange : String
  pub side : Option String
  pub qty : Option ℤ
  pub unfilled : Option ℤ
  pub status : Option String
  pub kind : Option String
  pub user_tag : Option String
  pub price : Option Float

pub record OpenPosition : Type 0 where
  pub symbol : String
  pub exchange : String
  pub net_qty : ℤ

pub record Inventory : Type 0 where
  pub orders : List (String × WorkingOrder)
  pub positions : List (String × OpenPosition)
  pub pnl_events : ℕ
  pub pnl_first : Option ℕ
  pub observed_until : Option ℕ
  pub done_baskets : List String
  pub unknown_positions : List String

-- `Inventory()`
abbrev pub empty_inventory : Inventory
empty_inventory = record {
  orders = [];
  positions = [];
  pnl_events = 0;
  pnl_first = none;
  observed_until = none;
  done_baskets = [];
  unknown_positions = [];
}

unfoldable pub is_empty : List String → Bool
is_empty [] = true
is_empty (s ∷ set) = false

-- `Inventory.pnl_live`
unfoldable pub pnl_live : ℕ → Inventory → Bool
pnl_live settle inv =
    InventoryRules.pnl_live inv.pnl_first inv.observed_until (not (is_empty inv.unknown_positions))
      settle

-- `mark_observed`
unfoldable pub mark_observed : ℕ → Inventory → Inventory
mark_observed now inv = record inv { observed_until = some now }

-- `except (TypeError, ValueError): return None`
unfoldable pub int_or_none : Result ℤ → Result (Option ℤ)
int_or_none (ok n) = ok (some n)
int_or_none (err type_error) = ok none
int_or_none (err value_error) = ok none
int_or_none (err e) = err e

-- `x or fallback` of a text
unfoldable pub text_or : Option String → String → String
text_or s fallback = if has_text s then text_or_empty s else fallback

unfoldable pub nonempty : String → Option String
nonempty s = if s == "" then none else some s

module _ (parse_float : String → Option Float) (show_float : Float → String) where
  -- `int(float(text))`
  unfoldable pub int_of_float_text : String → Result (Option ℤ)
  int_of_float_text s = elim (parse_float s) [
    | none ↦ ok none
    | some f ↦ int_or_none (to_int (float f))
  ]

  -- `_as_int`: the text of a float is no integer and reads back as that float
  unfoldable pub as_int : Value → Result (Option ℤ)
  as_int absent = ok none
  as_int (boolean b) = ok none
  as_int (int n) = ok (some n)
  as_int (float f) = int_or_none (to_int (float f))
  as_int (str s) =
      if s == ""
      then ok none
      else elim (parse_int s) [ some n ↦ ok (some n) | none ↦ int_of_float_text s ]

  -- `_as_float`
  unfoldable pub as_float : Value → Option Float
  as_float absent = none
  as_float (boolean b) = none
  as_float (int n) = parse_float (show_int n)
  as_float (float f) = some f
  as_float (str s) = if s == "" then none else parse_float s

  -- `_side_from_txn`
  unfoldable pub side_of_txn : Value → Result (Option String)
  side_of_txn v = do
    n ← as_int v
    ok (side_from_txn n (if truthy v then show_value show_float v else ""))

  unfoldable pub status_class : OrderStatus → StatusClass
  status_class OrderStatus.filled = StatusClass.filled
  status_class status =
      if is_terminal status then StatusClass.other_terminal else StatusClass.working

  -- `_is_gone`
  unfoldable pub is_gone : Fields → Option ℤ → Result Bool
  is_gone f unfilled = do
    status ← order_status_from_fields f
    quantity ← as_int f.quantity
    total ← as_int f.total_fill_size
    ok (order_is_gone (status_class status) unfilled quantity total)

  -- an unreadable row keeps its order
  unfoldable pub gone_row : Result Fields → Option ℤ → Result Bool
  gone_row (err e) unfilled = ok false
  gone_row (ok f) unfilled = is_gone f unfilled

  unfoldable pub row_kind : Result Fields → Wire → Option String
  row_kind (err e) d = d.kind
  row_kind (ok f) d = f.kind

  unfoldable pub finished : String → Inventory → Inventory
  finished basket inv = record inv {
    orders = erase basket inv.orders;
    done_baskets = add_text basket inv.done_baskets;
  }

  -- what the earlier row of a basket told, where this one does not
  unfoldable pub earlier : {A : Type 0} → (WorkingOrder → Option A) → Option WorkingOrder → Option A
  earlier f none = none
  earlier f (some o) = f o

  unfoldable pub row_price : Wire → Option WorkingOrder → Option Float
  row_price d prev = elim d.price [ Value.absent ↦ earlier (λ o. o.price) prev | v ↦ as_float v ]

  unfoldable pub stored :
      Wire
      → String
      → String
      → Option String
      → Option ℤ
      → Option ℤ
      → Result Fields
      → Option WorkingOrder
      → WorkingOrder
  stored d basket symbol side qty unfilled fields prev = record {
    basket_id = basket;
    symbol = symbol;
    exchange = text_or d.exchange (text_or (earlier (λ o. some o.exchange) prev) "CME");
    side = or_else (nonempty (text_or_empty side)) (earlier (λ o. o.side) prev);
    qty = or_else qty (earlier (λ o. o.qty) prev);
    unfilled = or_else unfilled (earlier (λ o. o.unfilled) prev);
    status = nonempty (upper_string (text_or_empty d.status));
    kind = or_else (row_kind fields d) (earlier (λ o. o.kind) prev);
    user_tag = or_else d.user_tag (earlier (λ o. o.user_tag) prev);
    price = row_price d prev;
  }

  unfoldable pub row_symbol : Wire → Option WorkingOrder → String
  row_symbol d prev = strip (text_or d.symbol (text_or_empty (earlier (λ o. some o.symbol) prev)))

  unfoldable pub still_working :
      Wire → String → Option ℤ → Result Fields → Option WorkingOrder → Inventory → Result Inventory
  still_working d basket unfilled fields prev inv =
      let symbol = row_symbol d prev in
      let update = (do
        side ← side_of_txn d.transaction_type
        qty ← as_int d.quantity
        ok (record inv {
          orders = insert basket (stored d basket symbol side qty unfilled fields prev) inv.orders;
        })) in
      if symbol == "" then ok inv else update

  unfoldable pub gone_or_working :
      Wire → String → Option ℤ → Result Fields → Inventory → Bool → Result Inventory
  gone_or_working d basket unfilled fields inv true = ok (finished basket inv)
  gone_or_working d basket unfilled fields inv false =
      still_working d basket unfilled fields (lookup basket inv.orders) inv

  unfoldable pub known_basket : Wire → String → Result Fields → Inventory → Result Inventory
  known_basket d basket fields inv = do
    unfilled ← as_int d.total_unfilled_size
    gone ← gone_row fields unfilled
    gone_or_working d basket unfilled fields inv gone

  -- `_ingest_order`
  unfoldable pub ingest_order : Wire → Inventory → Result Inventory
  ingest_order d inv =
      let basket = strip (text_or_empty d.basket_id) in
      if basket == "" || mem_text basket inv.done_baskets
      then ok inv
      else known_basket d basket (order_notification_to_fields parse_float d) inv

  unfoldable pub position_key : InstrumentPnl → String
  position_key d = append (strip (text_or_empty d.symbol)) (append "." (text_or d.exchange "CME"))

  unfoldable pub changed : InstrumentPnl → String → PositionChange → Inventory → Inventory
  changed d key PositionChange.unknown inv = record inv {
    positions = erase key inv.positions;
    unknown_positions = add_text key inv.unknown_positions;
  }
  changed d key PositionChange.flat inv = record inv {
    unknown_positions = discard key inv.unknown_positions;
    positions = erase key inv.positions;
  }
  changed d key (PositionChange.net n) inv = record inv {
    unknown_positions = discard key inv.unknown_positions;
    positions =
        insert key
          (record {
            symbol = strip (text_or_empty d.symbol);
            exchange = text_or d.exchange "CME";
            net_qty = n;
          })
          inv.positions;
  }

  -- `_ingest_position`
  unfoldable pub ingest_position : InstrumentPnl → Inventory → Result Inventory
  ingest_position d inv =
      let changed_row = (do
        n ← as_int d.net_quantity
        ok (changed d (position_key d) (position_change n) inv)) in
      if strip (text_or_empty d.symbol) == "" then ok inv else changed_row
