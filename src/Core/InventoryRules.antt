-- ===== src/Core/InventoryRules.antt =====
-- crates/rithmic-exec/src/inventory.rs: when an order is finished, and what a position row does.
use rithmic_nt_connect.Base.{
  String, Bool, true, false, ◌&&◌, ◌||◌, not, Option, none, some, ◌==◌, if◌then◌else◌, ℤ, pos,
  leb_ℤ, ltb_ℤ, eqb_ℤ, upper_string, strip, ℕ, ◌+◌, leb,
}

pub data StatusClass : Type 0 where
  working filled other_terminal : StatusClass

fully_filled : Option ℤ → Option ℤ → Bool
fully_filled (some q) (some f) = ltb_ℤ (pos 0) q && leb_ℤ q f
fully_filled _ _ = false

filled_is_gone : Option ℤ → Option ℤ → Option ℤ → Bool
filled_is_gone (some u) quantity total_fill = leb_ℤ u (pos 0)
filled_is_gone none quantity total_fill = fully_filled quantity total_fill

unfoldable pub order_is_gone : StatusClass → Option ℤ → Option ℤ → Option ℤ → Bool
unfolding filled_is_gone fully_filled
order_is_gone working unfilled quantity total_fill = false
order_is_gone other_terminal unfilled quantity total_fill = true
order_is_gone filled unfilled quantity total_fill = filled_is_gone unfilled quantity total_fill

pub data PositionChange : Type 0 where
  unknown flat : PositionChange
  net : ℤ → PositionChange

unfoldable pub position_change : Option ℤ → PositionChange
position_change none = unknown
position_change (some n) = if eqb_ℤ n (pos 0) then flat else net n

-- Times are monotonic seconds; here they are counted in a unit of which the settle window is a
-- whole number.
unfoldable pub pnl_live : Option ℕ → Option ℕ → Bool → ℕ → Bool
pnl_live (some first) (some until) any_unreadable settle =
    not any_unreadable && leb (first + settle) until
pnl_live _ _ any_unreadable settle = false

side_from_text : String → Option String
side_from_text t =
    if t == "BUY" || (t == "B" || t == "1")
    then some "BUY"
    else if t == "SELL" || (t == "S" || t == "2")
    then some "SELL"
    else none

unfoldable pub side_from_txn : Option ℤ → String → Option String
unfolding side_from_text
side_from_txn none text = side_from_text (upper_string (strip text))
side_from_txn (some c) text =
    if eqb_ℤ c (pos 1)
    then some "BUY"
    else if eqb_ℤ c (pos 2)
    then some "SELL"
    else side_from_text (upper_string (strip text))

unfoldable pub flatten_side : ℤ → String
flatten_side n = if ltb_ℤ (pos 0) n then "SELL" else "BUY"
