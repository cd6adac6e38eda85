-- ===== src/Convert.antt =====
-- _convert.py: the field maps of market data and PnL, built from the dicts of the venue. A text
-- field of a dict is a text or absent; the other fields hold any value.
pub mod Quote
pub mod Latest
pub mod Book
pub mod Levels
pub mod Pnl
pub mod Bars
pub mod Tests
use rithmic_nt_connect.Base.{String, Bool, true, false, Option, none, some, ℤ, pos, if◌then◌else◌}
use rithmic_nt_connect.Values.{
  Value, absent, boolean, int, float, str, Float, finite, Result, ok, err, type_error, value_error,
  convert_error, truthy,
}

-- Python's conversions to a float: of a text, and of an integer, which is rounded or too large.
pub record Floats : Type 0 where
  pub parse : String → Option Float
  pub of_int : ℤ → Result Float

-- `_require` of one text key
unfoldable pub require : Option String → Result String
require none = err convert_error
require (some s) = ok s

-- `_require` of one key of any type
unfoldable pub require_value : Value → Result Value
require_value absent = err convert_error
require_value v = ok v

-- `float(v)`
unfoldable pub to_float : Floats → Value → Result Float
to_float fs absent = err type_error
to_float fs (boolean true) = ok (finite (pos 1) 0)
to_float fs (boolean false) = ok (finite (pos 0) 0)
to_float fs (int n) = fs.of_int n
to_float fs (float f) = ok f
to_float fs (str s) = elim (fs.parse s) [ none ↦ err value_error | some f ↦ ok f ]

-- `float(v or 0)`
unfoldable pub to_float_or_zero : Floats → Value → Result Float
to_float_or_zero fs v = if truthy v then to_float fs v else ok (finite (pos 0) 0)
