-- ===== src/Values.antt =====
-- Values of the notification dicts, and the Python conversions that the adapter applies to them.
-- A float is its exact dyadic value; `-0.0` is `0.0`. Texts hold ASCII digits and whitespace.
pub mod Binds
pub mod Doubles
use Prim.Native.String.{◌++◌, slice}
use rithmic_nt_connect.Base.{
  ℕ, zero, suc, ◌+◌, ◌-◌, ◌*◌, ◌/◌, ◌%◌, ◌^◌, String, Bool, true, false, ◌&&◌, not, Option, none,
  some, [], ◌∷◌, leb, eqb, if◌then◌else◌, ℤ, pos, negsuc, eqb_ℤ, Text, codes, trim, ◌==◌,
}

-- `finite m e` is m / 2 ^ e.
pub data Float : Type 0 where
  finite : ℤ → ℕ → Float
  inf neg_inf nan : Float

pub data Value : Type 0 where
  absent : Value
  boolean : Bool → Value
  int : ℤ → Value
  float : Float → Value
  str : String → Value

-- The exceptions that the modelled code raises or tells apart.
pub data Error : Type 0 where
  type_error value_error overflow_error : Error
  convert_error : Error
  order_map_error : Error
  query_unavailable : Error
  unreadable_event : Error
  runtime_error : Error

pub data Result {ℓ} (A : Type ℓ) : Type ℓ where
  ok : A → Result A
  err : Error → Result A

infixl 5 ◌>>=◌ ◌>>◌
abbrev pub ◌>>=◌ {ℓ κ} : {A : Type ℓ} {B : Type κ} → Result A → (A → Result B) → Result B
ok a >>= f = f a
err e >>= f = err e

abbrev pub ◌>>◌ {ℓ κ} : {A : Type ℓ} {B : Type κ} → Result A → Result B → Result B
m >> k = m >>= λ _. k

-- `except (TypeError, ValueError)`; `ConvertError` and `OrderMapError` are `ValueError`s.
abbrev pub is_type_or_value : Error → Bool
is_type_or_value type_error = true
is_type_or_value value_error = true
is_type_or_value convert_error = true
is_type_or_value order_map_error = true
is_type_or_value _ = false

-- `except (TypeError, ValueError, OverflowError)`
abbrev pub is_number_error : Error → Bool
is_number_error overflow_error = true
is_number_error e = is_type_or_value e

abbrev is_true_text : String → Bool
is_true_text s = not (s == "")

abbrev pub is_zero : ℤ → Bool
is_zero n = eqb_ℤ n (pos 0)

-- `bool(v)`
abbrev pub truthy : Value → Bool
truthy absent = false
truthy (boolean b) = b
truthy (int n) = not (is_zero n)
truthy (float (finite m e)) = not (is_zero m)
truthy (float f) = true
truthy (str s) = is_true_text s

-- a text field: `None` and `""` are false
abbrev pub has_text : Option String → Bool
has_text none = false
has_text (some s) = is_true_text s

-- `str(x or "")` of a text field
abbrev pub text_or_empty : Option String → String
text_or_empty none = ""
text_or_empty (some s) = s

-- Decimal digits, with single underscores between them as `int` accepts.
abbrev is_digit : ℕ → Bool
is_digit c = leb b'0' c && leb c b'9'

digits_from : ℕ → Text → Option ℕ
digits_from n [] = some n
digits_from n (c ∷ []) = if is_digit c then some (n * 10 + (c - b'0')) else none
digits_from n (c ∷ d ∷ s) =
    if is_digit c
    then digits_from (n * 10 + (c - b'0')) (d ∷ s)
    else if eqb c b'_' && is_digit d
    then digits_from n (d ∷ s)
    else none

unsigned : Text → Option ℕ
unfolding digits_from
unsigned [] = none
unsigned (c ∷ s) = if is_digit c then digits_from 0 (c ∷ s) else none

negate : ℕ → ℤ
negate zero = pos zero
negate (suc n) = negsuc n

signed_digits : Text → Option ℤ
unfolding unsigned negate
signed_digits [] = none
signed_digits (c ∷ s) =
    if eqb c b'-'
    then elim (unsigned s) [ none ↦ none | some n ↦ some (negate n) ]
    else if eqb c b'+'
    then elim (unsigned s) [ none ↦ none | some n ↦ some (pos n) ]
    else elim (unsigned (c ∷ s)) [ none ↦ none | some n ↦ some (pos n) ]

-- `int(s)` of a text
unfoldable pub parse_int : String → Option ℤ
unfolding signed_digits
parse_int s = signed_digits (trim (codes s))

-- `int(f)` truncates toward zero
unfoldable pub truncate : ℤ → ℕ → ℤ
unfolding negate
truncate (pos n) e = pos (n / 2 ^ e)
truncate (negsuc n) e = negate (suc n / 2 ^ e)

-- whether m / 2 ^ e is whole
abbrev pub is_whole : ℤ → ℕ → Bool
is_whole (pos n) e = eqb (n % 2 ^ e) 0
is_whole (negsuc n) e = eqb (suc n % 2 ^ e) 0

abbrev ok_or {ℓ} : {A : Type ℓ} → Option A → Error → Result A
ok_or none e = err e
ok_or (some a) e = ok a

-- `int(v)`
unfoldable pub to_int : Value → Result ℤ
unfolding parse_int truncate
to_int absent = err type_error
to_int (boolean true) = ok (pos 1)
to_int (boolean false) = ok (pos 0)
to_int (int n) = ok n
to_int (float (finite m e)) = ok (truncate m e)
to_int (float nan) = err value_error
to_int (float f) = err overflow_error
to_int (str s) = ok_or (parse_int s) value_error

-- `int(v or 0)`
unfoldable pub to_int_or_zero : Value → Result ℤ
unfolding to_int
to_int_or_zero v = if truthy v then to_int v else ok (pos 0)

-- `_orders.enum_int`: the integer only when the input is that integer.
unfoldable pub enum_int : Value → Option ℤ
unfolding parse_int truncate
enum_int absent = none
enum_int (boolean b) = none
enum_int (int n) = some n
enum_int (float (finite m e)) = if is_whole m e then some (truncate m e) else none
enum_int (float f) = none
enum_int (str s) = parse_int s

-- whether `float(v) == -1.0`; a text is read by `float`, a parameter here
abbrev is_minus_one : Float → Bool
is_minus_one (finite (negsuc n) e) = eqb (suc n) (2 ^ e)
is_minus_one f = false

-- `_orders.sentinel_none`: an absent price, or the venue's pending price -1.0, is absent.
unfoldable pub sentinel_none : (String → Option Float) → Value → Value
sentinel_none parse_float absent = absent
sentinel_none parse_float (boolean b) = boolean b
sentinel_none parse_float (int n) = if eqb_ℤ n (negsuc 0) then absent else int n
sentinel_none parse_float (float f) = if is_minus_one f then absent else float f
sentinel_none parse_float (str s) = elim (parse_float s) [
  | none ↦ str s
  | some f ↦ if is_minus_one f then absent else str s
]

-- Decimal text of a number, for identities.
digit : ℕ → String
digit d = slice "0123456789" d (d + 1)

-- Enough fuel is `suc n`: each round divides by ten.
show_from : ℕ → ℕ → String → String
unfolding digit
show_from zero n tail = tail
show_from (suc fuel) n tail =
    let rest = show_from fuel (n / 10) (digit (n % 10) ++ tail) in
    if leb n 9 then digit (n % 10) ++ tail else rest

-- `str(n)`
unfoldable pub show_int : ℤ → String
unfolding show_from
show_int (pos n) = show_from (suc n) n ""
show_int (negsuc n) = "-" ++ show_from (suc (suc n)) (suc n) ""

-- `str(v)`; the shortest text of a float is a parameter
unfoldable pub show_value : (Float → String) → Value → String
unfolding show_int
show_value show_float absent = "None"
show_value show_float (boolean true) = "True"
show_value show_float (boolean false) = "False"
show_value show_float (int n) = show_int n
show_value show_float (float f) = show_float f
show_value show_float (str s) = s
