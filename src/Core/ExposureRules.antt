-- ===== src/Core/ExposureRules.antt =====
-- crates/rithmic-exec/src/exposure.rs: product roots, the signed net and the proof field.
use Prim.Native.String.{slice}
use rithmic_nt_connect.Base.{
  ℕ, ◌+◌, ◌-◌, String, Bool, true, false, ◌&&◌, ◌||◌, not, Option, some, List, [], ◌∷◌, ◌==◌,
  if◌then◌else◌, ℤ, pos, ◌+ℤ◌, ◌-ℤ◌, leb_ℤ, upper_string, strip, leb, eqb, Text, codes, length,
}
use mathlib.Core.List.{reverse}

abbrev pub pnl_settle_ns : ℤ
pnl_settle_ns = pos 3_000_000_000

is_digit : ℕ → Bool
is_digit c = leb b'0' c && leb c b'9'

-- `take_while(is_ascii_digit).count()`
leading_digits : Text → ℕ
unfolding is_digit
leading_digits [] = 0
leading_digits (c ∷ s) = let rest = leading_digits s in if is_digit c then rest + 1 else 0

is_root_code : ℕ → Bool
unfolding is_digit
is_root_code c = (leb b'A' c && leb c b'Z') || is_digit c

all_codes : (ℕ → Bool) → Text → Bool
all_codes p [] = true
all_codes p (c ∷ s) = p c && all_codes p s

has : ℕ → Text → Bool
has x [] = false
has x (c ∷ s) = eqb c x || has x s

skip : ℕ → Text → Text
skip n [] = []
skip n (c ∷ s) = if eqb n 0 then c ∷ s else skip (n - 1) s

-- on the reversed symbol: the digits, the month letter, then the root
has_month_suffix : ℕ → Text → Bool
unfolding has all_codes is_root_code
has_month_suffix digits [] = false
has_month_suffix digits (letter ∷ []) = false
has_month_suffix digits (letter ∷ c ∷ root) =
    (leb 1 digits && leb digits 2)
    && (has letter (codes "FGHJKMNQUVXZ") && all_codes is_root_code (c ∷ root))

unfoldable pub product_root : String → String
unfolding leading_digits skip has_month_suffix
product_root symbol =
    let sym = upper_string (strip symbol) in
    let rev = reverse (codes sym) in
    let digits = leading_digits rev in
    if has_month_suffix digits (skip digits rev) then slice sym 0 (length rev - digits - 1) else sym

unfoldable pub matches_root : String → String → Bool
unfolding product_root
matches_root symbol root =
    let want = upper_string (strip root) in not (want == "") && product_root symbol == want

pub record PositionRow : Type 0 where
  pub symbol : String
  pub quantity : ℤ
  pub side : String

unfoldable pub row_net : PositionRow → ℤ
unfolding ◌-ℤ◌
row_net r =
    if r.side == "LONG"
    then r.quantity
    else if r.side == "SHORT"
    then pos 0 -ℤ r.quantity
    else pos 0

-- `signed_net`; the source adds i64 values, which are integers without a bound here
unfoldable pub signed_net : List PositionRow → String → ℤ
unfolding matches_root row_net ◌+ℤ◌
signed_net [] root = pos 0
signed_net (r ∷ rows) root =
    if matches_root r.symbol root then row_net r +ℤ signed_net rows root else signed_net rows root

unfoldable pub exposure_complete : Option ℤ → Option ℤ → Option ℤ → Option ℤ → Bool
unfolding ◌-ℤ◌
exposure_complete (some net) (some open_orders) (some pnl) (some drain) =
    leb_ℤ pnl_settle_ns (drain -ℤ pnl)
exposure_complete _ _ _ _ = false
