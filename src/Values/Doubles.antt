-- ===== src/Values/Doubles.antt =====
-- Python's float arithmetic on binary64: difference, absolute value, quotient and `round`. A result
-- is the exact one rounded to the nearest double, ties to even; the least exponent is -1074.
use rithmic_nt_connect.Base.{
  ℕ, zero, suc, ◌+◌, ◌-◌, ◌*◌, ◌/◌, ◌%◌, ◌^◌, Bool, true, false, eqb, leb, ltb, if◌then◌else◌, ℤ,
  pos, negsuc, ◌-ℤ◌, ◌*ℤ◌,
}
use rithmic_nt_connect.Values.{Float, finite, inf, neg_inf, nan, Result, ok, err, Error}

-- the length of n in binary; n itself is enough fuel, since each round halves
bits : ℕ → ℕ → ℕ
bits zero n = 0
bits (suc fuel) n = elim (eqb n 0) [ true ↦ 0 | false ↦ suc (bits fuel (n / 2)) ]

unfoldable pub bit_length : ℕ → ℕ
unfolding bits
bit_length n = bits n n

-- n / d to the nearest whole number, ties to even
unfoldable pub nearest : ℕ → ℕ → ℕ
nearest n d =
    let q = n / d in
    let r = n % d in if ltb (2 * r) d then q else if ltb d (2 * r) then q + 1 else q + q % 2

-- The exponent e at which n / d * 2 ^ e has 53 digits, at most 1074; 0 where it would be negative.
abbrev digits_at : ℕ → ℕ → ℕ → Bool
digits_at n d e = ltb (n * 2 ^ e) (d * 2 ^ 53)

unfoldable pub exponent : ℕ → ℕ → ℕ
unfolding bit_length
exponent n d =
    let e = bit_length d + 53 - bit_length n in
    let least = if digits_at n d e then e else e - 1 in if leb least 1074 then least else 1074

-- The power of two by which n / d, of more than 53 digits before the point, is scaled down.
unfoldable pub excess : ℕ → ℕ → ℕ
unfolding bit_length
excess n d =
    let x = bit_length n - bit_length d - 53 in if ltb n (d * 2 ^ (53 + x)) then x else x + 1

-- the double nearest to n / d, for 0 < d
unfoldable pub magnitude : ℕ → ℕ → Float
unfolding exponent excess nearest
magnitude n d =
    if digits_at n d 0
    then finite (pos (nearest (n * 2 ^ exponent n d) d)) (exponent n d)
    else (let m = nearest n (d * 2 ^ excess n d) * 2 ^ excess n d in
        if ltb m (2 ^ 1024) then finite (pos m) 0 else inf)

unfoldable pub opposite : Float → Float
unfolding ◌-ℤ◌
opposite (finite m e) = finite (pos 0 -ℤ m) e
opposite inf = neg_inf
opposite neg_inf = inf
opposite nan = nan

unfoldable pub signed_magnitude : ℤ → ℕ → Float
unfolding magnitude opposite
signed_magnitude (pos n) d = magnitude n d
signed_magnitude (negsuc n) d = opposite (magnitude (suc n) d)

-- `x - y`
unfoldable pub difference : Float → Float → Float
unfolding signed_magnitude ◌-ℤ◌ ◌*ℤ◌
difference nan y = nan
difference x nan = nan
difference (finite m e) (finite n f) =
    signed_magnitude (m *ℤ pos (2 ^ f) -ℤ n *ℤ pos (2 ^ e)) (2 ^ (e + f))
difference inf inf = nan
difference neg_inf neg_inf = nan
difference inf y = inf
difference neg_inf y = neg_inf
difference x inf = neg_inf
difference x neg_inf = inf

-- `abs(x)`
unfoldable pub absolute : Float → Float
absolute (finite (negsuc n) e) = finite (pos (suc n)) e
absolute neg_inf = inf
absolute x = x

-- `x / y`; a zero divisor raises, and one error of the model stands for `ZeroDivisionError`
unfoldable pub quotient : Float → Float → Result Float
unfolding signed_magnitude ◌*ℤ◌
quotient x (finite (pos zero) f) = err Error.runtime_error
quotient nan y = ok nan
quotient x nan = ok nan
quotient (finite m e) (finite (pos (suc n)) f) =
    ok (signed_magnitude (m *ℤ pos (2 ^ f)) (suc n * 2 ^ e))
quotient (finite m e) (finite (negsuc n) f) =
    ok (opposite (signed_magnitude (m *ℤ pos (2 ^ f)) (suc n * 2 ^ e)))
quotient (finite m e) y = ok (finite (pos 0) 0)
quotient inf (finite (pos n) f) = ok inf
quotient inf (finite (negsuc n) f) = ok neg_inf
quotient neg_inf (finite (pos n) f) = ok neg_inf
quotient neg_inf (finite (negsuc n) f) = ok inf
quotient x y = ok nan

-- `round(x)`: to the nearest whole number, ties to even
unfoldable pub round : Float → Result ℤ
unfolding nearest ◌-ℤ◌
round (finite (pos n) e) = ok (pos (nearest n (2 ^ e)))
round (finite (negsuc n) e) = ok (pos 0 -ℤ pos (nearest (suc n) (2 ^ e)))
round nan = err Error.value_error
round x = err Error.overflow_error
