-- ===== src/Core/Ident.antt =====
-- crates/rithmic-exec/src/ident.rs: instrument ids that carry the exchange, and event times.
use Prim.Native.String.{◌++◌}
use rithmic_nt_connect.Base.{
  String, ◌||◌, Option, none, some, ◌==◌, if◌then◌else◌, ℤ, pos, ◌+ℤ◌, ◌*ℤ◌, eqb, upper_string,
  strip, has_code,
}
use Prim.Native.Char.{code}
use rithmic_nt_connect.Values.{Result, ok, err, convert_error, ◌>>=◌}

-- Every `IdentError` reaches the adapter as a `ValueError`, which it turns into a `ConvertError`.
unfoldable pub require_safe : String → Result String
require_safe value =
    if has_code b'-' value || has_code b'.' value then err convert_error else ok value

exchange_part : Option String → Option String
exchange_part none = none
exchange_part (some e) = if strip e == "" then none else some (strip e)

unfoldable pub instrument_id : String → Option String → String → Result String
unfolding require_safe exchange_part
instrument_id symbol exchange venue = do
  sym ← require_safe (strip symbol)
  if sym == "" then err convert_error else elim (exchange_part exchange) [
    | some e ↦ (do exch ← require_safe (upper_string e); ok (sym ++ "-" ++ exch ++ "." ++ venue))
    | none ↦ ok (sym ++ "." ++ venue)
  ]

-- `raw.strip_suffix(suffix)`
strip_suffix : String → String → Option String
strip_suffix suffix String.[] = if suffix == "" then some "" else none
strip_suffix suffix (String.◌∷◌ c s) =
    let rest = strip_suffix suffix s in
    if String.◌∷◌ c s == suffix
    then some ""
    else elim rest [ none ↦ none | some r ↦ some (String.◌∷◌ c r) ]

-- `s.split_once('-')`
split_dash : String → Option (String × String)
split_dash String.[] = none
split_dash (String.◌∷◌ c s) =
    let rest = split_dash s in
    if eqb (code c) b'-'
    then some ("", s)
    else elim rest [ none ↦ none | some (a, b) ↦ some (String.◌∷◌ c a, b) ]

split_component : String → Result (String × Option String)
unfolding require_safe split_dash
split_component sym_exch = elim (split_dash sym_exch) [
  | some (sym, exch) ↦
      if sym == "" || exch == ""
      then err convert_error
      else if has_code b'.' sym
      then err convert_error
      else (do e ← require_safe (upper_string exch); ok (sym, some e))
  | none ↦ (do sym ← require_safe sym_exch; ok (sym, none))
]

unfoldable pub split_instrument_id : String → String → Result (String × Option String)
unfolding strip_suffix split_component
split_instrument_id instrument_id venue = elim (strip_suffix ("." ++ venue) (strip instrument_id)) [
  | none ↦ err convert_error
  | some sym_exch ↦ if sym_exch == "" then err convert_error else split_component sym_exch
]

-- `ssboe` seconds and `usecs` microseconds in nanoseconds
unfoldable pub nanos : ℤ → ℤ → ℤ
unfolding ◌+ℤ◌ ◌*ℤ◌
nanos ssboe usecs = ssboe *ℤ pos 1_000_000_000 +ℤ usecs *ℤ pos 1_000

-- The caller passes `usecs` as 0 when it is absent.
unfoldable pub event_ts_ns : Option ℤ → Option ℤ → ℤ → Option ℤ
unfolding nanos
event_ts_ns (some ts) ssboe usecs = some ts
event_ts_ns none none usecs = none
event_ts_ns none (some s) usecs = some (nanos s usecs)
