-- ===== src/Client/Fills.antt =====
-- execution.py, commission.py and _prices.py: how a fill row becomes a fill report.
use Prim.Native.Char.{code}
use Prim.Native.String.{◌++◌}
use rithmic_nt_connect.Base.{
  String, Bool, true, false, ◌&&◌, ◌||◌, Option, none, some, ◌==◌, if◌then◌else◌, ℤ, pos, eqb,
  eqb_ℤ, ℕ, has_code,
}
use rithmic_nt_connect.Values.{
  Value, absent, Result, ok, err, Error, to_int, is_number_error, has_text, text_or_empty,
}
use rithmic_nt_connect.Values
use rithmic_nt_connect.Notice.{Fields, Side, order_side_from_notification}
use rithmic_nt_connect.Notice.Identity.{trade_id_from_fill_fields}
use rithmic_nt_connect.Core.Rates
use rithmic_nt_connect.Nautilus.{Cache, Library, Instrument, FillReport}
use rithmic_nt_connect.Client.State.{
  Host, Action, ◌>>=◌, ◌>>◌, pure, lift, asks, gets, given, seed_account_if_needed,
}
use rithmic_nt_connect.Client.Identity.{instrument_id_from_order_fields}

-- `text.rstrip(c)`
unfoldable pub strip_end : ℕ → String → String
strip_end x String.[] = ""
strip_end x (String.◌∷◌ c s) =
    let rest = strip_end x s in if rest == "" && eqb (code c) x then "" else String.◌∷◌ c rest

-- `format_price_str` after the fixed format: no trailing zeros, and one decimal at least
unfoldable pub trim_price_text : String → String
trim_price_text text =
    let short = strip_end b'.' (strip_end b'0' text) in
    if has_code b'.' short then short else short ++ ".0"

unfoldable pub is_absent : Value → Bool
is_absent absent = true
is_absent v = false

-- `if account_raw: self._seed_account_if_needed(str(account_raw))`
unfoldable pub seed_if : {Price : Type 0} → Option String → Action Price (Unit {0})
seed_if account = if has_text account then seed_account_if_needed account else pure tt

module _ {Price : Type 0} (nt : Library Price) where
  -- `price_from_wire(value, precision)`; a Nautilus precision is never negative
  unfoldable pub price_from_wire : Value → Option ℕ → Result Price
  price_from_wire v none =
      Values.◌>>=◌ (nt.fixed 8 v) (λ text. nt.price_from_str (trim_price_text text))
  price_from_wire v (some precision) = Values.◌>>=◌ (nt.fixed precision v) nt.price_from_str

  -- `_price_for_instrument`
  unfoldable pub price_for_instrument : Cache Price → String → Value → Result Price
  price_for_instrument c instrument_id v = elim (c.instrument instrument_id) [
    | some i ↦ i.make_price v
    | none ↦ price_from_wire v none
  ]

  unfoldable pub code_of : Option (Instrument Price) → Option String
  code_of none = none
  code_of (some i) = i.rithmic_product_code

  -- `product_code_for_fill`
  unfoldable pub product_code_for_fill : Cache Price → String → Option String → Option String
  product_code_for_fill c instrument_id symbol =
      if has_text (code_of (c.instrument instrument_id))
      then code_of (c.instrument instrument_id)
      else symbol

  -- the rate of `_commission_money`; the amount is the rate, or zero, times the quantity
  unfoldable pub commission_rate : Host Price → String → Option String → Option String
  commission_rate h instrument_id symbol =
      Rates.rate_for (product_code_for_fill h.cache instrument_id symbol) h.commissions

  -- quantity and price of a fill report, or `none` where one does not convert
  unfoldable pub priced_or_none : Result (ℤ × Price) → Result (Option (ℤ × Price))
  priced_or_none (ok p) = ok (some p)
  priced_or_none (err e) = if is_number_error e then ok none else err e

  unfoldable pub fill_terms : Cache Price → String → Fields → Result (ℤ × Price)
  fill_terms c instrument_id f = Values.◌>>=◌ (to_int f.fill_size) (λ n.
      Values.◌>>=◌ (nt.quantity_from_int n) (λ qty.
        Values.◌>>=◌ (price_for_instrument c instrument_id f.fill_price) (λ px. ok (qty, px))))

  unfoldable pub or_now : ℤ → ℤ → ℤ
  or_now ts now = if eqb_ℤ ts (pos 0) then now else ts

  unfoldable pub build_fill :
      Fields
      → ℤ
      → ℤ
      → String
      → String
      → Side
      → Option (ℤ × Price)
      → Host Price
      → Option (FillReport Price)
  build_fill f ts_event now account instrument_id side none h = none
  build_fill f ts_event now account instrument_id side (some (qty, px)) h = some (record {
    account_id = account;
    instrument_id = instrument_id;
    venue_order_id = text_or_empty f.basket_id;
    trade_id = trade_id_from_fill_fields nt.show_float f ts_event;
    order_side = side;
    last_qty = qty;
    last_px = px;
    commission_rate = commission_rate h instrument_id f.symbol;
    ts_event = or_now ts_event now;
    ts_init = now;
  })

  unfoldable pub with_account :
      Fields → ℤ → ℤ → String → Option String → Action Price (Option (FillReport Price))
  with_account f ts_event now instrument_id none = pure none
  with_account f ts_event now instrument_id (some account) = do
    side ← lift (order_side_from_notification f)
    if is_absent f.fill_price || is_absent f.fill_size
        then pure none
        else given side (pure none) λ s. do
          terms ← asks (λ h. priced_or_none (fill_terms h.cache instrument_id f))
          gets (build_fill f ts_event now account instrument_id s terms)

  -- `_fill_report_from_fields`
  unfoldable pub fill_report_from_fields : Fields → ℤ → ℤ → Action Price (Option (FillReport Price))
  fill_report_from_fields f ts_event now =
      given (instrument_id_from_order_fields nt f) (pure none) λ instrument_id.
        if has_text f.basket_id
        then (do
          seed_if f.account_id
          account ← gets (λ h. h.account_id)
          with_account f ts_event now instrument_id account)
        else pure none
