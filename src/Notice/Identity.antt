-- ===== src/Notice/Identity.antt =====
-- The identity of a fill: its trade id and its key in the dedup store (_orders.py).
use rithmic_nt_connect.Base.{String, Option, none, some, ◌==◌, if◌then◌else◌, ℤ, pos}
use rithmic_nt_connect.Values.{Float, show_value, text_or_empty}
use rithmic_nt_connect.Core.Fills
use rithmic_nt_connect.Core.Fills.{FillParts}
use rithmic_nt_connect.Notice.{Fields}

-- `fill_identity_ts`: the venue's own time, 0 when it sent none
unfoldable pub fill_identity_ts : Fields → ℤ
fill_identity_ts f = elim f.ts_event [ none ↦ pos 0 | some n ↦ n ]

nonempty : Option String → Option String
nonempty none = none
nonempty (some s) = if s == "" then none else some s

module _ (show_float : Float → String) where
  unfoldable pub fill_parts : Fields → FillParts
  unfolding nonempty show_value
  fill_parts f = record {
    fill_id = nonempty f.fill_id;
    basket_id = text_or_empty f.basket_id;
    exchange_order_id = text_or_empty f.exchange_order_id;
    fill_size = show_value show_float f.fill_size;
    fill_price = show_value show_float f.fill_price;
  }

  unfoldable pub trade_id_from_fill_fields : Fields → ℤ → String
  unfolding fill_parts Fills.trade_id
  trade_id_from_fill_fields f ts_event = Fills.trade_id (fill_parts f) ts_event

  unfoldable pub fill_dedup_key : Fields → ℤ → String
  unfolding fill_parts Fills.dedup_key
  fill_dedup_key f ts_event =
      Fills.dedup_key (text_or_empty f.account_id) (text_or_empty f.instrument_id) (fill_parts f)
        ts_event
