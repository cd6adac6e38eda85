-- ===== src/Exposure/Tests.antt =====
-- A stream with an unreadable row, one that is lost, and a drain with a row that has no basket.
use rithmic_nt_connect.Base.{
  true, false, none, some, List, [], ◌∷◌, ℤ, pos, negsuc, ◌≡◌, refl, lookup,
}
use rithmic_nt_connect.Values.{absent, int, ok, convert_error}
use rithmic_nt_connect.Notice.{Wire}
use rithmic_nt_connect.Core.ExposureRules.{matches_root}
use rithmic_nt_connect.Convert.{require, require_value}
use rithmic_nt_connect.Notice.Normalize.{order_notification_to_fields}
use rithmic_nt_connect.Convert.Pnl.{InstrumentPnl, instrument_pnl_to_fields}
use rithmic_nt_connect.Fixtures.{library, host_with, empty_cache, wire}
use rithmic_nt_connect.Exposure.{no_pnl, hides, exposure_snapshot, complete}
use rithmic_nt_connect.Exposure.Feed.{
  Money, Client, instrument_pnl, cache_position, unreadable_symbol,
}
use rithmic_nt_connect.Exposure.Request.{request_exposure, of_root}
use rithmic_nt_connect.Exposure.Counts.{unread_row_is_never_complete}
use rithmic_nt_connect.Exposure.Unknown.{
  PnlStep, delivers, loses_stream, gaps, after_all, none_left, and_then, a_loss, a_gap,
  unreadable_row_hides_root,
}
use rithmic_nt_connect.Exposure.Rows.{counted, streamed}
use rithmic_nt_connect.Exposure.Stream.{counted_rows_are_current}

-- balances are whole numbers here
abbrev money : Money ℤ
money = record {
  read = λ v. ok (pos 7);
  finite = λ d. true;
  same = λ a b. false;
  zero = pos 0;
  currency = λ s. ok s;
}

abbrev client : Client ℤ ℤ
client = record { host = host_with empty_cache; pnl = no_pnl; last_key = none; states = [] }

abbrev row : InstrumentPnl
row = record {
  symbol = some "NQZ6";
  exchange = some "CME";
  account_id = some "ACC";
  net_quantity = int (negsuc 1);
  avg_open_fill_price = absent;
  open_position_pnl = absent;
  closed_position_pnl = absent;
  is_snapshot = absent;
}

abbrev broken : InstrumentPnl
broken = record row { net_quantity = absent }

abbrev elsewhere_steps : List PnlStep
elsewhere_steps = loses_stream ∷ gaps ∷ []

unreadable_row_hides_root_example :
    ((exposure_snapshot "NQ"
        (some (pos 0))
        (some (pos 9))
        true
        (pos 9)
        (after_all money elsewhere_steps (cache_position money broken (pos 5) client)).pnl).net
      ≡ none)
    × (complete (
          exposure_snapshot "NQ"
            (some (pos 0))
            (some (pos 9))
            true
            (pos 9)
            (after_all money elsewhere_steps (cache_position money broken (pos 5) client)).pnl)
        ≡ false)
unfolding instrument_pnl_to_fields hides unreadable_symbol require require_value matches_root
unreadable_row_hides_root_example =
    unreadable_row_hides_root money "NQ" broken convert_error (pos 5) elsewhere_steps client refl
      refl (and_then (a_loss refl) (and_then a_gap none_left)) (some (pos 0)) (some (pos 9)) true
      (pos 9)

-- the second row was polled before the stream was lost
abbrev lossy : List PnlStep
lossy =
    delivers 0 (instrument_pnl row) (pos 5)
    ∷ loses_stream
    ∷ delivers 0 (instrument_pnl row) (pos 6)
    ∷ []

counted_rows_are_current_example :
    lookup "NQZ6-CME.RITHMIC"
      (counted (after_all money lossy client).pnl.live_since_ns (after_all money lossy client).pnl)
    ≡ lookup "NQZ6-CME.RITHMIC" (streamed lossy (record { epoch = 0; rows = [] })).rows
counted_rows_are_current_example =
    counted_rows_are_current money "NQZ6-CME.RITHMIC" lossy client refl (refl, (refl, tt))

abbrev no_basket : Wire
no_basket = record wire { basket_id = none }

unread_row_is_never_complete_example :
    ((request_exposure library money "NQ" (pos 9) (ok (wire ∷ no_basket ∷ [])) client).0.open_orders
      ≡ none)
    × (complete (request_exposure library money "NQ" (pos 9) (ok (wire ∷ no_basket ∷ [])) client).0
        ≡ false)
unfolding of_root matches_root order_notification_to_fields
unread_row_is_never_complete_example =
    unread_row_is_never_complete library money "NQ" (wire ∷ no_basket ∷ []) (pos 9) client refl
