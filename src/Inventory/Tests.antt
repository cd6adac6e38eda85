-- ===== src/Inventory/Tests.antt =====
-- A filled order with later rows, and a contract without a net.
use rithmic_nt_connect.TextSets.{add_text}
use rithmic_nt_connect.Base.{
  String, false, Option, none, some, [], ◌∷◌, pos, ◌≡◌, refl, lookup, strip,
}
use rithmic_nt_connect.Values.{absent, int, Float}
use rithmic_nt_connect.Notice.{Wire, Fields}
use rithmic_nt_connect.Convert.Pnl.{InstrumentPnl}
use rithmic_nt_connect.Fixtures.{wire, fill}
use rithmic_nt_connect.Notice.Normalize.{order_notification_to_fields}
use rithmic_nt_connect.Core.InventoryRules.{position_change, order_is_gone}
use rithmic_nt_connect.OrderRows.{order_status_from_fields}
use rithmic_nt_connect.Inventory.{
  Inventory, empty_inventory, as_int, is_gone, pnl_live, position_key, status_class, ingest_order,
  known_basket, gone_row, gone_or_working, finished, ingest_position, mark_observed, changed,
  text_or,
}
use rithmic_nt_connect.Inventory.Events.{
  order_event, account_pnl, ingest_all, is_order_row, ingest, pnl_row, until_or,
}
use rithmic_nt_connect.Inventory.Finished.{finished_basket_stays_gone}
use rithmic_nt_connect.Inventory.Unknown.{
  no_more, then_all, an_account, unread_position_is_not_live,
}

abbrev no_floats : String → Option Float
no_floats s = none

abbrev float_text : Float → String
float_text f = "1.0"

-- the whole order is filled
abbrev filled : Wire
filled = record wire {
  kind = some "filled";
  status = some "complete";
  notify_type_name = some "FILL";
  total_fill_size = int (pos 1);
  total_unfilled_size = int (pos 0);
}

abbrev after_fill : Inventory
after_fill = record empty_inventory { done_baskets = "b1" ∷ [] }

abbrev filled_fields : Fields
filled_fields = record fill {
  source = "exchange";
  instrument_id = some "NQZ6-CME.RITHMIC";
  symbol = some "NQZ6";
  avg_fill_price = absent;
  fill_price = absent;
  fill_size = absent;
  fill_id = none;
}

finished_basket_stays_gone_example : lookup (strip "b1") after_fill.orders ≡ none
unfolding as_int ingest_all is_order_row order_notification_to_fields is_gone
    order_status_from_fields order_is_gone status_class ingest ingest_order known_basket gone_row
    gone_or_working finished add_text
finished_basket_stays_gone_example =
    finished_basket_stays_gone no_floats float_text filled filled_fields (some (pos 0)) 5
      empty_inventory after_fill ((order_event wire, 6) ∷ []) refl refl refl refl refl refl

abbrev no_net : InstrumentPnl
no_net = record {
  symbol = some "NQZ6";
  exchange = some "CME";
  account_id = some "ACC";
  net_quantity = absent;
  avg_open_fill_price = absent;
  open_position_pnl = absent;
  closed_position_pnl = absent;
  is_snapshot = absent;
}

abbrev unknown_net : Inventory
unknown_net = record empty_inventory {
  pnl_events = 2;
  pnl_first = some 5;
  observed_until = some 9;
  unknown_positions = "NQZ6.CME" ∷ [];
}

unread_position_is_not_live_example :
    (pnl_live 3 unknown_net ≡ false)
    × (lookup (position_key no_floats float_text no_net) unknown_net.positions ≡ none)
unfolding as_int ingest_all ingest ingest_position pnl_row mark_observed changed until_or
    position_change add_text position_key text_or
unread_position_is_not_live_example =
    unread_position_is_not_live no_floats float_text no_net 5 3 empty_inventory unknown_net
      ((account_pnl, 9) ∷ []) refl refl (then_all an_account no_more) refl
