-- ===== src/Convert/Tests.antt =====
-- Two messages of a quote, a small book and a short position.
use rithmic_nt_connect.Base.{none, some, [], ◌∷◌, ℤ, pos, negsuc, ◌≡◌, refl, arith}
use rithmic_nt_connect.Values.{absent, int, Float, finite, ok, to_int}
use rithmic_nt_connect.Core.ExposureRules.{row_net}
use rithmic_nt_connect.Notice.Normalize.{ts_ns, instrument_id_from_symbol}
use rithmic_nt_connect.Convert.{Floats, require, require_value, to_float, to_float_or_zero}
use rithmic_nt_connect.Convert.Quote.{BboEvent, quote_of, bbo_to_fields}
use rithmic_nt_connect.Convert.Latest.{
  Update, Reads, no_price, a_price, start, next, latest_state, accumulated, bbo_refines_latest,
}
use rithmic_nt_connect.Convert.Book.{
  BookEvent, snapshot, bid, ask, column, required_ts, book_levels, check, is_missing, levels_from,
  update_kind, to_i32, known_kind, book_update_kind, kind_of_number, values, BookFields,
  order_book_to_fields,
}
use rithmic_nt_connect.Convert.Levels.{Levels, book_order_ids_ascend}
use rithmic_nt_connect.Convert.Pnl.{
  InstrumentPnl, position_fields, side_and_qty, PositionFields, instrument_pnl_to_fields,
  exposure_row, net_quantity_round_trip,
}

abbrev floats : Floats
floats = record { parse = λ s. none; of_int = λ n. ok (finite n 0) }

abbrev whole : ℤ → Float
whole n = finite n 0

abbrev bid_message : BboEvent
bid_message = record {
  symbol = some "NQ";
  exchange = some "CME";
  bid_price = int (pos 100);
  bid_size = int (pos 3);
  ask_price = absent;
  ask_size = absent;
  ts_event_ns = int (pos 5);
  ssboe = absent;
  usecs = absent;
}

abbrev ask_message : BboEvent
ask_message = record bid_message {
  bid_price = absent;
  bid_size = absent;
  ask_price = int (pos 101);
  ask_size = int (pos 2);
  ts_event_ns = int (pos 6);
}

abbrev bid_update : Update
bid_update = record {
  symbol = "NQ";
  exchange = some "CME";
  time = some (pos 5);
  bid = some (whole (pos 100), whole (pos 3));
  ask = none;
}

abbrev ask_update : Update
ask_update = record {
  symbol = "NQ";
  exchange = some "CME";
  time = some (pos 6);
  bid = none;
  ask = some (whole (pos 101), whole (pos 2));
}

bid_message-Reads : Reads floats bid_message bid_update
unfolding ts_ns to_float to_float_or_zero
bid_message-Reads = record {
  symbol = refl;
  exchange = refl;
  time = refl;
  bid = a_price refl refl;
  ask = no_price;
}

ask_message-Reads : Reads floats ask_message ask_update
unfolding ts_ns to_float to_float_or_zero
ask_message-Reads = record {
  symbol = refl;
  exchange = refl;
  time = refl;
  bid = no_price;
  ask = a_price refl refl;
}

bbo_refines_latest_example :
    bbo_to_fields floats ask_message (accumulated floats (bid_message ∷ [])) ≡ (
      quote_of (latest_state (ask_update ∷ bid_update ∷ [])),
      latest_state (ask_update ∷ bid_update ∷ []),
    )
bbo_refines_latest_example =
    bbo_refines_latest floats ask_message ask_update (bid_message ∷ []) (bid_update ∷ [])
      ask_message-Reads (next bid_message-Reads start)

abbrev book : BookEvent
book = record {
  symbol = some "NQ";
  exchange = some "CME";
  bid_price = values (int (pos 100) ∷ int (pos 99) ∷ []);
  bid_size = values (int (pos 3) ∷ int (pos 4) ∷ []);
  ask_price = values (int (pos 101) ∷ []);
  ask_size = values (int (pos 2) ∷ []);
  update_type = int (pos 3);
  ts_event_ns = absent;
  ssboe = absent;
  usecs = absent;
}

abbrev short : InstrumentPnl
short = record {
  symbol = some "NQ";
  exchange = some "CME";
  account_id = some "ACC";
  net_quantity = int (negsuc 1);
  avg_open_fill_price = absent;
  open_position_pnl = absent;
  closed_position_pnl = absent;
  is_snapshot = absent;
}

abbrev short_fields : PositionFields
short_fields = record {
  account_id = some "ACC";
  instrument_id = "NQ-CME.RITHMIC";
  symbol = "NQ";
  exchange = some "CME";
  position_side = "SHORT";
  quantity = pos 2;
  avg_px_open = absent;
  open_position_pnl = absent;
  closed_position_pnl = absent;
  is_snapshot = absent;
}

net_quantity_round_trip_example : to_int (int (negsuc 1)) ≡ ok (row_net (exposure_row short_fields))
unfolding instrument_pnl_to_fields require require_value to_int instrument_id_from_symbol
    position_fields side_and_qty
net_quantity_round_trip_example = net_quantity_round_trip short short_fields refl

abbrev book_fields : BookFields
book_fields = record {
  instrument_id = "NQ-CME.RITHMIC";
  symbol = "NQ";
  exchange = some "CME";
  update_kind = snapshot;
  levels =
      record { side = bid; price = whole (pos 100); size = whole (pos 3); order_id = 1 }
      ∷ record { side = bid; price = whole (pos 99); size = whole (pos 4); order_id = 2 }
      ∷ record { side = ask; price = whole (pos 101); size = whole (pos 2); order_id = 1_000_001 }
      ∷ [];
  ts_event = pos 8;
}

book_order_ids_ascend_example : Levels floats book book_fields.levels
unfolding order_book_to_fields column require ts_ns required_ts book_levels check is_missing
    levels_from require_value to_float update_kind to_i32 known_kind book_update_kind kind_of_number
    instrument_id_from_symbol
book_order_ids_ascend_example =
    book_order_ids_ascend floats book (some (pos 8)) book_fields (omega arith) refl
