-- ===== src/Fixtures.antt =====
-- Example values for the tests: a library over integer prices, a client and a fill.
use rithmic_nt_connect.Base.{true, false, none, some, [], ℤ, pos}
use rithmic_nt_connect.Values.{Value, absent, ok, finite}
use rithmic_nt_connect.Core.Plant.{PlantState}
use rithmic_nt_connect.Notice.{Wire, Fields, buy}
use rithmic_nt_connect.OrderRows.{OrderType, TimeInForce, OrderStatus, TriggerType}
use rithmic_nt_connect.Nautilus.{Library, Cache, Order, OrderStatusReport}
use rithmic_nt_connect.Client.State.{Host}
use rithmic_nt_connect.Recon.Rows.{DrainRowResult}

-- a library whose texts and conversions are constant
abbrev pub library : Library ℤ
library = record {
  quantity_from_int = λ n. ok n;
  price_from_str = λ s. ok (pos 100);
  instrument_id_reads = λ s. true;
  add_venue_order_id = λ c cid vid. c;
  send_fails = λ r. false;
  show_price = λ p. "100.0";
  fixed = λ n v. ok "100";
  precision = λ p. 2;
  show_float = λ x. "100.0";
  parse_float = λ s. none;
  price_float = λ p. finite p 0;
}

abbrev pub closed_order : Order ℤ
closed_order = record {
  client_order_id = "O-1";
  strategy_id = "S-1";
  instrument_id = "NQ.CME";
  venue_order_id = some "b1";
  side = buy;
  order_type = OrderType.limit;
  time_in_force = TimeInForce.day;
  status = OrderStatus.filled;
  is_closed = true;
  quantity = pos 1;
  filled_qty = pos 1;
  leaves_qty = some (pos 0);
  price = some (pos 100);
  trigger_price = none;
  trigger_type = TriggerType.no_trigger;
  ts_accepted = pos 1;
  ts_last = pos 9;
  parent_order_id = none;
  linked_order_ids = [];
  trailing_offset_type = none;
  trailing_offset = absent;
}

abbrev pub open_order : Order ℤ
open_order = record closed_order {
  is_closed = false;
  status = OrderStatus.accepted;
  leaves_qty = some (pos 1);
}

abbrev pub empty_cache : Cache ℤ
empty_cache = record {
  order = λ s. none;
  client_order_id = λ s. none;
  venue_order_id = λ s. none;
  instrument = λ s. none;
}

-- a cache that knows one order, under every id
abbrev pub cache_of : Order ℤ → Cache ℤ
cache_of o = record {
  order = λ s. some o;
  client_order_id = λ s. some "O-1";
  venue_order_id = λ s. some "b1";
  instrument = λ s. none;
}

abbrev pub host_with : Cache ℤ → Host ℤ
host_with c = record {
  enable_trading = true;
  gateway_trading = true;
  account_id = some "ACC";
  account_seeded = true;
  resolved_account_raw = none;
  config_account_id = none;
  order_plant = record { core = PlantState.live };
  seen_fill_keys = record { entries = []; by_recency = []; clock = 0; max_size = 10000 };
  untracked_status_keys = record { entries = []; by_recency = []; clock = 0; max_size = 10000 };
  commissions = record { rates = []; default = none };
  cache = c;
  emitted = [];
}

abbrev pub fill : Fields
fill = record {
  source = "exchange";
  kind = some "filled";
  notify_type = absent;
  notify_type_name = some "FILL";
  status = some "complete";
  basket_id = some "b1";
  exchange_order_id = some "x1";
  user_tag = some "O-1";
  account_id = some "ACC";
  symbol = some "NQ";
  exchange = some "CME";
  instrument_id = some "NQ.CME";
  quantity = Value.int (pos 1);
  total_fill_size = Value.int (pos 1);
  total_unfilled_size = Value.int (pos 0);
  fill_size = Value.int (pos 1);
  price = Value.int (pos 100);
  trigger_price = absent;
  avg_fill_price = Value.int (pos 100);
  fill_price = Value.int (pos 100);
  transaction_type = Value.int (pos 1);
  price_type = some (pos 1);
  duration = some (pos 1);
  fill_id = some "f1";
  text = none;
  report_text = none;
  completion_reason = none;
  ssboe = absent;
  usecs = absent;
  ts_event = some (pos 5);
  is_snapshot = absent;
}

abbrev pub report : OrderStatusReport ℤ
report = record {
  account_id = "ACC";
  instrument_id = "NQ.CME";
  venue_order_id = "b1";
  order_side = buy;
  order_type = OrderType.limit;
  time_in_force = TimeInForce.day;
  order_status = OrderStatus.accepted;
  quantity = pos 1;
  filled_qty = pos 0;
  ts_accepted = pos 5;
  ts_last = pos 5;
  ts_init = pos 7;
  client_order_id = some "O-1";
  price = some (pos 100);
  trigger_price = none;
  trigger_type = TriggerType.no_trigger;
  avg_px = absent;
}

abbrev pub row : DrainRowResult ℤ
row = record { fields = fill; ts_event = pos 5; report = some report; bindable = true }

-- a wire row of a working order
abbrev pub wire : Wire
wire = record {
  type = some "order_notification";
  source = some "exchange";
  kind = some "accepted";
  notify_type = absent;
  notify_type_name = some "STATUS";
  status = some "open";
  basket_id = some "b1";
  exchange_order_id = some "x1";
  user_tag = some "O-1";
  account_id = some "ACC";
  symbol = some "NQZ6";
  exchange = some "CME";
  quantity = Value.int (pos 1);
  total_fill_size = Value.int (pos 0);
  total_unfilled_size = Value.int (pos 1);
  fill_size = absent;
  price = Value.int (pos 100);
  trigger_price = absent;
  avg_fill_price = absent;
  fill_price = absent;
  transaction_type = Value.int (pos 1);
  price_type = Value.int (pos 1);
  duration = Value.int (pos 1);
  fill_id = none;
  text = none;
  report_text = none;
  completion_reason = none;
  ssboe = absent;
  usecs = absent;
  ts_event_ns = Value.int (pos 5);
  is_snapshot = absent;
}
