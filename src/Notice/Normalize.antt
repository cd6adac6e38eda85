-- ===== src/Notice/Normalize.antt =====
-- `order_notification_to_fields`: the one boundary at which a wire row is normalized.
use rithmic_nt_connect.Base.{String, Bool, true, false, ◌||◌, Option, none, some, ◌==◌, ℤ, ◌≡◌}
use rithmic_nt_connect.Values.{
  Value, absent, Float, Result, ok, err, ◌>>=◌, ◌>>◌, convert_error, to_int, to_int_or_zero,
  enum_int, sentinel_none, has_text, text_or_empty,
}
use rithmic_nt_connect.Values.Binds.{bind-ok}
use rithmic_nt_connect.Core.Notify
use rithmic_nt_connect.Core.Ident
use rithmic_nt_connect.Notice.{Wire, Fields}

abbrev pub venue : String
venue = "RITHMIC"

guard : Bool → Result (Unit {0})
guard true = ok tt
guard false = err convert_error

-- `kind_from_notify` of _orders.py: an absent status or text is passed as `""`
unfoldable pub kind_from_notify : String → String → Option String → Option String → Option String
unfolding Notify.kind_from_notify
kind_from_notify source notify_type_name status text =
    Notify.kind_from_notify source notify_type_name (text_or_empty status) (text_or_empty text)

-- `_convert._opt_int`
opt_int : Value → Result (Option ℤ)
unfolding to_int
opt_int absent = ok none
opt_int v = do n ← to_int v; ok (some n)

-- `_convert._ts_ns`
unfoldable pub ts_ns : Value → Value → Value → Result (Option ℤ)
unfolding opt_int to_int_or_zero Ident.event_ts_ns
ts_ns absent ssboe usecs = do
  s ← opt_int ssboe
  u ← to_int_or_zero usecs
  ok (Ident.event_ts_ns none s u)
ts_ns ts ssboe usecs = do n ← to_int ts; ok (some n)

-- `_convert.instrument_id_from_symbol`
unfoldable pub instrument_id_from_symbol : String → Option String → Result String
unfolding Ident.instrument_id
instrument_id_from_symbol symbol exchange = Ident.instrument_id symbol exchange venue

type_ok : Option String → Bool
type_ok none = true
type_ok (some t) = t == "order_notification"

source_ok : Option String → Bool
source_ok none = false
source_ok (some s) = s == "rithmic" || s == "exchange"

notified_kind : Wire → String → Option String
unfolding kind_from_notify
notified_kind d source = elim d.kind [
  | some k ↦ some k
  | none ↦ elim d.notify_type_name [
    | none ↦ none
    | some name ↦ kind_from_notify source name d.status d.text
  ]
]

module _ (parse_float : String → Option Float) where
  normalized : Wire → String → String → Option ℤ → String → Fields
  unfolding notified_kind enum_int sentinel_none
  normalized d source symbol ts instrument_id = record {
    source = source;
    kind = notified_kind d source;
    notify_type = d.notify_type;
    notify_type_name = d.notify_type_name;
    status = d.status;
    basket_id = d.basket_id;
    exchange_order_id = d.exchange_order_id;
    user_tag = d.user_tag;
    account_id = d.account_id;
    symbol = some symbol;
    exchange = d.exchange;
    instrument_id = some instrument_id;
    quantity = d.quantity;
    total_fill_size = d.total_fill_size;
    total_unfilled_size = d.total_unfilled_size;
    fill_size = d.fill_size;
    price = sentinel_none parse_float d.price;
    trigger_price = sentinel_none parse_float d.trigger_price;
    avg_fill_price = sentinel_none parse_float d.avg_fill_price;
    fill_price = sentinel_none parse_float d.fill_price;
    transaction_type = d.transaction_type;
    price_type = enum_int d.price_type;
    duration = enum_int d.duration;
    fill_id = d.fill_id;
    text = d.text;
    report_text = d.report_text;
    completion_reason = d.completion_reason;
    ssboe = d.ssboe;
    usecs = d.usecs;
    ts_event = ts;
    is_snapshot = d.is_snapshot;
  }

  unfoldable pub order_notification_to_fields : Wire → Result Fields
  unfolding guard type_ok source_ok normalized ts_ns instrument_id_from_symbol
  order_notification_to_fields d = do
    guard (type_ok d.type)
    guard (source_ok d.source)
    guard (has_text d.symbol)
    ts ← ts_ns d.ts_event_ns d.ssboe d.usecs
    instrument_id ← instrument_id_from_symbol (text_or_empty d.symbol) d.exchange
    ok (normalized d (text_or_empty d.source) (text_or_empty d.symbol) ts instrument_id)

  -- The symbol of a row is the wire's.
  pub order_notification_to_fields-symbol :
      (d : Wire) (f : Fields)
      → order_notification_to_fields d ≡ ok f
      → text_or_empty f.symbol ≡ text_or_empty d.symbol
  unfolding order_notification_to_fields normalized
  order_notification_to_fields-symbol d f e =
      let (u, (p, e1)) = bind-ok (guard (type_ok d.type)) _ f e in
      let (v, (q, e2)) = bind-ok (guard (source_ok d.source)) _ f e1 in
      let (w, (r, e3)) = bind-ok (guard (has_text d.symbol)) _ f e2 in
      let (ts, (t, e4)) = bind-ok (ts_ns d.ts_event_ns d.ssboe d.usecs) _ f e3 in
      let (id, (i, e5)) =
        bind-ok (instrument_id_from_symbol (text_or_empty d.symbol) d.exchange) _ f e4 in
      symbol_of _ f e5
    where
      symbol_of :
          (a b : Fields)
          → ◌≡◌ {A = Result Fields} (ok a) (ok b)
          → text_or_empty b.symbol ≡ text_or_empty a.symbol
      symbol_of a b e = cc
