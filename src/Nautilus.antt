-- ===== src/Nautilus.antt =====
-- What the adapter reads of Nautilus Trader: orders, the cache, reports and events as data. The
-- constructors that can refuse a value are fields of `Library`, a parameter of the client's code.
use rithmic_nt_connect.Base.{ℕ, String, Bool, Option, List, ℤ}
use rithmic_nt_connect.Values.{Value, Result, Float}
use rithmic_nt_connect.Notice.{Side}
use rithmic_nt_connect.OrderRows.{OrderType, OrderStatus, TimeInForce, TriggerType}

module _ (Price : Type 0) where
  pub record Order : Type 0 where
    pub client_order_id : String
    pub strategy_id : String
    pub instrument_id : String
    pub venue_order_id : Option String
    pub side : Side
    pub order_type : OrderType
    pub time_in_force : TimeInForce
    pub status : OrderStatus
    pub is_closed : Bool
    pub quantity : ℤ
    pub filled_qty : ℤ
    pub leaves_qty : Option ℤ
    pub price : Option Price
    pub trigger_price : Option Price
    pub trigger_type : TriggerType
    pub ts_accepted : ℤ
    pub ts_last : ℤ
    pub parent_order_id : Option String
    pub linked_order_ids : List String
    pub trailing_offset_type : Option String
    pub trailing_offset : Value

  pub record Instrument : Type 0 where
    pub make_price : Value → Result Price
    pub rithmic_product_code : Option String
    pub rithmic_symbol : Option String
    pub rithmic_exchange : Option String
    pub price_increment : Float

  -- The look-ups of the cache at one time.
  pub record Cache : Type 0 where
    pub order : String → Option Order
    pub client_order_id : String → Option String
    pub venue_order_id : String → Option String
    pub instrument : String → Option Instrument

  pub record OrderStatusReport : Type 0 where
    pub account_id : String
    pub instrument_id : String
    pub venue_order_id : String
    pub order_side : Side
    pub order_type : OrderType
    pub time_in_force : TimeInForce
    pub order_status : OrderStatus
    pub quantity : ℤ
    pub filled_qty : ℤ
    pub ts_accepted : ℤ
    pub ts_last : ℤ
    pub ts_init : ℤ
    pub client_order_id : Option String
    pub price : Option Price
    pub trigger_price : Option Price
    pub trigger_type : TriggerType
    pub avg_px : Value

  -- The commission is a rate, if there is one, times a quantity.
  pub record FillReport : Type 0 where
    pub account_id : String
    pub instrument_id : String
    pub venue_order_id : String
    pub trade_id : String
    pub order_side : Side
    pub last_qty : ℤ
    pub last_px : Price
    pub commission_rate : Option String
    pub ts_event : ℤ
    pub ts_init : ℤ

  -- What the session is asked to send to the venue; a price goes as `float(price)`.
  pub data Request : Type 0 where
    place_order :
        (symbol exchange side price_type : String) (qty : ℤ) (user_tag : String)
        (price trigger : Option Price) (duration : String)
        (trail_by_ticks trail_by_price_id : Option ℤ)
        → Request
    place_bracket_order :
        (symbol exchange side price_type : String) (qty : ℤ) (localid : String)
        (price trigger : Option Price) (duration : String) (stop_ticks target_ticks : ℤ)
        → Request
    modify_order :
        (basket symbol exchange : String) (qty : ℤ) (price_type : String)
        (price trigger : Option Price) (trail_by_ticks : Option ℤ)
        → Request
    cancel_order : (basket : String) → Request

  -- What goes out, to the engine or (`requested`) to the session, in order.
  pub data Event : Type 0 where
    submitted : (client_order_id : String) → ℤ → Event
    denied : (client_order_id reason : String) → ℤ → Event
    requested : Request → Event
    accepted : (client_order_id venue_order_id : String) → ℤ → Event
    rejected : (client_order_id reason : String) → ℤ → Event
    modify_rejected : (client_order_id venue_order_id reason : String) → ℤ → Event
    cancel_rejected : (client_order_id venue_order_id reason : String) → ℤ → Event
    updated :
        (client_order_id venue_order_id : String) → ℤ → Option Price → Option Price → ℤ → Event
    canceled : (client_order_id venue_order_id : String) → ℤ → Event
    triggered : (client_order_id venue_order_id : String) → ℤ → Event
    filled :
        (client_order_id venue_order_id trade_id : String) (quantity : ℤ) (price : Price)
        → Option String
        → ℤ
        → Event
    status_reported : OrderStatusReport → Event
    fill_reported : FillReport → Event
    account_seeded : String → Event

  -- `Quantity.from_int`, `Price.from_str`, `InstrumentId.from_str`, `add_venue_order_id`, whether
  -- the engine's endpoint raises on a status report, a price's text and precision, and Python's
  -- float texts: `fixed n v` is `f"{float(v):.{n}f}"`. `price_float` is
  -- `float(price)`.
  pub record Library : Type 0 where
    pub quantity_from_int : ℤ → Result ℤ
    pub price_from_str : String → Result Price
    pub instrument_id_reads : String → Bool
    pub add_venue_order_id : Cache → String → String → Cache
    pub send_fails : OrderStatusReport → Bool
    pub show_price : Price → String
    pub fixed : ℕ → Value → Result String
    pub precision : Price → ℕ
    pub show_float : Float → String
    pub parse_float : String → Option Float
    pub price_float : Price → Float
