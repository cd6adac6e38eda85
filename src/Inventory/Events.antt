-- ===== src/Inventory/Events.antt =====
-- inventory.py: `Inventory.ingest`, the poll rounds and the snapshot.
use rithmic_nt_connect.Base.{
  ℕ, ◌+◌, max, String, Bool, ◌&&◌, ◌||◌, Option, none, some, List, [], ◌∷◌, if◌then◌else◌, eqb,
  ◌==◌, or_else,
}
use rithmic_nt_connect.Values.{Float, Result, ok, ◌>>=◌, ◌>>◌, has_text, text_or_empty}
use rithmic_nt_connect.Notice.{Wire}
use rithmic_nt_connect.Convert.Pnl.{InstrumentPnl}
use rithmic_nt_connect.Inventory.{
  Inventory, empty_inventory, mark_observed, ingest_order, ingest_position,
}

-- An event with the keys of an order row, or of the PnL stream.
pub data InventoryEvent : Type 0 where
  order_event : Wire → InventoryEvent
  account_pnl : InventoryEvent
  instrument_pnl : InstrumentPnl → InventoryEvent

unfoldable pub from_order_stream : Wire → Bool
from_order_stream d =
    text_or_empty d.type == "order_notification"
    && (text_or_empty d.source == "rithmic" || text_or_empty d.source == "exchange")

unfoldable pub is_order_row : Wire → Bool
is_order_row d =
    (text_or_empty d.type == "" || text_or_empty d.type == "order_notification")
    && (has_text d.basket_id || from_order_stream d)

-- `self._observed_until_s or now`
unfoldable pub until_or : ℕ → Option ℕ → ℕ
until_or now none = now
until_or now (some t) = if eqb t 0 then now else t

unfoldable pub pnl_row : ℕ → Inventory → Inventory
pnl_row now inv =
    mark_observed (max now (until_or now inv.observed_until))
      (record inv { pnl_events = inv.pnl_events + 1; pnl_first = or_else inv.pnl_first (some now) })

module _ (parse_float : String → Option Float) (show_float : Float → String) where
  -- `Inventory.ingest`
  unfoldable pub ingest : InventoryEvent → ℕ → Inventory → Result Inventory
  ingest (order_event d) now inv =
      let row = ingest_order parse_float show_float d inv in if is_order_row d then row else ok inv
  ingest account_pnl now inv = ok (pnl_row now inv)
  ingest (instrument_pnl d) now inv = ingest_position parse_float show_float d (pnl_row now inv)

  -- A caller ends at the first exception.
  unfoldable pub ingest_all : List (InventoryEvent × ℕ) → Inventory → Result Inventory
  ingest_all [] inv = ok inv
  ingest_all ((e, now) ∷ events) inv = do next ← ingest e now inv; ingest_all events next

  -- One round of the poll loop: what each stream had, when, and the time after it.
  pub record Round : Type 0 where
    pub order : Option (InventoryEvent × ℕ)
    pub pnl : Option (InventoryEvent × ℕ)
    pub observed_at : ℕ

  unfoldable pub ingest_if : Option (InventoryEvent × ℕ) → ℕ × Inventory → Result (ℕ × Inventory)
  ingest_if none s = ok s
  ingest_if (some (e, now)) (seen, inv) = do next ← ingest e now inv; ok (seen + 1, next)

  unfoldable pub poll_round : Round → ℕ × Inventory → Result (ℕ × Inventory)
  poll_round r s = do
    a ← ingest_if r.order s
    b ← ingest_if r.pnl a
    ok (b.0, mark_observed r.observed_at b.1)

  -- `poll_into`, over the rounds that fit before its deadline: the count of events, the inventory
  unfoldable pub poll_into : List Round → ℕ × Inventory → Result (ℕ × Inventory)
  poll_into [] s = ok s
  poll_into (r ∷ rounds) s = do next ← poll_round r s; poll_into rounds next

  -- `venue_inventory_snapshot`, with what the session's calls answer
  unfoldable pub venue_inventory_snapshot :
      Result (Unit {0})
      → Result (List (InventoryEvent × ℕ))
      → Result (Unit {0})
      → List Round
      → Result Inventory
  venue_inventory_snapshot orders_subscribed loaded pnl_subscribed rounds = do
    orders_subscribed
    events ← loaded
    inv ← ingest_all events empty_inventory
    pnl_subscribed
    polled ← poll_into rounds (0, inv)
    ok polled.1
