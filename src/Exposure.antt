-- ===== src/Exposure.antt =====
-- execution.py and exposure.py: what the client knows of the venue's positions, and the snapshot
-- of one product root. Times are nanoseconds of the client's clock.
pub mod Feed
pub mod Request
pub mod Counts
pub mod Unknown
pub mod Rows
pub mod Stream
pub mod Tests
use rithmic_nt_connect.Base.{
  ℕ, ◌+◌, String, Bool, true, false, not, ◌&&◌, ◌||◌, Option, none, some, List, [], ◌∷◌, ◌++◌,
  if◌then◌else◌, ℤ, pos, leb_ℤ, ◌==◌, any, select, map, lookup, insert, mem_text, is_some, strip,
  upper_string,
}
use rithmic_nt_connect.TextSets.{discard}
use rithmic_nt_connect.Core.ExposureRules
use rithmic_nt_connect.Core.ExposureRules.{matches_root, signed_net, exposure_complete}
use rithmic_nt_connect.Convert.Pnl.{PositionFields, exposure_row}
use rithmic_nt_connect.Values.{Result, ok, err}

-- the marker of an unreadable row without a symbol
abbrev pub any_symbol : String
any_symbol = "*"

pub record ExposureSnapshot : Type 0 where
  pub root : String
  pub net : Option ℤ
  pub open_orders : Option ℤ
  pub pnl_ts_ns : Option ℤ
  pub drain_ts_ns : Option ℤ
  pub ts_init : ℤ
  pub reply : Bool

unfoldable pub complete : ExposureSnapshot → Bool
complete s = exposure_complete s.net s.open_orders s.pnl_ts_ns s.drain_ts_ns

-- The client's PnL state. `observed` is the event that a re-arm waits for.
pub record Pnl : Type 0 where
  pub live_since_ns : Option ℤ
  pub epoch : ℕ
  pub observed : Bool
  pub positions : List (String × PositionFields)
  pub seen_ns : List (String × ℤ)
  pub unreadable : List String
  pub published : List ExposureSnapshot

abbrev pub no_pnl : Pnl
no_pnl = record {
  live_since_ns = none;
  epoch = 0;
  observed = false;
  positions = [];
  seen_ns = [];
  unreadable = [];
  published = [];
}

-- `_note_pnl_observed`
unfoldable pub note_pnl_observed : ℤ → Pnl → Pnl
note_pnl_observed now p = record p {
  live_since_ns = if is_some p.live_since_ns then p.live_since_ns else some now;
  observed = true;
}

-- `_forget_pnl_state`
unfoldable pub forget_pnl_state : Pnl → Pnl
forget_pnl_state p = record p {
  epoch = p.epoch + 1;
  observed = false;
  live_since_ns = none;
  positions = [];
  seen_ns = [];
  unreadable = [];
}

-- the state that `_resync_pnl_subscription` leaves, before its two calls of the session
unfoldable pub stream_lost : Pnl → Pnl
stream_lost p = record p {
  live_since_ns = none;
  epoch = p.epoch + 1;
  observed = false;
  unreadable = discard any_symbol p.unreadable;
}

-- `_resync_pnl_subscription`, with what `disconnect_pnl_plant` and `subscribe_pnl` answer
unfoldable pub resync_pnl_subscription :
    Result (Unit {0}) → Result (Unit {0}) → Pnl → Result (Unit {0}) × Pnl
resync_pnl_subscription (err e) subscribed p = (err e, stream_lost p)
resync_pnl_subscription (ok u) subscribed p = (subscribed, stream_lost p)

-- the part of `_recover_order_gap` that invalidates earlier observations
unfoldable pub gap_seen : Pnl → Pnl
gap_seen p = record p { epoch = p.epoch + 1; observed = false }

-- `self._position_seen_ns.get(key, 0)`
unfoldable pub seen_at : List (String × ℤ) → String → ℤ
seen_at seen key = elim (lookup key seen) [ none ↦ pos 0 | some t ↦ t ]

unfoldable pub rows_since :
    List (String × ℤ) → ℤ → List (String × PositionFields) → List (String × PositionFields)
rows_since seen live positions = select (λ row. leb_ℤ live (seen_at seen row.0)) positions

-- `_rows_seen_since`
unfoldable pub rows_seen_since : ℤ → Pnl → List (String × PositionFields)
rows_seen_since live p = rows_since p.seen_ns live p.positions

-- `_positions_known`
unfoldable pub positions_known : Pnl → Bool
positions_known p = is_some p.live_since_ns && not (mem_text any_symbol p.unreadable)

unfoldable pub hides : String → String → Bool
hides root symbol = symbol == any_symbol || matches_root symbol root

-- `_position_unreadable_for`
unfoldable pub position_unreadable_for : String → Pnl → Bool
position_unreadable_for root p = any (hides root) p.unreadable

-- the start of the stream, as a snapshot of one root may use it
unfoldable pub live_for : String → Pnl → Option ℤ
live_for root p = if position_unreadable_for root p then none else p.live_since_ns

unfoldable pub net_since : String → Pnl → Option ℤ → Option ℤ
net_since root p none = none
net_since root p (some live) =
    some (signed_net (map (λ row. exposure_row row.1) (rows_seen_since live p)) root)

-- `_exposure_snapshot`
unfoldable pub exposure_snapshot : String → Option ℤ → Option ℤ → Bool → ℤ → Pnl → ExposureSnapshot
exposure_snapshot root open_orders drain_ts reply now p = record {
  root = upper_string (strip root);
  net = net_since root p (live_for root p);
  open_orders = open_orders;
  pnl_ts_ns = live_for root p;
  drain_ts_ns = drain_ts;
  ts_init = now;
  reply = reply;
}

unfoldable pub publish : ExposureSnapshot → Pnl → Pnl
publish s p = record p { published = p.published ++ (s ∷ []) }
