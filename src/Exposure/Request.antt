-- ===== src/Exposure/Request.antt =====
-- execution.py: the answers that the client gives about exposure and positions.
use rithmic_nt_connect.Base.{
  ℕ, String, Bool, true, false, not, ◌&&◌, ◌||◌, Option, none, some, List, [], ◌∷◌, if◌then◌else◌,
  ℤ, pos, eqb, ◌==◌, length, select, map, mem_text, is_some, strip,
}
use rithmic_nt_connect.Values
use rithmic_nt_connect.Values.{
  Value, absent, Result, ok, err, Error, runtime_error, value_error, has_text, text_or_empty,
}
use rithmic_nt_connect.Core.ExposureRules.{matches_root}
use rithmic_nt_connect.Notice.{Wire}
use rithmic_nt_connect.Nautilus.{Library, Cache}
use rithmic_nt_connect.Client.State.{Action, ◌>>=◌, pure, raise, set_account}
use rithmic_nt_connect.Recon.Rows.{DrainRowResult, iter_drain_rows}
use rithmic_nt_connect.Recon.Reports.{latest_drain_rows, non_terminal}
use rithmic_nt_connect.Convert.Pnl.{PositionFields}
use rithmic_nt_connect.Exposure.{
  Pnl, ExposureSnapshot, exposure_snapshot, publish, rows_seen_since, positions_known,
}
use rithmic_nt_connect.Exposure.Feed.{Money, Client, seeded_key}

unfoldable pub of_root : String → Option String → Bool
of_root root symbol = matches_root (text_or_empty symbol) root

unfoldable pub root_rows : String → List Wire → ℕ
root_rows root events = length (select (λ raw. of_root root raw.symbol) events)

-- a set of the baskets, in order of their first appearance
unfoldable pub distinct : List String → List String
distinct [] = []
distinct (s ∷ rest) = s ∷ select (λ t. not (t == s)) (distinct rest)

module _ {Price : Type 0} where
  abbrev pub basket_of : DrainRowResult Price → String
  basket_of row = text_or_empty row.fields.basket_id

  unfoldable pub row_of : String → List (DrainRowResult Price) → Option (DrainRowResult Price)
  row_of basket [] = none
  row_of basket (row ∷ rows) = if basket_of row == basket then some row else row_of basket rows

  -- the basket's freshest row is working; a basket without one is a `KeyError`
  unfoldable pub count_working : List String → List (DrainRowResult Price) → Result ℕ
  count_working [] latest = ok 0
  count_working (basket ∷ baskets) latest =
      let rest = count_working baskets latest in
      elim (row_of basket latest) [
        | none ↦ err runtime_error
        | some row ↦ Values.◌>>=◌ rest λ n. ok (if non_terminal row.report then ℕ.suc n else n)
      ]

  abbrev pub row_if : String → DrainRowResult Price → Action Price (Option (DrainRowResult Price))
  row_if root row = pure (if of_root root row.fields.symbol then some row else none)

module _ {Price : Type 0} (nt : Library Price) where
  unfoldable pub count_usable :
      List Wire → ℤ → List (DrainRowResult Price) → Action Price (Option ℕ)
  count_usable events now usable = do
    latest ← latest_drain_rows nt events none now
    n ← (λ h. (count_working (distinct (map basket_of usable)) latest, h))
    pure (some n)

  unfoldable pub known_or_none :
      String → List Wire → ℤ → List (DrainRowResult Price) → Action Price (Option ℕ)
  known_or_none root events now usable =
      if eqb (length usable) (root_rows root events)
      then count_usable events now usable
      else pure none

  -- `_working_orders_for_root`
  unfoldable pub working_orders_for_root : List Wire → String → ℤ → Action Price (Option ℕ)
  working_orders_for_root events root now = do
    usable ← iter_drain_rows nt events now (row_if root)
    known_or_none root events now usable

-- the open orders and the drain's time, both absent when the drain or the count raised
abbrev pub Drained : Type 0
Drained = Option ℤ × Option ℤ

unfoldable pub as_int : Option ℕ → Option ℤ
as_int none = none
as_int (some n) = some (pos n)

unfoldable pub drained : ℤ → Result (Option ℕ) → Drained
drained now (err e) = (none, none)
drained now (ok n) = (as_int n, some now)

module _ {Price Decimal : Type 0} (nt : Library Price) (money : Money Decimal) where
  unfoldable pub counted_orders :
      String → ℤ → Result (List Wire) → Client Price Decimal → Drained × Client Price Decimal
  counted_orders root now (err e) c = ((none, none), c)
  counted_orders root now (ok events) c =
      let (r, h) = working_orders_for_root nt events root now c.host in
      (drained now r, record c { host = h; last_key = seeded_key money h c })

  -- `request_exposure`, with what `_load_orders_events` answers
  unfoldable pub request_exposure :
      String
      → ℤ
      → Result (List Wire)
      → Client Price Decimal
      → ExposureSnapshot × Client Price Decimal
  request_exposure root now loaded c =
      let (orders, d) = counted_orders root now loaded c in
      let snap = exposure_snapshot root orders.0 orders.1 true now d.pnl in
      (snap, record d { pnl = publish snap d.pnl })

pub data PositionSide : Type 0 where
  long short flat : PositionSide

pub record PositionStatusReport (Decimal : Type 0) : Type 0 where
  pub account_id : String
  pub instrument_id : String
  pub position_side : PositionSide
  pub quantity : ℤ
  pub avg_px_open : Option Decimal
  pub ts_init : ℤ

unfoldable pub position_side : String → PositionSide
position_side s = if s == "LONG" then long else if s == "SHORT" then short else flat

module _ {Price Decimal : Type 0} (nt : Library Price) (money : Money Decimal) where
  unfoldable pub average : Value → Result (Option Decimal)
  average absent = ok none
  average v = Values.◌>>=◌ (money.read v) λ d. ok (some d)

  unfoldable pub built_report :
      PositionFields → ℤ → String → Result (Option (PositionStatusReport Decimal))
  built_report f now account = Values.◌>>=◌ (average f.avg_px_open) λ avg.
      if nt.instrument_id_reads f.instrument_id
      then Values.◌>>=◌ (nt.quantity_from_int f.quantity) (λ qty. ok (
          some (record {
            account_id = account;
            instrument_id = f.instrument_id;
            position_side = position_side f.position_side;
            quantity = qty;
            avg_px_open = avg;
            ts_init = now;
          })))
      else err value_error

  -- `_position_report_from_fields`
  unfoldable pub position_report_from_fields :
      PositionFields → ℤ → Action Price (Option (PositionStatusReport Decimal))
  position_report_from_fields f now h = elim h.account_id [
    | some account ↦ (built_report f now account, h)
    | none ↦
        if has_text f.account_id
        then (
          built_report f now (text_or_empty f.account_id),
          set_account (text_or_empty f.account_id) h,
        )
        else (ok none, h)
  ]

  -- the contract's latest row was unreadable
  unfoldable pub now_unreadable : Pnl → PositionFields → Bool
  now_unreadable p f = not (strip f.symbol == "") && mem_text (strip f.symbol) p.unreadable

  unfoldable pub filtered_out : Option String → Cache Price → PositionFields → Bool
  filtered_out filter cache f =
      elim filter [ none ↦ false | some id ↦ not (f.instrument_id == id) ]
      || not (is_some (cache.instrument f.instrument_id))

  abbrev keep_report :
      Option (PositionStatusReport Decimal)
      → List (PositionStatusReport Decimal)
      → List (PositionStatusReport Decimal)
  keep_report none rs = rs
  keep_report (some r) rs = r ∷ rs

  unfoldable pub report_rows :
      Pnl
      → Option String
      → ℤ
      → List (String × PositionFields)
      → Action Price (List (PositionStatusReport Decimal))
  report_rows p filter now [] = pure []
  report_rows p filter now ((key, f) ∷ rows) =
      let rest = report_rows p filter now rows in
      λ h.
        if now_unreadable p f
        then rest h
        else if not (nt.instrument_id_reads f.instrument_id)
        then raise value_error h
        else if filtered_out filter h.cache f
        then rest h
        else (do r ← position_report_from_fields f now; rs ← rest; pure (keep_report r rs)) h

  unfoldable pub reports_since :
      Pnl → Option String → ℤ → Option ℤ → Action Price (List (PositionStatusReport Decimal))
  reports_since p filter now none = pure []
  reports_since p filter now (some live) = report_rows p filter now (rows_seen_since live p)

  -- `generate_position_status_reports`
  unfoldable pub generate_position_status_reports :
      Option String → ℤ → Pnl → Action Price (List (PositionStatusReport Decimal))
  generate_position_status_reports filter now p =
      if positions_known p then reports_since p filter now p.live_since_ns else pure []
