-- ===== src/Exposure/Rows.antt =====
-- execution.py: the rows of the current PnL stream, as a table from contract to its newest row.
use rithmic_nt_connect.Base.{
  ℕ, ◌+◌, String, Bool, true, Option, none, some, List, [], ◌∷◌, if◌then◌else◌, ℤ, leb_ℤ, ltb_ℤ,
  eqb, ◌≡◌, arith, select, lookup, insert, eq_iff,
}
use rithmic_nt_connect.Values.{Result, ok, err}
use rithmic_nt_connect.Convert.Pnl.{PositionFields, instrument_pnl_to_fields}
use rithmic_nt_connect.Exposure.{Pnl, seen_at, rows_since, rows_seen_since}
use rithmic_nt_connect.Exposure.Feed.{PnlEvent, instrument_pnl}
use rithmic_nt_connect.Exposure.Unknown.{PnlStep, delivers, loses_stream, gaps, forgets}

-- The rows that exposure counts; none while the stream is not live.
unfoldable pub counted : Option ℤ → Pnl → List (String × PositionFields)
counted none p = []
counted (some live) p = rows_seen_since live p

-- The specification: the newest readable row of each contract since the stream began, from events
-- that were polled since the last break.
pub record Stream : Type 0 where
  pub epoch : ℕ
  pub rows : List (String × PositionFields)

unfoldable pub told : Result PositionFields → Stream → Stream
told (err e) s = s
told (ok f) s = record s { rows = insert f.instrument_id f s.rows }

unfoldable pub heard : PnlEvent → Stream → Stream
heard (instrument_pnl d) s = told (instrument_pnl_to_fields d) s
heard e s = s

unfoldable pub next_stream : PnlStep → Stream → Stream
next_stream (delivers n e now) s = if eqb n s.epoch then heard e s else s
next_stream gaps s = record s { epoch = s.epoch + 1 }
next_stream loses_stream s = record { epoch = s.epoch + 1; rows = [] }
next_stream forgets s = record { epoch = s.epoch + 1; rows = [] }

unfoldable pub streamed : List PnlStep → Stream → Stream
streamed [] s = s
streamed (p ∷ steps) s = streamed steps (next_stream p s)

-- The clock is read at ascending times.
abbrev pub Clock : ℤ → List PnlStep → Type 0
Clock last [] = Unit
Clock last (delivers n e now ∷ steps) = (ltb_ℤ last now ≡ true) × Clock now steps
Clock last (loses_stream ∷ steps) = Clock last steps
Clock last (gaps ∷ steps) = Clock last steps
Clock last (forgets ∷ steps) = Clock last steps

lookup-select :
    {V : Type 0} (p : String → Bool) (key : String) (table : List (String × V))
    → lookup key (select (λ entry. p entry.0) table) ≡ (if p key then lookup key table else none)
lookup-select p key [] = ground arith
lookup-select p key ((k, v) ∷ table) = ground (arith, eq_iff k key, lookup-select p key table)

pub lookup-rows_since :
    (seen : List (String × ℤ)) (live : ℤ) (key : String)
    (positions : List (String × PositionFields))
    → lookup key (rows_since seen live positions)
      ≡ (if leb_ℤ live (seen_at seen key) then lookup key positions else none)
unfolding rows_since
lookup-rows_since seen live key positions =
    lookup-select (λ k. leb_ℤ live (seen_at seen k)) key positions
