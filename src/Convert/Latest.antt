-- ===== src/Convert/Latest.antt =====
-- _convert.py: what the accumulator of `bbo_to_fields` holds after a sequence of messages.
use rithmic_nt_connect.Base.{
  String, Option, none, some, List, [], ◌∷◌, ℤ, ◌≡◌, refl, ◌∙◌, ap, or_else,
}
use rithmic_nt_connect.Values.{Value, absent, Float, Result, ok}
use rithmic_nt_connect.Notice.Normalize.{ts_ns}
use rithmic_nt_connect.Convert.{Floats, require, to_float, to_float_or_zero}
use rithmic_nt_connect.Convert.Quote.{
  BboEvent, SideState, QuoteState, no_side, no_quote, with_ids, with_time, merged, merge_side,
  quote_of, after_ask, after_bid, after_time, after_symbol, bbo_to_fields,
}

-- What a message says: its ids, its time and the sides it carries.
pub record Update : Type 0 where
  pub symbol : String
  pub exchange : Option String
  pub time : Option ℤ
  pub bid : Option (Float × Float)
  pub ask : Option (Float × Float)

-- The side of a message reads as a price and a size, or is not there.
pub data ReadsSide (fs : Floats) : Value → Value → Option (Float × Float) → Type 0 where
  no_price : {size : Value} → ReadsSide fs absent size none
  a_price :
      {price size : Value} {p z : Float}
      → to_float fs price ≡ ok p
      → to_float_or_zero fs size ≡ ok z
      → ReadsSide fs price size (some (p, z))

pub record Reads (fs : Floats) (d : BboEvent) (u : Update) : Type 0 where
  pub symbol : d.symbol ≡ some u.symbol
  pub exchange : d.exchange ≡ u.exchange
  pub time : ts_ns d.ts_event_ns d.ssboe d.usecs ≡ ok u.time
  pub bid : ReadsSide fs d.bid_price d.bid_size u.bid
  pub ask : ReadsSide fs d.ask_price d.ask_size u.ask

-- Messages, the newest first, and what they say.
pub data History (fs : Floats) : List BboEvent → List Update → Type 0 where
  start : History fs [] []
  next :
      {d : BboEvent} {u : Update} {ds : List BboEvent} {us : List Update}
      → Reads fs d u
      → History fs ds us
      → History fs (d ∷ ds) (u ∷ us)

-- The value of the newest message that has one.
unfoldable pub latest : {A : Type 0} → (Update → Option A) → List Update → Option A
latest f [] = none
latest f (u ∷ us) = or_else (f u) (latest f us)

abbrev side_of : Option (Float × Float) → SideState
side_of none = no_side
side_of (some (p, z)) = record { price = some p; size = some z }

-- The accumulator that the newest values make.
unfoldable pub latest_state : List Update → QuoteState
latest_state us = record {
  symbol = latest (λ u. some u.symbol) us;
  exchange = latest (λ u. u.exchange) us;
  ts_event = latest (λ u. u.time) us;
  bid = side_of (latest (λ u. u.bid) us);
  ask = side_of (latest (λ u. u.ask) us);
}

module _ (fs : Floats) where
  -- The caller passes the accumulator from one message to the next.
  unfoldable pub accumulated : List BboEvent → QuoteState
  accumulated [] = no_quote
  accumulated (d ∷ ds) = (bbo_to_fields fs d (accumulated ds)).1

  abbrev put : Option (Float × Float) → SideState → SideState
  put none s = s
  put (some (p, z)) s = record { price = some p; size = some z }

  abbrev put_all : Update → QuoteState → QuoteState
  put_all u s = record {
    symbol = some u.symbol;
    exchange = or_else u.exchange s.exchange;
    ts_event = or_else u.time s.ts_event;
    bid = put u.bid s.bid;
    ask = put u.ask s.ask;
  }

  merged_ok :
      (price : Result Float) (size : Result Float) (p z : Float) (s : SideState)
      → price ≡ ok p
      → size ≡ ok z
      → merged price size s ≡ (ok tt, record { price = some p; size = some z })
  unfolding merged
  merged_ok price size p z s a b = rw (a, b, merged) refl

  merge_side-put :
      (price size : Value) (o : Option (Float × Float)) (s : SideState)
      → ReadsSide fs price size o
      → merge_side fs price size s ≡ (ok tt, put o s)
  unfolding merge_side to_float
  merge_side-put absent size none s no_price = refl
  merge_side-put absent size (some (p, z)) s (a_price a b) = cc
  merge_side-put (Value.boolean x) size (some (p, z)) s (a_price a b) = merged_ok _ _ p z s a b
  merge_side-put (Value.int x) size (some (p, z)) s (a_price a b) = merged_ok _ _ p z s a b
  merge_side-put (Value.float x) size (some (p, z)) s (a_price a b) = merged_ok _ _ p z s a b
  merge_side-put (Value.str x) size (some (p, z)) s (a_price a b) = merged_ok _ _ p z s a b
  merge_side-put (Value.boolean x) size none s r = elim r [ ]
  merge_side-put (Value.int x) size none s r = elim r [ ]
  merge_side-put (Value.float x) size none s r = elim r [ ]
  merge_side-put (Value.str x) size none s r = elim r [ ]

  put-latest :
      (f : Update → Option (Float × Float)) (u : Update) (us : List Update)
      (o : Option (Float × Float))
      → f u ≡ o
      → side_of (latest f (u ∷ us)) ≡ put (f u) (side_of (latest f us))
  unfolding latest
  put-latest f u us none e = rw e refl
  put-latest f u us (some x) e = rw e refl

  put_all-latest :
      (u : Update) (us : List Update) → put_all u (latest_state us) ≡ latest_state (u ∷ us)
  unfolding latest_state latest
  put_all-latest u us =
      rw (put-latest (λ u. u.bid) u us u.bid refl, put-latest (λ u. u.ask) u us u.ask refl) refl

  after_bid_ok :
      (d : BboEvent) (u : Update) (s : QuoteState)
      → Reads fs d u
      → after_bid fs d (with_time (with_ids s u.symbol u.exchange) u.time) (ok tt, put u.bid s.bid)
        ≡ (quote_of (put_all u s), put_all u s)
  unfolding after_bid after_ask with_ids with_time
  after_bid_ok d u s r =
      ap
        (after_ask
          (record (with_time (with_ids s u.symbol u.exchange) u.time) { bid = put u.bid s.bid }))
        (merge_side-put d.ask_price d.ask_size u.ask s.ask r.ask)

  step_exchange :
      (d : BboEvent) (u : Update) (s : QuoteState)
      → Reads fs d u
      → after_time fs d (with_ids s u.symbol u.exchange) (ok u.time)
        ≡ (quote_of (put_all u s), put_all u s)
  unfolding after_time with_ids with_time
  step_exchange d u s r =
      ap (after_bid fs d (with_time (with_ids s u.symbol u.exchange) u.time))
        (merge_side-put d.bid_price d.bid_size u.bid s.bid r.bid)
      ∙ after_bid_ok d u s r

  step :
      (d : BboEvent) (u : Update) (s : QuoteState)
      → Reads fs d u
      → bbo_to_fields fs d s ≡ (quote_of (put_all u s), put_all u s)
  unfolding bbo_to_fields after_symbol require
  step d u s r =
      ap (λ x. after_symbol fs d s (require x)) r.symbol
      ∙ ap (λ x. after_time fs d (with_ids s u.symbol x) (ts_ns d.ts_event_ns d.ssboe d.usecs))
          r.exchange
      ∙ ap (after_time fs d (with_ids s u.symbol u.exchange)) r.time
      ∙ step_exchange d u s r

  accumulated-latest :
      (ds : List BboEvent) (us : List Update) → History fs ds us → accumulated ds ≡ latest_state us
  unfolding accumulated latest_state latest
  accumulated-latest [] [] start = refl
  accumulated-latest [] (u ∷ us) h = elim h [ ]
  accumulated-latest (d ∷ ds) [] h = elim h [ ]
  accumulated-latest (d ∷ ds) (u ∷ us) (next r h) =
      ap (λ s. (bbo_to_fields fs d s).1) (accumulated-latest ds us h)
      ∙ ap (λ x. x.1) (step d u (latest_state us) r)
      ∙ put_all-latest u us

  -- After any sequence of readable messages, the next readable one yields the quote of the newest
  -- bid, ask, time and ids that the messages carried, itself included, and the accumulator holds
  -- just those.
  pub bbo_refines_latest :
      (d : BboEvent) (u : Update) (ds : List BboEvent) (us : List Update)
      → Reads fs d u
      → History fs ds us
      → bbo_to_fields fs d (accumulated ds)
        ≡ (quote_of (latest_state (u ∷ us)), latest_state (u ∷ us))
  bbo_refines_latest d u ds us r h =
      ap (bbo_to_fields fs d) (accumulated-latest ds us h)
      ∙ step d u (latest_state us) r
      ∙ ap (λ s. (quote_of s, s)) (put_all-latest u us)
