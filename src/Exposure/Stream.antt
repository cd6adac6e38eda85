-- ===== src/Exposure/Stream.antt =====
-- execution.py: exposure counts the rows of the current stream, and no others.
use rithmic_nt_connect.Base.{
  ℕ, ◌+◌, String, Bool, true, false, Option, none, some, List, [], ◌∷◌, if◌then◌else◌, ℤ, pos,
  leb_ℤ, ltb_ℤ, eqb, ◌≡◌, refl, sym, ◌∙◌, ap, subst, arith, ◌==◌, lookup, insert, lookup-insert,
  inl, inr, ◌⊎◌, is_some,
}
use rithmic_nt_connect.Values.{Result, ok, err}
use rithmic_nt_connect.Convert.Pnl.{
  InstrumentPnl, PositionFields, instrument_pnl_to_fields, account_pnl_to_fields,
}
use rithmic_nt_connect.Exposure.{
  Pnl, no_pnl, note_pnl_observed, stream_lost, forget_pnl_state, gap_seen, seen_at, rows_seen_since,
  publish,
}
use rithmic_nt_connect.Exposure.Feed.{
  Money, Client, PnlEvent, account_pnl, instrument_pnl, other, unreadable_row, stored_row, seen_row,
  push_exposure, seeding, position_row, cache_position, publish_account, dispatch_pnl_event,
  dispatch_current,
}
use rithmic_nt_connect.Exposure.Unknown.{
  PnlStep, delivers, loses_stream, gaps, forgets, after, after_all, Observed, with_fields-Observed,
}
use rithmic_nt_connect.Exposure.Rows.{
  counted, Stream, told, heard, next_stream, streamed, Clock, lookup-rows_since,
}

-- What one contract's row and its time say, for a stream that began at `live`.
abbrev Current : Option ℤ → ℤ → Option PositionFields → Option PositionFields → Type 0
Current none seen held row = row ≡ none
Current (some live) seen held row =
    ((row ≡ held) × (leb_ℤ live seen ≡ true)) ⊎ ((row ≡ none) × (leb_ℤ live seen ≡ false))

abbrev Begun : Option ℤ → ℤ → Type 0
Begun none last = Unit
Begun (some live) last = leb_ℤ live last ≡ true

record Agrees (key : String) (last : ℤ) (p : Pnl) (s : Stream) : Type 0 where
  same_epoch : p.epoch ≡ s.epoch
  begun : Begun p.live_since_ns last
  seen_before : leb_ℤ (seen_at p.seen_ns key) last ≡ true
  current :
      Current p.live_since_ns (seen_at p.seen_ns key) (lookup key p.positions) (lookup key s.rows)

seen_at-insert :
    (put key : String) (t : ℤ) (seen : List (String × ℤ))
    → seen_at (insert put t seen) key ≡ (if put == key then t else seen_at seen key)
unfolding seen_at
seen_at-insert put key t seen = ap or_zero (lookup-insert put key t seen) ∙ go (put == key)
  where
    or_zero : Option ℤ → ℤ
    or_zero none = pos 0
    or_zero (some u) = u

    go :
        (b : Bool)
        → or_zero (if b then some t else lookup key seen) ≡ (if b then t else seen_at seen key)
    go true = refl
    go false = zero_of (lookup key seen)
      where
        zero_of : (o : Option ℤ) → or_zero o ≡ (elim o [ none ↦ pos 0 | some u ↦ u ])
        zero_of none = refl
        zero_of (some u) = refl

-- One contract, when the stream is observed at a later time.
Current-observed :
    (live : Option ℤ) (seen last now : ℤ) (held row : Option PositionFields)
    → leb_ℤ seen last ≡ true
    → ltb_ℤ last now ≡ true
    → Current live seen held row
    → Current (if is_some live then live else some now) seen held row
Current-observed none seen last now held row a b c = inr (c, ground arith)
Current-observed (some live) seen last now held row a b c = c

-- Its own row, at the time of the reading.
Current-row :
    (live : Option ℤ) (last now : ℤ) (f : PositionFields)
    → Begun live last
    → ltb_ℤ last now ≡ true
    → Current (if is_some live then live else some now) now (some f) (some f)
Current-row none last now f b t = inl (refl, ground arith)
Current-row (some live) last now f b t = inl (refl, ground arith)

Begun-observed :
    (live : Option ℤ) (last now : ℤ)
    → Begun live last
    → ltb_ℤ last now ≡ true
    → Begun (if is_some live then live else some now) now
Begun-observed none last now b t = ground arith
Begun-observed (some live) last now b t = ground arith

Current-eq :
    (live : Option ℤ) {seen seen' : ℤ} {held held' row row' : Option PositionFields}
    → seen ≡ seen'
    → held ≡ held'
    → row ≡ row'
    → Current live seen' held' row'
    → Current live seen held row
Current-eq live {seen} {seen'} {held} {held'} {row} {row'} a b c k =
    subst (λ x. Current live x held row) (sym a)
      (subst (λ x. Current live seen' x row) (sym b)
        (subst (λ x. Current live seen' held' x) (sym c) k))

Current-insert :
    (b : Bool) (live : Option ℤ) (seen last now : ℤ) (f : PositionFields)
    (held row : Option PositionFields)
    → Begun live last
    → leb_ℤ seen last ≡ true
    → ltb_ℤ last now ≡ true
    → Current live seen held row
    → Current
        (if is_some live then live else some now)
        (if b then now else seen)
        (if b then some f else held)
        (if b then some f else row)
Current-insert true live seen last now f held row g a t c = Current-row live last now f g t
Current-insert false live seen last now f held row g a t c =
    Current-observed live seen last now held row a t c

module _ (key : String) where
  Agrees-row :
      (f : PositionFields) (last now : ℤ) (p : Pnl) (s : Stream)
      → ltb_ℤ last now ≡ true
      → Agrees key last p s
      → Agrees key now (seen_row f now (stored_row f p)) (told (ok f) s)
  unfolding seen_row stored_row note_pnl_observed told
  Agrees-row f last now p s t a = record {
    same_epoch = a.same_epoch;
    begun = Begun-observed p.live_since_ns last now a.begun t;
    seen_before =
        subst (λ x. leb_ℤ x now ≡ true) (sym (seen_at-insert f.instrument_id key now p.seen_ns))
          (newest (f.instrument_id == key));
    current =
        Current-eq (if is_some p.live_since_ns then p.live_since_ns else some now)
          (seen_at-insert f.instrument_id key now p.seen_ns)
          (lookup-insert f.instrument_id key f p.positions)
          (lookup-insert f.instrument_id key f s.rows)
          (Current-insert (f.instrument_id == key) p.live_since_ns (seen_at p.seen_ns key) last now
            f (lookup key p.positions) (lookup key s.rows) a.begun a.seen_before t a.current);
  }
    where
      newest : (b : Bool) → leb_ℤ (if b then now else seen_at p.seen_ns key) now ≡ true
      newest true = ground arith
      newest false = ground (arith, a.seen_before)

  Agrees-observed :
      (last now : ℤ) (p : Pnl) (s : Stream)
      → ltb_ℤ last now ≡ true
      → Agrees key last p s
      → Agrees key now (note_pnl_observed now p) s
  unfolding note_pnl_observed
  Agrees-observed last now p s t a = record {
    same_epoch = a.same_epoch;
    begun = Begun-observed p.live_since_ns last now a.begun t;
    seen_before = ground (arith, a.seen_before);
    current =
        Current-observed p.live_since_ns (seen_at p.seen_ns key) last now (lookup key p.positions)
          (lookup key s.rows) a.seen_before t a.current;
  }

  Begun-later :
      (live : Option ℤ) (last now : ℤ) → ltb_ℤ last now ≡ true → Begun live last → Begun live now
  Begun-later none last now t b = tt
  Begun-later (some live) last now t b = ground arith

  Agrees-later :
      (last now : ℤ) (p : Pnl) (s : Stream)
      → ltb_ℤ last now ≡ true
      → Agrees key last p s
      → Agrees key now p s
  Agrees-later last now p s t a = record {
    same_epoch = a.same_epoch;
    begun = Begun-later p.live_since_ns last now t a.begun;
    seen_before = ground (arith, a.seen_before);
    current = a.current;
  }

  Observed-Agrees :
      (last now : ℤ) (p q : Pnl) (s : Stream)
      → Observed p now q
      → ltb_ℤ last now ≡ true
      → Agrees key last p s
      → Agrees key now q s
  Observed-Agrees last now p q s (inl e) t a =
      subst (λ x. Agrees key now x s) (sym e) (Agrees-later last now p s t a)
  Observed-Agrees last now p q s (inr e) t a =
      subst (λ x. Agrees key now x s) (sym e) (Agrees-observed last now p s t a)

  counted-Current :
      (live : Option ℤ) (p : Pnl) (row : Option PositionFields)
      → Current live (seen_at p.seen_ns key) (lookup key p.positions) row
      → lookup key (counted live p) ≡ row
  unfolding counted rows_seen_since
  counted-Current none p row c = sym c
  counted-Current (some live) p row (inl (e, b)) =
      lookup-rows_since p.seen_ns live key p.positions ∙ rw b (sym e)
  counted-Current (some live) p row (inr (e, b)) =
      lookup-rows_since p.seen_ns live key p.positions ∙ rw b (sym e)

module _ {Price Decimal : Type 0} (money : Money Decimal) (key : String) where
  position_row-Agrees :
      (d : InstrumentPnl) (r : Result PositionFields) (last now : ℤ) (c : Client Price Decimal)
      (s : Stream)
      → ltb_ℤ last now ≡ true
      → Agrees key last c.pnl s
      → Agrees key now (position_row money d now r c).pnl (told r s)
  unfolding position_row told seeding push_exposure publish unreadable_row
  position_row-Agrees d (err e) last now c s t a =
      let b = Agrees-later key last now c.pnl s t a in
      record {
        same_epoch = b.same_epoch;
        begun = b.begun;
        seen_before = b.seen_before;
        current = b.current;
      }
  position_row-Agrees d (ok f) last now c s t a =
      let b = Agrees-row key f last now c.pnl s t a in
      record {
        same_epoch = b.same_epoch;
        begun = b.begun;
        seen_before = b.seen_before;
        current = b.current;
      }

  dispatch-Agrees :
      (e : PnlEvent) (last now : ℤ) (c : Client Price Decimal) (s : Stream)
      → ltb_ℤ last now ≡ true
      → Agrees key last c.pnl s
      → Agrees key now (dispatch_pnl_event money e now c).1.pnl (heard e s)
  unfolding dispatch_pnl_event publish_account cache_position heard
  dispatch-Agrees (account_pnl d) last now c s t a =
      Observed-Agrees key last now c.pnl _ s
        (with_fields-Observed money now (account_pnl_to_fields d) c) t a
  dispatch-Agrees (instrument_pnl d) last now c s t a =
      position_row-Agrees d (instrument_pnl_to_fields d) last now c s t a
  dispatch-Agrees other last now c s t a = Agrees-later key last now c.pnl s t a

  polled-Agrees :
      (b : Bool) (e : PnlEvent) (last now : ℤ) (c : Client Price Decimal) (s : Stream)
      → ltb_ℤ last now ≡ true
      → Agrees key last c.pnl s
      → Agrees key now
          (if b then dispatch_pnl_event money e now c else (ok tt, c)).1.pnl
          (if b then heard e s else s)
  polled-Agrees true e last now c s t a = dispatch-Agrees e last now c s t a
  polled-Agrees false e last now c s t a = Agrees-later key last now c.pnl s t a

  delivered-Agrees :
      (n : ℕ) (e : PnlEvent) (last now : ℤ) (c : Client Price Decimal) (s : Stream)
      → ltb_ℤ last now ≡ true
      → Agrees key last c.pnl s
      → Agrees key now (after money (delivers n e now) c).pnl (next_stream (delivers n e now) s)
  unfolding after dispatch_current next_stream
  delivered-Agrees n e last now c s t a =
      subst
        (λ m.
          Agrees key now (after money (delivers n e now) c).pnl (if eqb n m then heard e s else s))
        a.same_epoch (polled-Agrees (eqb n c.pnl.epoch) e last now c s t a)

  all-Agrees :
      (steps : List PnlStep) (last : ℤ) (c : Client Price Decimal) (s : Stream)
      → leb_ℤ (pos 0) last ≡ true
      → Clock last steps
      → Agrees key last c.pnl s
      → (later : ℤ) × Agrees key later (after_all money steps c).pnl (streamed steps s)
  unfolding after_all after next_stream streamed stream_lost gap_seen forget_pnl_state seen_at
  all-Agrees [] last c s z t a = (last, a)
  all-Agrees (delivers n e now ∷ steps) last c s z (t, ts) a =
      all-Agrees steps now (after money (delivers n e now) c) (next_stream (delivers n e now) s)
        (ground arith) ts (delivered-Agrees n e last now c s t a)
  all-Agrees (loses_stream ∷ steps) last c s z t a =
      all-Agrees steps last (after money loses_stream c) (next_stream loses_stream s) z t record {
        same_epoch = ap (λ n. n + 1) a.same_epoch;
        begun = tt;
        seen_before = a.seen_before;
        current = refl;
      }
  all-Agrees (gaps ∷ steps) last c s z t a =
      all-Agrees steps last (after money gaps c) (next_stream gaps s) z t record {
        same_epoch = ap (λ n. n + 1) a.same_epoch;
        begun = a.begun;
        seen_before = a.seen_before;
        current = a.current;
      }
  all-Agrees (forgets ∷ steps) last c s z t a =
      all-Agrees steps last (after money forgets c) (next_stream forgets s) z t record {
        same_epoch = ap (λ n. n + 1) a.same_epoch;
        begun = tt;
        seen_before = z;
        current = refl;
      }

  -- From a fresh client, through any sequence of deliveries, lost streams, gaps and connects with
  -- an ascending clock: the row of a contract that exposure counts is the newest readable one that
  -- was delivered since the stream last began, in the epoch in which it was polled; there is none
  -- when no such row was delivered.
  pub counted_rows_are_current :
      (steps : List PnlStep) (c : Client Price Decimal)
      → c.pnl ≡ no_pnl
      → Clock (pos 0) steps
      → lookup key
          (counted (after_all money steps c).pnl.live_since_ns (after_all money steps c).pnl)
        ≡ lookup key (streamed steps (record { epoch = 0; rows = [] })).rows
  unfolding seen_at
  counted_rows_are_current steps c e t =
      let (later, a) =
        all-Agrees steps (pos 0) c (record { epoch = 0; rows = [] }) refl t
          (subst (λ p. Agrees key (pos 0) p (record { epoch = 0; rows = [] })) (sym e)
            record { same_epoch = refl; begun = tt; seen_before = refl; current = refl }) in
      counted-Current key (after_all money steps c).pnl.live_since_ns (after_all money steps c).pnl
        _ a.current
