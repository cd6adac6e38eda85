-- ===== src/Exposure/Unknown.antt =====
-- execution.py: a row that did not read hides its root from every snapshot.
use rithmic_nt_connect.TextSets.{mem_text-add_text, mem_text-added, mem_text-discard}
use rithmic_nt_connect.Base.{
  ℕ, String, Bool, true, false, Option, none, List, [], ◌∷◌, if◌then◌else◌, ℤ, eqb, ◌≡◌, refl, sym,
  subst, arith, ◌==◌, any, mem_text, strip, Bool-cases, inl, inr, eq_iff, ◌⊎◌,
}
use rithmic_nt_connect.Values.{Value, absent, boolean, int, float, str, Result, ok, err, Error}
use rithmic_nt_connect.Core.ExposureRules.{exposure_complete}
use rithmic_nt_connect.Convert.Pnl.{
  InstrumentPnl, PositionFields, instrument_pnl_to_fields, AccountPnl, AccountFields,
  account_pnl_to_fields,
}
use rithmic_nt_connect.Exposure.{
  Pnl, any_symbol, note_pnl_observed, exposure_snapshot, publish, forget_pnl_state, stream_lost,
  gap_seen, hides, position_unreadable_for, live_for, net_since, complete,
}
use rithmic_nt_connect.Exposure.Feed.{
  Money, Client, PnlEvent, account_pnl, instrument_pnl, other, unreadable_symbol, unreadable_row,
  stored_row, seen_row, push_exposure, seeding, position_row, cache_position, account_state,
  with_currency, with_balance, with_fields, publish_account, dispatch_pnl_event, dispatch_current,
  with_free, free_raw,
}

-- What can happen to the PnL state: an event that was polled in some epoch, a lost stream, a gap
-- of the order stream, a connect.
pub data PnlStep : Type 0 where
  delivers : (poll_epoch : ℕ) → PnlEvent → ℤ → PnlStep
  loses_stream gaps forgets : PnlStep

module _ {Price Decimal : Type 0} (money : Money Decimal) where
  unfoldable pub after : PnlStep → Client Price Decimal → Client Price Decimal
  after (delivers epoch e now) c = (dispatch_current money epoch e now c).1
  after loses_stream c = record c { pnl = stream_lost c.pnl }
  after gaps c = record c { pnl = gap_seen c.pnl }
  after forgets c = record c { pnl = forget_pnl_state c.pnl }

  unfoldable pub after_all : List PnlStep → Client Price Decimal → Client Price Decimal
  after_all [] c = c
  after_all (s ∷ steps) c = after_all steps (after s c)

-- Nothing of these steps makes `symbol` readable: no connect, no readable row of it, and for the
-- marker no lost stream.
pub data Spares (symbol : String) : PnlStep → Type 0 where
  an_account : {n : ℕ} {d : AccountPnl} {now : ℤ} → Spares symbol (delivers n (account_pnl d) now)
  an_other : {n : ℕ} {now : ℤ} → Spares symbol (delivers n other now)
  unreadable :
      {n : ℕ} {d : InstrumentPnl} {now : ℤ} {e : Error}
      → instrument_pnl_to_fields d ≡ err e
      → Spares symbol (delivers n (instrument_pnl d) now)
  elsewhere :
      {n : ℕ} {d : InstrumentPnl} {now : ℤ} {f : PositionFields}
      → instrument_pnl_to_fields d ≡ ok f
      → strip f.symbol == symbol ≡ false
      → Spares symbol (delivers n (instrument_pnl d) now)
  a_loss : any_symbol == symbol ≡ false → Spares symbol loses_stream
  a_gap : Spares symbol gaps

pub data SparesAll (symbol : String) : List PnlStep → Type 0 where
  none_left : SparesAll symbol []
  and_then :
      {s : PnlStep} {steps : List PnlStep}
      → Spares symbol s
      → SparesAll symbol steps
      → SparesAll symbol (s ∷ steps)

abbrev Unreadable : String → Pnl → Type 0
Unreadable symbol p = mem_text symbol p.unreadable ≡ true

if-keeps : {A : Type 0} (P : A → Type 0) (b : Bool) (x y : A) → P x → P y → P (if b then x else y)
if-keeps P true x y p q = p
if-keeps P false x y p q = q

any-mem :
    (p : String → Bool) (s : String) (set : List String)
    → p s ≡ true
    → mem_text s set ≡ true
    → any p set ≡ true
any-mem p s [] h e = cc
any-mem p s (x ∷ set) h e = ground (arith, any-mem p s set h, eq_iff x s)

-- what an account row leaves of the PnL state: itself, or itself observed
abbrev pub Observed : Pnl → ℤ → Pnl → Type 0
Observed p now q = (q ≡ p) ⊎ (q ≡ note_pnl_observed now p)

Observed-Spares :
    (symbol : String) (p q : Pnl) (now : ℤ)
    → Observed p now q
    → Unreadable symbol p
    → Unreadable symbol q
unfolding note_pnl_observed
Observed-Spares symbol p q now (inl e) u = subst (Unreadable symbol) (sym e) u
Observed-Spares symbol p q now (inr e) u = subst (Unreadable symbol) (sym e) u

hidden_net :
    (root : String) (open_orders drain_ts : Option ℤ) (reply : Bool) (later : ℤ) (p : Pnl)
    → any (hides root) p.unreadable ≡ true
    → ((exposure_snapshot root open_orders drain_ts reply later p).net ≡ none)
      × (complete (exposure_snapshot root open_orders drain_ts reply later p) ≡ false)
unfolding exposure_snapshot live_for position_unreadable_for net_since complete exposure_complete
hidden_net root open_orders drain_ts reply later p e =
    rw (e, net_since, exposure_complete) (refl, refl)

module _ {Price Decimal : Type 0} (money : Money Decimal) where
  with_currency-Observed :
      (f : AccountFields) (free : Decimal) (now : ℤ) (r : Result String) (c : Client Price Decimal)
      → Observed c.pnl now (with_currency money f free now r c).1.pnl
  unfolding with_currency account_state seeding
  with_currency-Observed f free now (err e) c = inl refl
  with_currency-Observed f free now (ok currency) c = inr (ground arith)

  with_balance-Observed :
      (f : AccountFields) (now : ℤ) (r : Result Decimal) (c : Client Price Decimal)
      → Observed c.pnl now (with_balance money f now r c).1.pnl
  unfolding with_balance
  with_balance-Observed f now (err e) c = inl refl
  with_balance-Observed f now (ok free) c = elim (Bool-cases (money.finite free)) [
    | inl e ↦
        simp (with_balance, e) (with_currency-Observed f free now (money.currency f.currency) c)
    | inr e ↦ simp (with_balance, e) (inl refl)
  ]

  with_free-Observed :
      (f : AccountFields) (now : ℤ) (v : Value) (c : Client Price Decimal)
      → Observed c.pnl now (with_free money f now v c).1.pnl
  unfolding with_free
  with_free-Observed f now absent c = inl refl
  with_free-Observed f now (boolean b) c = with_balance-Observed f now (money.read (boolean b)) c
  with_free-Observed f now (int n) c = with_balance-Observed f now (money.read (int n)) c
  with_free-Observed f now (float x) c = with_balance-Observed f now (money.read (float x)) c
  with_free-Observed f now (str t) c = with_balance-Observed f now (money.read (str t)) c

  pub with_fields-Observed :
      (now : ℤ) (r : Result AccountFields) (c : Client Price Decimal)
      → Observed c.pnl now (with_fields money now r c).1.pnl
  unfolding with_fields
  with_fields-Observed now (err e) c = inl refl
  with_fields-Observed now (ok f) c = with_free-Observed f now (free_raw f) c

  position_row-Spares :
      (symbol : String) (d : InstrumentPnl) (now : ℤ) (f : PositionFields)
      (c : Client Price Decimal)
      → strip f.symbol == symbol ≡ false
      → Unreadable symbol c.pnl
      → Unreadable symbol (position_row money d now (ok f) c).pnl
  unfolding position_row stored_row push_exposure publish seen_row note_pnl_observed seeding
  position_row-Spares symbol d now f c n u =
      mem_text-discard symbol (strip f.symbol) c.pnl.unreadable n u

  position_row-adds :
      (symbol : String) (d : InstrumentPnl) (now : ℤ) (e : Error) (c : Client Price Decimal)
      → Unreadable symbol c.pnl
      → Unreadable symbol (position_row money d now (err e) c).pnl
  unfolding position_row unreadable_row
  position_row-adds symbol d now e c u =
      mem_text-add_text symbol (unreadable_symbol d.symbol) c.pnl.unreadable u

  dispatch-Spares :
      (symbol : String) (n : ℕ) (e : PnlEvent) (now : ℤ) (c : Client Price Decimal)
      → Spares symbol (delivers n e now)
      → Unreadable symbol c.pnl
      → Unreadable symbol (dispatch_pnl_event money e now c).1.pnl
  unfolding dispatch_pnl_event publish_account cache_position
  dispatch-Spares symbol n (account_pnl d) now c s u =
      Observed-Spares symbol c.pnl _ now (with_fields-Observed now (account_pnl_to_fields d) c) u
  dispatch-Spares symbol n other now c s u = u
  dispatch-Spares symbol n (instrument_pnl d) now c (unreadable {e = x} e) u =
      subst (λ r. Unreadable symbol (position_row money d now r c).pnl) (sym e)
        (position_row-adds symbol d now x c u)
  dispatch-Spares symbol n (instrument_pnl d) now c (elsewhere {f = f} e k) u =
      subst (λ r. Unreadable symbol (position_row money d now r c).pnl) (sym e)
        (position_row-Spares symbol d now f c k u)

  after-Spares :
      (symbol : String) (s : PnlStep) (c : Client Price Decimal)
      → Spares symbol s
      → Unreadable symbol c.pnl
      → Unreadable symbol (after money s c).pnl
  unfolding after dispatch_current stream_lost gap_seen
  after-Spares symbol (delivers n e now) c s u =
      if-keeps {A = Result (Unit {0}) × Client Price Decimal} (λ x. Unreadable symbol x.1.pnl)
        (eqb n c.pnl.epoch) _ _ (dispatch-Spares symbol n e now c s u) u
  after-Spares symbol loses_stream c (a_loss k) u =
      mem_text-discard symbol any_symbol c.pnl.unreadable k u
  after-Spares symbol gaps c s u = u
  after-Spares symbol forgets c s u = elim s [ ]

  after_all-Spares :
      (symbol : String) (steps : List PnlStep) (c : Client Price Decimal)
      → SparesAll symbol steps
      → Unreadable symbol c.pnl
      → Unreadable symbol (after_all money steps c).pnl
  unfolding after_all
  after_all-Spares symbol [] c s u = u
  after_all-Spares symbol (s ∷ steps) c (and_then k ks) u =
      after_all-Spares symbol steps (after money s c) ks (after-Spares symbol s c k u)

  -- After an unreadable position row, the root of its contract (any root, when the row has no
  -- symbol) has no net and no complete snapshot, whatever else arrives, until a connect, a readable
  -- row of that contract, or for a row without a symbol a lost stream.
  pub unreadable_row_hides_root :
      (root : String) (d : InstrumentPnl) (e : Error) (now : ℤ) (steps : List PnlStep)
      (c : Client Price Decimal)
      → instrument_pnl_to_fields d ≡ err e
      → hides root (unreadable_symbol d.symbol) ≡ true
      → SparesAll (unreadable_symbol d.symbol) steps
      → (open_orders drain_ts : Option ℤ) (reply : Bool) (later : ℤ)
      → ((exposure_snapshot root open_orders drain_ts reply later
            (after_all money steps (cache_position money d now c)).pnl).net
          ≡ none)
        × (complete (
              exposure_snapshot root open_orders drain_ts reply later
                (after_all money steps (cache_position money d now c)).pnl)
            ≡ false)
  unfolding cache_position position_row unreadable_row
  unreadable_row_hides_root root d e now steps c bad hidden spared open_orders drain_ts reply
        later =
      hidden_net root open_orders drain_ts reply later
        (after_all money steps (cache_position money d now c)).pnl
        (any-mem (hides root) symbol _ hidden (
          after_all-Spares symbol steps (cache_position money d now c) spared (
            subst (λ r. Unreadable symbol (position_row money d now r c).pnl) (sym bad)
              (mem_text-added symbol c.pnl.unreadable))))
    where
      symbol : String
      symbol = unreadable_symbol d.symbol
