-- ===== src/Exposure/Feed.antt =====
-- execution.py: the handlers of the PnL stream's rows.
use rithmic_nt_connect.TextSets.{add_text, discard}
use rithmic_nt_connect.Base.{
  ℕ, String, Bool, false, not, ◌&&◌, Option, none, some, List, [], ◌∷◌, ◌++◌, if◌then◌else◌, ℤ, eqb,
  ◌==◌, insert, strip,
}
use rithmic_nt_connect.Values.{Value, absent, Result, ok, err, text_or_empty}
use rithmic_nt_connect.Core.ExposureRules.{product_root}
use rithmic_nt_connect.Client.State.{Host, Action, set_account, seed_account_if_needed}
use rithmic_nt_connect.Client.Fills.{seed_if}
use rithmic_nt_connect.Convert.Pnl.{
  InstrumentPnl, PositionFields, instrument_pnl_to_fields, AccountPnl, AccountFields,
  account_pnl_to_fields, default_account_currency,
}
use rithmic_nt_connect.Exposure.{Pnl, any_symbol, note_pnl_observed, exposure_snapshot, publish}

-- `Decimal(str(v))`, `is_finite`, equality, zero, and the code of `Currency.from_str`.
pub record Money (Decimal : Type 0) : Type 0 where
  pub read : Value → Result Decimal
  pub finite : Decimal → Bool
  pub same : Decimal → Decimal → Bool
  pub zero : Decimal
  pub currency : String → Result String

pub record StateKey (Decimal : Type 0) : Type 0 where
  pub account : String
  pub currency : String
  pub free : Decimal

-- The client, with the PnL state, the last published account state and those it published.
pub record Client (Price Decimal : Type 0) : Type 0 where
  pub host : Host Price
  pub pnl : Pnl
  pub last_key : Option (StateKey Decimal)
  pub states : List (StateKey Decimal)

-- `raw_symbol or _ANY_SYMBOL`
unfoldable pub unreadable_symbol : Option String → String
unreadable_symbol symbol =
    let raw = strip (text_or_empty symbol) in if raw == "" then any_symbol else raw

-- what `_cache_position` leaves when the row has no readable fields
unfoldable pub unreadable_row : InstrumentPnl → Pnl → Pnl
unreadable_row d p = record p { unreadable = add_text (unreadable_symbol d.symbol) p.unreadable }

-- the position as the row tells it, before the account is seeded
unfoldable pub stored_row : PositionFields → Pnl → Pnl
stored_row f p = record p {
  unreadable = discard (strip f.symbol) p.unreadable;
  positions = insert f.instrument_id f p.positions;
}

unfoldable pub seen_row : PositionFields → ℤ → Pnl → Pnl
seen_row f now p = record (note_pnl_observed now p) {
  seen_ns = insert f.instrument_id now p.seen_ns;
}

unfoldable pub push_exposure : PositionFields → ℤ → Pnl → Pnl
push_exposure f now p = publish (exposure_snapshot (product_root f.symbol) none none false now p) p

-- cash, else the balance
unfoldable pub free_raw : AccountFields → Value
free_raw f = elim f.cash_on_hand [ Value.absent ↦ f.account_balance | v ↦ v ]

module _ {Decimal : Type 0} (money : Money Decimal) where
  unfoldable pub same_key : StateKey Decimal → Option (StateKey Decimal) → Bool
  same_key k none = false
  same_key k (some l) =
      k.account == l.account && (k.currency == l.currency && money.same k.free l.free)

module _ {Price Decimal : Type 0} (money : Money Decimal) where
  unfoldable pub seeded_key : Host Price → Client Price Decimal → Option (StateKey Decimal)
  seeded_key after c =
      if not c.host.account_seeded && after.account_seeded
      then some (record {
        account = text_or_empty after.account_id;
        currency = default_account_currency;
        free = money.zero;
      })
      else c.last_key

  -- an action that may seed the account, which also keys the zero state that it publishes
  unfoldable pub seeding : Action Price (Unit {0}) → Client Price Decimal → Client Price Decimal
  seeding seed c =
      let after = (seed c.host).1 in record c { host = after; last_key = seeded_key after c }

  unfoldable pub position_row :
      InstrumentPnl → ℤ → Result PositionFields → Client Price Decimal → Client Price Decimal
  position_row d now (err e) c = record c { pnl = unreadable_row d c.pnl }
  position_row d now (ok f) c =
      let after = seeding (seed_if f.account_id) (record c { pnl = stored_row f c.pnl }) in
      record after { pnl = push_exposure f now (seen_row f now after.pnl) }

  -- `_cache_position`; publishing a snapshot is taken not to raise
  unfoldable pub cache_position : InstrumentPnl → ℤ → Client Price Decimal → Client Price Decimal
  cache_position d now c = position_row d now (instrument_pnl_to_fields d) c

  unfoldable pub account_state : StateKey Decimal → ℤ → Client Price Decimal → Client Price Decimal
  account_state k now c =
      if same_key money k c.last_key
      then record c { pnl = note_pnl_observed now c.pnl }
      else record c {
        states = c.states ++ (k ∷ []);
        last_key = some k;
        pnl = note_pnl_observed now c.pnl;
      }

  unfoldable pub with_currency :
      AccountFields
      → Decimal
      → ℤ
      → Result String
      → Client Price Decimal
      → Result (Unit {0}) × Client Price Decimal
  with_currency f free now (err e) c = (err e, c)
  with_currency f free now (ok currency) c =
      let named =
        seeding (seed_account_if_needed (some f.account_id))
          (record c { host = set_account f.account_id c.host }) in
      (
        ok tt,
        account_state (record { account = f.account_id; currency = currency; free = free }) now
            named,
      )

  -- `Decimal(str(free_raw))`; an unreadable or infinite balance changes nothing
  unfoldable pub with_balance :
      AccountFields
      → ℤ
      → Result Decimal
      → Client Price Decimal
      → Result (Unit {0}) × Client Price Decimal
  with_balance f now (err e) c = (ok tt, c)
  with_balance f now (ok free) c =
      if money.finite free
      then with_currency f free now (money.currency f.currency) c
      else (ok tt, c)

  unfoldable pub with_free :
      AccountFields → ℤ → Value → Client Price Decimal → Result (Unit {0}) × Client Price Decimal
  with_free f now absent c = (ok tt, c)
  with_free f now v c = with_balance f now (money.read v) c

  unfoldable pub with_fields :
      ℤ → Result AccountFields → Client Price Decimal → Result (Unit {0}) × Client Price Decimal
  with_fields now (err e) c = (ok tt, c)
  with_fields now (ok f) c = with_free f now (free_raw f) c

  -- `_publish_account`
  unfoldable pub publish_account :
      AccountPnl → ℤ → Client Price Decimal → Result (Unit {0}) × Client Price Decimal
  publish_account d now c = with_fields now (account_pnl_to_fields d) c

-- the events of the PnL stream
pub data PnlEvent : Type 0 where
  account_pnl : AccountPnl → PnlEvent
  instrument_pnl : InstrumentPnl → PnlEvent
  other : PnlEvent

module _ {Price Decimal : Type 0} (money : Money Decimal) where
  -- `_dispatch_pnl_event`
  unfoldable pub dispatch_pnl_event :
      PnlEvent → ℤ → Client Price Decimal → Result (Unit {0}) × Client Price Decimal
  dispatch_pnl_event (account_pnl d) now c = publish_account money d now c
  dispatch_pnl_event (instrument_pnl d) now c = (ok tt, cache_position money d now c)
  dispatch_pnl_event other now c = (ok tt, c)

  -- `dispatch_current` of the PnL poller: an event that was polled in an earlier epoch is dropped
  unfoldable pub dispatch_current :
      ℕ → PnlEvent → ℤ → Client Price Decimal → Result (Unit {0}) × Client Price Decimal
  dispatch_current poll_epoch e now c =
      if eqb poll_epoch c.pnl.epoch then dispatch_pnl_event e now c else (ok tt, c)
