-- ===== src/Intake/Tracked.antt =====
-- notification_intake.py: a tracked fill with a usable price and quantity.
use mathlib.Core.Bool.{true≢false}
use rithmic_nt_connect.Client.Fills.{commission_rate}
use rithmic_nt_connect.Base.{
  some, true, [], ◌∷◌, ◌++◌, Bool-cases, inl, inr, sym, ◌≡◌, refl, String, false, none, lookup, ℤ,
}
use rithmic_nt_connect.Values.{Value, ok}
use rithmic_nt_connect.Notice.{Fields}
use rithmic_nt_connect.Notice.Identity.{fill_identity_ts, fill_dedup_key}
use rithmic_nt_connect.OrderPlant.{latch, allow_submit, allow_modify, allow_cancel}
use rithmic_nt_connect.Core.Lru.Eviction.{has_miss}
use rithmic_nt_connect.Nautilus.{Library, Order, Event}
use rithmic_nt_connect.Client.State.{Host, mark_fill_key, ◌>>=◌, fill_key_seen, latch_order_plant}
use rithmic_nt_connect.Intake.Dispatch.{exceeds, handle_tracked_fill, fill_terms, send_fill}

-- No command may go to the venue.
abbrev pub AllGatesShut : {Price : Type 0} → Host Price → Type 0
AllGatesShut h =
    (allow_submit h.order_plant ≡ false)
    × ((allow_modify h.order_plant ≡ false) × (allow_cancel h.order_plant ≡ false))

module _ {Price : Type 0} (nt : Library Price) where
  -- A tracked fill whose key is new and whose quantity and price convert goes out once, with the
  -- quantity, the price and the commission rate of its order, even when it exceeds what the order has
  -- left; an excess shuts all gates.
  pub priced_fill_is_sent :
      (order : Order Price) (cid vid : String) (f : Fields) (ts qty n : ℤ) (px : Value) (p : Price)
      (trade_id : String) (h : Host Price)
      → lookup (fill_dedup_key nt.show_float f (fill_identity_ts f)) h.seen_fill_keys.entries ≡ none
      → fill_terms nt order qty px h ≡ ok (some (n, p))
      → ((handle_tracked_fill nt order cid vid f ts qty px trade_id h).1.emitted
          ≡ h.emitted
            ++ Event.filled cid vid trade_id n p
                (commission_rate nt h order.instrument_id f.symbol)
                ts
              ∷ [])
        × (exceeds nt n order.leaves_qty ≡ true
            → AllGatesShut (handle_tracked_fill nt order cid vid f ts qty px trade_id h).1)
  unfolding handle_tracked_fill latch ◌>>=◌ fill_key_seen send_fill latch_order_plant mark_fill_key
      commission_rate allow_submit allow_modify allow_cancel
  priced_fill_is_sent order cid vid f ts qty n px p trade_id h fresh terms =
      rw
        (
          has_miss (fill_dedup_key nt.show_float f (fill_identity_ts f)) h.seen_fill_keys fresh,
          terms,
        )
        (elim (Bool-cases (exceeds nt n order.leaves_qty)) [
          | inl e ↦ rw e (refl, λ x. (refl, (refl, refl)))
          | inr e ↦ rw e (refl, λ x. absurd (true≢false (sym x)))
        ])
