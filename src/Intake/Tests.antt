-- ===== src/Intake/Tests.antt =====
-- A tracked fill without a price, and one with it.
use rithmic_nt_connect.Nautilus.{Event}
use rithmic_nt_connect.Base.{true, [], ◌∷◌, ◌++◌, ◌≡◌, refl, pos, ℤ, List, arith}
use rithmic_nt_connect.Values.{Value, absent, is_number_error}
use rithmic_nt_connect.Client.Fills.{
  price_for_instrument, price_from_wire, commission_rate, priced_or_none,
}
use rithmic_nt_connect.Intake.Dispatch.{exceeds, handle_tracked_fill, fill_terms, required_price}
use rithmic_nt_connect.Intake.Tracked.{priced_fill_is_sent, AllGatesShut}
use rithmic_nt_connect.Intake.Redelivered.{
  Delivery, deliver_all, event_of, unpriced_fill_is_sent_later,
}
use rithmic_nt_connect.Core.Lru.{new}
use rithmic_nt_connect.Core.Lru.Eviction.{new-IsValid}
use rithmic_nt_connect.Fixtures.{library, host_with, cache_of, open_order, fill}

-- The fill comes without a price, then twice with one.
abbrev delivery : Value → Delivery ℤ
delivery px = record {
  order = open_order;
  cid = "O-1";
  vid = "b1";
  fields = fill;
  ts = pos 5;
  qty = pos 1;
  px = px;
  trade_id = "f1";
}

abbrev again : List (Delivery ℤ)
again = delivery fill.fill_price ∷ delivery fill.fill_price ∷ []

unpriced_fill_is_sent_later_example :
    AllGatesShut (deliver_all library (delivery absent ∷ again) (host_with (cache_of open_order)))
    × ((deliver_all library (delivery absent ∷ again) (host_with (cache_of open_order))).emitted
        ≡ event_of library
            (delivery fill.fill_price)
            (pos 1)
            (pos 100)
            (host_with (cache_of open_order))
          ∷ [])
unfolding fill_terms required_price priced_or_none is_number_error price_for_instrument
    price_from_wire new
unpriced_fill_is_sent_later_example =
    unpriced_fill_is_sent_later library (delivery absent) again (host_with (cache_of open_order))
      (new-IsValid 10000) (omega arith) refl refl (refl, (refl, tt))

priced_fill_is_sent_example :
    ((handle_tracked_fill library open_order "O-1" "b1" fill
        (pos 5)
        (pos 1)
        fill.fill_price
        "f1"
        (host_with (cache_of open_order))).1.emitted
      ≡ (host_with (cache_of open_order)).emitted
        ++ Event.filled "O-1" "b1" "f1"
            (pos 1)
            (pos 100)
            (commission_rate library (host_with (cache_of open_order)) "NQ.CME" fill.symbol)
            (pos 5)
          ∷ [])
    × (exceeds library (pos 1) open_order.leaves_qty ≡ true
        → AllGatesShut
            (handle_tracked_fill library open_order "O-1" "b1" fill
              (pos 5)
              (pos 1)
              fill.fill_price
              "f1"
              (host_with (cache_of open_order))).1)
unfolding fill_terms required_price priced_or_none price_for_instrument price_from_wire
priced_fill_is_sent_example =
    priced_fill_is_sent library open_order "O-1" "b1" fill (pos 5) (pos 1) (pos 1) fill.fill_price
      (pos 100) "f1" (host_with (cache_of open_order)) refl refl
