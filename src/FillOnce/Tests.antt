-- ===== src/FillOnce/Tests.antt =====
-- A fill that comes twice over the live feed and once more in a reconciliation.
use rithmic_nt_connect.Base.{◌≤◌, ◌+◌, suc, refl, List, [], ◌∷◌, ℤ, pos, none, arith}
use rithmic_nt_connect.Notice.Identity.{fill_identity_ts}
use rithmic_nt_connect.Core.Lru.Eviction.{new-IsValid}
use rithmic_nt_connect.Core.Lru.{new}
use rithmic_nt_connect.Client.Keeps.Quiet.{fill_events}
use rithmic_nt_connect.FillOnce.{StoreOk}
use rithmic_nt_connect.FillOnce.Sequences.{
  Delivery, notified, reconciled, delivery_key, deliver_all, one_fill_one_report,
}
use rithmic_nt_connect.Fixtures.{library, host_with, cache_of, open_order, fill, row}

abbrev three_deliveries : List (Delivery ℤ)
three_deliveries =
    notified fill (pos 7) ∷ notified fill (pos 8) ∷ reconciled none none (pos 9) row ∷ []

store_ok : StoreOk (host_with (cache_of open_order))
unfolding new
store_ok = record { valid = new-IsValid 10000; room = omega arith }

one_fill_one_report_example :
    fill_events (deliver_all library three_deliveries (host_with (cache_of open_order))).0.emitted
      + (deliver_all library three_deliveries (host_with (cache_of open_order))).1
    ≤ suc (fill_events (host_with (cache_of open_order)).emitted)
unfolding delivery_key fill_identity_ts
one_fill_one_report_example =
    one_fill_one_report library (delivery_key library (notified fill (pos 7))) three_deliveries
      (host_with (cache_of open_order)) (refl, (refl, (refl, tt))) store_ok
