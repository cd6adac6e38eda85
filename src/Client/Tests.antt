-- ===== src/Client/Tests.antt =====
-- A notification that carries the tag of an open order.
use rithmic_nt_connect.Base.{◌≡◌, refl, false}
use rithmic_nt_connect.Client.Identity.{
  resolve_client_order_id, basket_client_id, resolve-not_closed,
}
use rithmic_nt_connect.Fixtures.{cache_of, open_order, fill}

resolve-not_closed_example : open_order.is_closed ≡ false
unfolding resolve_client_order_id basket_client_id
resolve-not_closed_example =
    resolve-not_closed (cache_of open_order) fill "O-1" open_order refl refl
