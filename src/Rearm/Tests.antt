-- ===== src/Rearm/Tests.antt =====
-- A connect of a latched plant that goes well.
use rithmic_nt_connect.Base.{true, none, some, [], ◌∷◌, refl}
use rithmic_nt_connect.Values.{ok}
use rithmic_nt_connect.Core.Plant.{PlantState}
use rithmic_nt_connect.Client.State.{Host, ◌>>=◌, seed_account_if_needed}
use rithmic_nt_connect.Base.{ℤ, pos}
use rithmic_nt_connect.Recon.Reports.{
  apply_drain_rows, latest_drain_rows, apply_rows, freshest_rows,
}
use rithmic_nt_connect.Recon.Rows.{iter_drain_rows}
use rithmic_nt_connect.Core.DrainRules.{freshest_per_key}
use rithmic_nt_connect.OrderPlant.{allow_submit, rearm, begin_connect}
use rithmic_nt_connect.OrderPlant.Arming.{calls}
use rithmic_nt_connect.Fixtures.{library, host_with, empty_cache}
use rithmic_nt_connect.Rearm.{
  Answers, subscribe_order_updates, subscribe_bracket_updates, subscriptions, call_each,
  connect_order_plant, subscribed_plant, resolve_and_seed_account, refresh_resolved_account,
  with_resolved, load_rates, barrier, settle, rearm_after_reconnect, await_pnl, others,
}
use rithmic_nt_connect.Rearm.Arms.{Armed, connect_arms_after_barrier}

abbrev good : Answers
good = record {
  session = λ c. ok tt;
  resolved = ok (some "ACC");
  rates = ok (record { rates = []; default = none });
  loaded = ok [];
  pnl_connected = true;
  pnl_observed = true;
  resolved_late = ok none;
  meanwhile = [];
  poll_alive = true;
}

abbrev latched_host : Host ℤ
latched_host = record (host_with empty_cache) { order_plant = record { core = PlantState.latched } }

connect_arms_after_barrier_example :
    Armed library good (subscribe_order_updates ∷ subscribe_bracket_updates ∷ [])
unfolding connect_order_plant subscriptions call_each allow_submit subscribed_plant ◌>>=◌
    resolve_and_seed_account seed_account_if_needed refresh_resolved_account with_resolved
    load_rates barrier settle rearm_after_reconnect apply_drain_rows latest_drain_rows
    iter_drain_rows apply_rows freshest_rows freshest_per_key await_pnl others calls rearm
    begin_connect
connect_arms_after_barrier_example =
    connect_arms_after_barrier library good (pos 5) latched_host refl
