-- ===== src/Rearm.antt =====
-- execution.py: the order plant's part of a connect, and the barrier before it is armed.
pub mod Account
pub mod Arms
pub mod Tests
use rithmic_nt_connect.Base.{
  String, Bool, true, false, not, ◌&&◌, Option, none, some, List, [], ◌∷◌, if◌then◌else◌, ℤ,
  is_some,
}
use rithmic_nt_connect.Values.{Result, ok, err, Error, query_unavailable, has_text}
use rithmic_nt_connect.Core.Rates.{CommissionTable}
use rithmic_nt_connect.Notice.{Wire}
use rithmic_nt_connect.Nautilus.{Library}
use rithmic_nt_connect.OrderPlant
use rithmic_nt_connect.OrderPlant.{begin_connect, disconnect, latch, rearm}
use rithmic_nt_connect.OrderPlant.Arming.{PlantCall, calls}
use rithmic_nt_connect.Client.State.{
  Host, Action, ◌>>=◌, ◌>>◌, pure, raise, lift, seed_account_if_needed,
}
use rithmic_nt_connect.Recon.Reports.{apply_drain_rows}

-- A call of the session that the order plant's part of a connect makes for its subscriptions.
pub data SessionCall : Type 0 where
  subscribe_order_updates subscribe_bracket_updates disconnect_order_plant : SessionCall

-- What the session and the other tasks do during one connect. `session` answers the calls. `meanwhile` are the calls that the
-- poll loop and the transport's callbacks make on the plant while the barrier waits.
pub record Answers : Type 0 where
  pub session : SessionCall → Result (Unit {0})
  pub resolved : Result (Option String)
  pub rates : Result CommissionTable
  pub loaded : Result (List Wire)
  pub pnl_connected : Bool
  pub pnl_observed : Bool
  pub resolved_late : Result (Option String)
  pub meanwhile : List PlantCall
  pub poll_alive : Bool

-- the calls that were made, in order, and the failure of the first that failed
abbrev Made : Type 0
Made = List SessionCall × Result (Unit {0})

-- `disconnect_order_plant` after a failed subscription; its own failure is logged and swallowed
unfoldable pub torn_down : (SessionCall → Result (Unit {0})) → Error → Made
torn_down session e = elim (session disconnect_order_plant) [
  | ok u ↦ (disconnect_order_plant ∷ [], err e)
  | err teardown ↦ (disconnect_order_plant ∷ [], err e)
]

unfoldable pub call_each : (SessionCall → Result (Unit {0})) → List SessionCall → Made
call_each session [] = ([], ok tt)
call_each session (c ∷ cs) =
    let (made, answer) = call_each session cs in
    elim (session c) [
      | ok u ↦ (c ∷ made, answer)
      | err e ↦ (let (after, r) = torn_down session e in (c ∷ after, r))
    ]

-- the two subscriptions, each reached only when the one before it succeeded
unfoldable pub subscriptions : (SessionCall → Result (Unit {0})) → Made
subscriptions session = call_each session (subscribe_order_updates ∷ subscribe_bracket_updates ∷ [])

module _ {Price : Type 0} where
  unfoldable pub with_resolved : Result (Option String) → Host Price → Host Price
  with_resolved (ok (some id)) h =
      if has_text (some id) then record h { resolved_account_raw = some id } else h
  with_resolved answer h = h

  -- `_refresh_resolved_account`; a failed look-up changes nothing
  unfoldable pub refresh_resolved_account : Result (Option String) → Host Price → Host Price
  refresh_resolved_account answer h =
      if is_some h.resolved_account_raw then h else with_resolved answer h

  -- `_resolve_and_seed_account`
  unfoldable pub resolve_and_seed_account : Result (Option String) → Action Price (Unit {0})
  resolve_and_seed_account answer h =
      seed_account_if_needed none (refresh_resolved_account answer h)

  -- `_await_pnl_snapshot`, when there is a stream to wait for
  unfoldable pub await_pnl : Bool → Bool → Action Price (Unit {0})
  await_pnl connected observed =
      if connected && not observed then raise query_unavailable else pure tt

  unfoldable pub load_rates : Result CommissionTable → Action Price (Unit {0})
  load_rates (err e) h = (err e, h)
  load_rates (ok table) h = (ok tt, record h { commissions = table })

  unfoldable pub others : List PlantCall → Host Price → Host Price
  others cs h = record h { order_plant = calls cs h.order_plant }

  -- a failed barrier latches; after a good one only `rearm` may arm
  unfoldable pub settle : Result (Unit {0}) → Bool → Host Price → Host Price
  settle (err e) poll_alive h = record h { order_plant = latch h.order_plant }
  settle (ok u) poll_alive h = record h { order_plant = (rearm poll_alive h.order_plant).0 }

module _ {Price : Type 0} (nt : Library Price) where
  -- `_rearm_after_reconnect`
  unfoldable pub rearm_after_reconnect : Answers → ℤ → Action Price (Unit {0})
  rearm_after_reconnect a now = do
    events ← lift a.loaded
    apply_drain_rows nt events now
    await_pnl a.pnl_connected a.pnl_observed
    resolve_and_seed_account a.resolved_late

  unfoldable pub barrier : Answers → ℤ → Action Price (Unit {0})
  barrier a now h =
      let (r, h1) = rearm_after_reconnect a now h in
      (ok tt, settle r a.poll_alive (others a.meanwhile h1))

  -- after both subscriptions; where one failed, the plant is down and the failure goes on
  unfoldable pub subscribed_plant : Answers → ℤ → Result (Unit {0}) → Action Price (Unit {0})
  subscribed_plant a now (err e) h = (err e, record h { order_plant = disconnect h.order_plant })
  subscribed_plant a now (ok u) h =
      (do resolve_and_seed_account a.resolved; load_rates a.rates; barrier a now) h

  -- the order plant's part of `_connect_attempt`: the calls of the session that it made, and what it
  -- did to the client
  unfoldable pub connect_order_plant :
      Answers → ℤ → Host Price → List SessionCall × (Result (Unit {0}) × Host Price)
  connect_order_plant a now h =
      let (made, answer) = subscriptions a.session in
      (made, subscribed_plant a now answer (record h { order_plant = begin_connect h.order_plant }))
