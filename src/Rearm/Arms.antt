-- ===== src/Rearm/Arms.antt =====
-- execution.py: what a connect has done when it leaves the order plant armed.
use rithmic_nt_connect.Base.{
  Bool, true, false, not, ◌&&◌, List, [], ◌∷◌, ◌⊎◌, inl, inr, if◌then◌else◌, ℤ, ◌≡◌, refl, ◌∙◌, ap,
}
use rithmic_nt_connect.Values.{Result, Error, ok, err, query_unavailable}
use rithmic_nt_connect.Core.Plant
use rithmic_nt_connect.Core.Plant.{PlantState, connecting}
use rithmic_nt_connect.Notice.{Wire}
use rithmic_nt_connect.Core.Rates.{CommissionTable}
use rithmic_nt_connect.Nautilus.{Library}
use rithmic_nt_connect.OrderPlant.{begin_connect, disconnect, latch, rearm, allow_submit}
use rithmic_nt_connect.Client.State.{Host, ◌>>=◌, continue, pure, raise, lift}
use rithmic_nt_connect.Client.Returned.{returned}
use rithmic_nt_connect.Recon.Reports.{apply_drain_rows}
use rithmic_nt_connect.Rearm.Account.{resolve-plant}
use rithmic_nt_connect.Rearm.{
  Answers, SessionCall, subscribe_order_updates, subscribe_bracket_updates, disconnect_order_plant,
  subscriptions, call_each, torn_down, resolve_and_seed_account, await_pnl, load_rates, settle,
  rearm_after_reconnect, barrier, subscribed_plant, connect_order_plant,
}

not_connecting : (p : PlantState) → p ≡ connecting → Plant.allow_submit p ≡ true → ⊥
unfolding Plant.allow_submit
not_connecting connecting c s = cc
not_connecting PlantState.disconnected c s = cc
not_connecting PlantState.live c s = cc
not_connecting PlantState.resyncing c s = cc
not_connecting PlantState.latched c s = cc

-- Both subscriptions were called, in order, and succeeded, and nothing was torn down.
pub record OrderFeeds (session : SessionCall → Result (Unit {0})) (made : List SessionCall)
    : Type 0 where
  pub calls_made : made ≡ subscribe_order_updates ∷ subscribe_bracket_updates ∷ []
  pub order_updates : session subscribe_order_updates ≡ ok tt
  pub bracket_updates : session subscribe_bracket_updates ≡ ok tt

answer-cases : (r : Result (Unit {0})) → (r ≡ ok tt) ⊎ ((e : Error) × (r ≡ err e))
answer-cases (ok tt) = inl refl
answer-cases (err e) = inr (e, refl)

torn_down-err :
    (session : SessionCall → Result (Unit {0})) (e : Error) → (torn_down session e).1 ≡ err e
unfolding torn_down
torn_down-err session e = elim (answer-cases (session disconnect_order_plant)) [
  | inl p ↦ rw (p, torn_down) refl
  | inr (x, p) ↦ rw (p, torn_down) refl
]

ok_is_not_err : {e : Error} {r : Result (Unit {0})} → r ≡ err e → r ≡ ok tt → ⊥
ok_is_not_err p q = cc

subscriptions-OrderFeeds :
    (session : SessionCall → Result (Unit {0}))
    → (subscriptions session).1 ≡ ok tt
    → OrderFeeds session (subscriptions session).0
unfolding subscriptions call_each
subscriptions-OrderFeeds session s = elim (answer-cases (session subscribe_order_updates)) [
  | inr (e, p) ↦ absurd (ok_is_not_err (failed e (simp (p, subscriptions, call_each))) s)
  | inl p ↦ elim (answer-cases (session subscribe_bracket_updates)) [
    | inr (e, q) ↦ absurd (ok_is_not_err (failed e (simp (p, q, subscriptions, call_each))) s)
    | inl q ↦ record {
      calls_made = simp (p, q, subscriptions, call_each);
      order_updates = p;
      bracket_updates = q;
    }
  ]
]
  where
    failed :
        (e : Error)
        → (subscriptions session).1 ≡ (torn_down session e).1
        → (subscriptions session).1 ≡ err e
    failed e p = p ∙ torn_down-err session e

module _ {Price : Type 0} where
  -- When settling leaves a submit allowed.
  settled :
      (r : Result (Unit {0})) (alive : Bool) (h : Host Price)
      → allow_submit (settle r alive h).order_plant ≡ true
      → (r ≡ ok tt) × ((alive ≡ true) × (h.order_plant.core ≡ connecting))
  unfolding settle allow_submit latch rearm Plant.allow_submit Plant.latch Plant.rearm
  settled (err e) alive h s = cc
  settled (ok tt) alive h s = go alive h.order_plant.core s
    where
      go :
          (alive : Bool) (c : PlantState)
          → Plant.allow_submit (Plant.rearm alive c).0 ≡ true
          → (◌≡◌ {A = Result (Unit {0})} (ok tt) (ok tt)) × ((alive ≡ true) × (c ≡ connecting))
      go true connecting s = (refl, (refl, refl))
      go true PlantState.disconnected s = cc
      go true PlantState.live s = cc
      go true PlantState.resyncing s = cc
      go true PlantState.latched s = cc
      go false connecting s = cc
      go false PlantState.disconnected s = cc
      go false PlantState.live s = cc
      go false PlantState.resyncing s = cc
      go false PlantState.latched s = cc

module _ {Price : Type 0} (nt : Library Price) where
  -- A barrier that returned has loaded a drain and, where there is a PnL stream, seen it deliver.
  rearmed :
      (a : Answers) (now : ℤ) (h : Host Price)
      → (rearm_after_reconnect nt a now h).0 ≡ ok tt
      → ((events : List Wire) × (a.loaded ≡ ok events))
        × ((a.pnl_connected && not a.pnl_observed) ≡ false)
  unfolding rearm_after_reconnect lift await_pnl raise pure
  rearmed a now h e =
      let (events, (p, e1)) = returned (lift a.loaded) _ h tt e in
      let (u, (q, e2)) = returned (apply_drain_rows nt events now) _ _ tt e1 in
      let (v, (r, e3)) = returned (await_pnl a.pnl_connected a.pnl_observed) _ _ tt e2 in
      ((events, p), gate _ (a.pnl_connected && not a.pnl_observed) r)
    where
      gate :
          (h : Host Price) {v : Unit {0}} (b : Bool)
          → ((if b then raise query_unavailable else pure tt) h).0 ≡ ok v
          → b ≡ false
      gate h true r = cc
      gate h false r = refl

  -- What an armed plant after a connect stands for; `made` are the calls of the session.
  pub record Armed (a : Answers) (made : List SessionCall) : Type 0 where
    pub subscribed : OrderFeeds a.session made
    pub drained : (events : List Wire) × (a.loaded ≡ ok events)
    pub observed : (a.pnl_connected && not a.pnl_observed) ≡ false
    pub alive : a.poll_alive ≡ true

  barrier-Armed :
      (a : Answers) (now : ℤ) (h : Host Price) (made : List SessionCall)
      → OrderFeeds a.session made
      → allow_submit (barrier nt a now h).1.order_plant ≡ true
      → Armed a made
  unfolding barrier
  barrier-Armed a now h made u s =
      let (done, (alive, still)) = settled (rearm_after_reconnect nt a now h).0 a.poll_alive _ s in
      let (drained, observed) = rearmed a now h done in
      record { subscribed = u; drained = drained; observed = observed; alive = alive }

  subscribed-Armed :
      (a : Answers) (now : ℤ) (r : Result (Unit {0})) (h : Host Price) (made : List SessionCall)
      → (r ≡ ok tt → OrderFeeds a.session made)
      → h.order_plant.core ≡ connecting
      → allow_submit (subscribed_plant nt a now r h).1.order_plant ≡ true
      → Armed a made
  unfolding subscribed_plant ◌>>=◌ continue load_rates allow_submit disconnect Plant.allow_submit
      Plant.disconnect
  subscribed-Armed a now (err e) h made u c s = cc
  subscribed-Armed a now (ok tt) h made u c s =
      resolved (resolve_and_seed_account a.resolved h).0 (resolve_and_seed_account a.resolved h).1
        (ap (λ p. p.core) (resolve-plant a.resolved h) ∙ c) s
    where
      rated :
          (t : Result CommissionTable) (h : Host Price)
          → h.order_plant.core ≡ connecting
          → allow_submit ((load_rates t >>= λ u. barrier nt a now) h).1.order_plant ≡ true
          → Armed a made
      rated (err e) h c s = absurd (not_connecting h.order_plant.core c s)
      rated (ok t) h c s = barrier-Armed a now _ made (u refl) s

      resolved :
          (r : Result (Unit {0})) (h : Host Price)
          → h.order_plant.core ≡ connecting
          → allow_submit
              (continue r (λ u. load_rates a.rates >>= λ u. barrier nt a now) h).1.order_plant
            ≡ true
          → Armed a made
      resolved (err e) h c s = absurd (not_connecting h.order_plant.core c s)
      resolved (ok u) h c s = rated a.rates h c s

  -- When the order plant's part of a connect leaves submits allowed, the subscriptions to order
  -- updates and to bracket updates were both called, in this order and with no teardown after them,
  -- and both succeeded, a drain was loaded, the PnL stream delivered if there is one, and the poll loop was
  -- alive, whatever other tasks did to the plant while the barrier waited.
  pub connect_arms_after_barrier :
      (a : Answers) (now : ℤ) (h : Host Price)
      → allow_submit (connect_order_plant nt a now h).1.1.order_plant ≡ true
      → Armed a (connect_order_plant nt a now h).0
  unfolding connect_order_plant begin_connect Plant.begin_connect
  connect_arms_after_barrier a now h s =
      subscribed-Armed a now (subscriptions a.session).1 _ (subscriptions a.session).0
        (subscriptions-OrderFeeds a.session) refl s
