-- ===== src/OrderPlant/Arming.antt =====
-- What a sequence of calls on the order-plant policy can and cannot do to the right to trade.
use rithmic_nt_connect.Base.{
  ◌≡◌, refl, ◌⊎◌, inl, inr, Bool, true, false, List, [], ◌∷◌, ◌++◌, arith, ap,
}
use rithmic_nt_connect.Core.Plant.{PlantState}
use rithmic_nt_connect.OrderPlant.{
  OrderPlantPolicy, begin_connect, disconnect, latch, resync_start, resync_complete, resync_failed,
  rearm, allow_submit, state,
}

-- The calls that change the policy's state, in the order in which the client makes them.
pub data PlantCall : Type 0 where
  begins_connect disconnects latches starts_resync completes_resync fails_resync : PlantCall
  rearms : Bool → PlantCall

unfoldable pub call : PlantCall → OrderPlantPolicy → OrderPlantPolicy
unfolding begin_connect disconnect latch resync_start resync_complete resync_failed rearm
call begins_connect p = begin_connect p
call disconnects p = disconnect p
call latches p = latch p
call starts_resync p = resync_start p
call completes_resync p = resync_complete p
call fails_resync p = resync_failed p
call (rearms alive) p = (rearm alive p).0

unfoldable pub calls : List PlantCall → OrderPlantPolicy → OrderPlantPolicy
calls [] p = p
calls (c ∷ cs) p = calls cs (call c p)

-- The barrier's two ends with no anomaly between: `begin_connect`, calls that leave the plant
-- connecting, and a `rearm` with a live poll task.
pub record Barrier (p : OrderPlantPolicy) (cs : List PlantCall) : Type 0 where
  pub before : List PlantCall
  pub within : List PlantCall
  pub after : List PlantCall
  pub split : cs ≡ before ++ begins_connect ∷ within ++ rearms true ∷ after
  pub open_until_rearm :
      state (calls within (begin_connect (calls before p))) ≡ PlantState.connecting

abbrev pub IsArmed : OrderPlantPolicy → Type 0
IsArmed p = (state p ≡ PlantState.live) ⊎ (state p ≡ PlantState.resyncing)

-- The rest of a barrier that is already open.
record Closes (p : OrderPlantPolicy) (cs : List PlantCall) : Type 0 where
  within : List PlantCall
  after : List PlantCall
  split : cs ≡ within ++ rearms true ∷ after
  still : state (calls within p) ≡ PlantState.connecting

abbrev at_state : PlantState → OrderPlantPolicy
at_state s = record { core = s }

Barrier-cons :
    (c : PlantCall) (p : OrderPlantPolicy) (cs : List PlantCall)
    → Barrier (call c p) cs
    → Barrier p (c ∷ cs)
unfolding calls
Barrier-cons c p cs b = record {
  before = c ∷ b.before;
  within = b.within;
  after = b.after;
  split = ap (λ l. c ∷ l) b.split;
  open_until_rearm = b.open_until_rearm;
}

Closes-cons :
    (c : PlantCall) (p : OrderPlantPolicy) (cs : List PlantCall)
    → Closes (call c p) cs
    → Closes p (c ∷ cs)
unfolding calls
Closes-cons c p cs b = record {
  within = c ∷ b.within;
  after = b.after;
  split = ap (λ l. c ∷ l) b.split;
  still = b.still;
}

Barrier-opened :
    (p : OrderPlantPolicy) (cs : List PlantCall)
    → Closes (begin_connect p) cs
    → Barrier p (begins_connect ∷ cs)
unfolding calls
Barrier-opened p cs b = record {
  before = [];
  within = b.within;
  after = b.after;
  split = ap (λ l. begins_connect ∷ l) b.split;
  open_until_rearm = b.still;
}

Closes-now : (cs : List PlantCall) → Closes (at_state PlantState.connecting) (rearms true ∷ cs)
unfolding calls state
Closes-now cs = record { within = []; after = cs; split = refl; still = refl }

abbrev IsUnarmed : PlantState → Type 0
IsUnarmed PlantState.live = ⊥
IsUnarmed PlantState.resyncing = ⊥
IsUnarmed _ = Unit {0}

-- What an unarmed plant that ends up armed has been through.
abbrev Outcome : PlantState → List PlantCall → Type 0
Outcome s cs = ((s ≡ PlantState.connecting) × Closes (at_state s) cs) ⊎ Barrier (at_state s) cs

Outcome-cons :
    (c : PlantCall) (s : PlantState) (cs : List PlantCall)
    → IsUnarmed s
    → Outcome (call c (at_state s)).core cs
    → Outcome s (c ∷ cs)
unfolding call
Outcome-cons c s cs u (inr b) = inr (Barrier-cons c (at_state s) cs b)
Outcome-cons begins_connect s cs u (inl (e, k)) = inr (Barrier-opened (at_state s) cs k)
Outcome-cons completes_resync PlantState.connecting cs u (inl (e, k)) =
    inl (refl, Closes-cons completes_resync (at_state PlantState.connecting) cs k)
Outcome-cons (rearms true) _ cs u (inl (e, k)) = absurd (ground arith)
Outcome-cons (rearms false) _ cs u (inl (e, k)) = absurd (ground arith)
Outcome-cons c s cs u (inl (e, k)) = absurd (ground arith)

call-IsUnarmed :
    (c : PlantCall) (s : PlantState)
    → IsUnarmed s
    → IsUnarmed (call c (at_state s)).core ⊎ ((s ≡ PlantState.connecting) × (c ≡ rearms true))
unfolding call
call-IsUnarmed (rearms true) PlantState.connecting u = inr (refl, refl)
call-IsUnarmed (rearms false) PlantState.connecting u = inl tt
call-IsUnarmed (rearms true) PlantState.disconnected u = inl tt
call-IsUnarmed (rearms false) PlantState.disconnected u = inl tt
call-IsUnarmed (rearms true) PlantState.latched u = inl tt
call-IsUnarmed (rearms false) PlantState.latched u = inl tt
call-IsUnarmed (rearms b) PlantState.live u = absurd u
call-IsUnarmed (rearms b) PlantState.resyncing u = absurd u
call-IsUnarmed begins_connect s u = inl tt
call-IsUnarmed disconnects s u = inl tt
call-IsUnarmed latches s u = inl tt
call-IsUnarmed starts_resync PlantState.connecting u = inl tt
call-IsUnarmed starts_resync PlantState.disconnected u = inl tt
call-IsUnarmed starts_resync PlantState.latched u = inl tt
call-IsUnarmed starts_resync s u = absurd u
call-IsUnarmed completes_resync PlantState.connecting u = inl tt
call-IsUnarmed completes_resync PlantState.disconnected u = inl tt
call-IsUnarmed completes_resync PlantState.latched u = inl tt
call-IsUnarmed completes_resync s u = absurd u
call-IsUnarmed fails_resync PlantState.connecting u = inl tt
call-IsUnarmed fails_resync PlantState.disconnected u = inl tt
call-IsUnarmed fails_resync PlantState.latched u = inl tt
call-IsUnarmed fails_resync s u = absurd u

submit-outcome :
    (cs : List PlantCall) (s : PlantState)
    → IsUnarmed s
    → allow_submit (calls cs (at_state s)) ≡ true
    → Outcome s cs
unfolding calls allow_submit
submit-outcome [] s u h = absurd (ground arith)
submit-outcome (c ∷ cs) s u h = elim (call-IsUnarmed c s u) [
  | inl v ↦ Outcome-cons c s cs u (submit-outcome cs (call c (at_state s)).core v h)
  | inr (p, q) ↦ rw (p, q) (inl (refl, Closes-now cs))
]

-- From a policy that is down or latched, whatever calls are made, a submit is allowed afterwards
-- only if they contain a whole barrier: a `begin_connect`, calls that leave the plant connecting,
-- and a `rearm` with a live poll task.
pub submit_needs_Barrier :
    (p : OrderPlantPolicy) (cs : List PlantCall)
    → (p.core ≡ PlantState.disconnected) ⊎ (p.core ≡ PlantState.latched)
    → allow_submit (calls cs p) ≡ true
    → Barrier p cs
submit_needs_Barrier p cs (inl e) a = elim (submit-outcome cs p.core (rw e tt) a) [
  | inl (q, _) ↦ cc
  | inr b ↦ b
]
submit_needs_Barrier p cs (inr e) a = elim (submit-outcome cs p.core (rw e tt) a) [
  | inl (q, _) ↦ cc
  | inr b ↦ b
]
