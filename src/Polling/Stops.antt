-- ===== src/Polling/Stops.antt =====
-- polling.py: the end of the order poll loop.
use rithmic_nt_connect.Base.{
  ℕ, zero, suc, true, false, Option, none, some, List, [], ◌∷◌, ◌≡◌, refl, leb, Bool-cases,
  Option-cases, ◌⊎◌, inl, inr, subst,
}
use rithmic_nt_connect.Core.Plant.{PlantState, resync_failed, allow_submit}
use rithmic_nt_connect.Polling.{
  PlantPoller, PollEvent, gap, event, Polled, events, transient, raised, Handled, handled,
  unreadable_event, handler_failed, Outcome, stopped, continues, Handling, broke, lost, handle,
  call_if, for_order, resync, poll_iteration, after_batch, after_gap, is_terminal_poll_error,
  is_channel, nothing_read, recover_gap, Read, run, continue_run, poll_session_events,
}

-- The order poller of the execution client: it latches the plant on an anomaly and takes it down when
-- the stream is over, and the plant's state is a part of the client's.
pub record OrderPoller {S E : Type 0} (p : PlantPoller S E) (plant : S → PlantState) : Type 0 where
  pub for_orders : p.is_order ≡ true
  pub latch_now : S → S
  pub latches : p.on_latch ≡ some latch_now
  pub latched : (s : S) → plant (latch_now s) ≡ PlantState.latched
  pub down_now : S → S
  pub takes_down : p.on_resync_failed ≡ some down_now
  pub down : (s : S) → plant (down_now s) ≡ resync_failed (plant s)

abbrev Closed : {S : Type 0} → (S → PlantState) → S → Type 0
Closed plant s = allow_submit (plant s) ≡ false

failed_closes : (q : PlantState) → allow_submit (resync_failed q) ≡ false
unfolding allow_submit resync_failed
failed_closes PlantState.disconnected = refl
failed_closes PlantState.connecting = refl
failed_closes PlantState.live = refl
failed_closes PlantState.resyncing = refl
failed_closes PlantState.latched = refl

Handled-cases : (r : Handled) → (r ≡ handled) ⊎ ((r ≡ unreadable_event) ⊎ (r ≡ handler_failed))
Handled-cases handled = inl refl
Handled-cases unreadable_event = inr (inl refl)
Handled-cases handler_failed = inr (inr refl)

module _ {S E : Type 0} (p : PlantPoller S E) (plant : S → PlantState)
    (o : OrderPoller p plant) where
  latch_closes : (s : S) → Closed plant (call_if p.on_latch s)
  unfolding call_if allow_submit
  latch_closes s = rw (o.latches, o.latched s) refl

  failure_closes : (s : S) → Closed plant (for_order p p.on_resync_failed s)
  unfolding for_order call_if
  failure_closes s = rw (o.for_orders, o.takes_down, o.down s) (failed_closes (plant s))

  abbrev StopsClosed : Handling × S → Type 0
  StopsClosed (broke, s) = Closed plant s
  StopsClosed (lost n, s) = Unit {0}

  abbrev EndsClosed : Option (Outcome × S) → Type 0
  EndsClosed none = Unit {0}
  EndsClosed (some (stopped, s)) = Closed plant s
  EndsClosed (some (continues b k, s)) = Unit {0}

  handle_closes : (es : List (PollEvent E)) (n : ℕ) (s : S) → StopsClosed (handle p es n s)
  unfolding handle
  handle_closes [] n s = tt
  handle_closes (gap ∷ es) n s = handle_closes es (suc n) s
  handle_closes (event x ∷ es) n s = elim (Handled-cases (p.on_event x s).0) [
    | inl e ↦ rw (e, handle) (handle_closes es n (p.on_event x s).1)
    | inr (inl e) ↦ rw (e, handle) (handle_closes es (suc n) (p.on_event x s).1)
    | inr (inr e) ↦ rw (e, o.for_orders, handle) (latch_closes (p.on_event x s).1)
  ]

  resync_closes : (b k : ℕ) (s : S) → EndsClosed (some (resync p b k s))
  unfolding resync
  resync_closes b k s = elim (Bool-cases (p.on_resync (for_order p p.on_resync_start s)).0) [
    | inl e ↦ rw (e, resync) tt
    | inr e ↦ rw (e, resync) tt
  ]

  gap_closes : (b k : ℕ) (r : Option S) → EndsClosed (after_gap p b k r)
  unfolding after_gap
  gap_closes b k none = tt
  gap_closes b k (some s) = tt

  batch_closes :
      (fuel b k : ℕ) (r : Handling × S) → StopsClosed r → EndsClosed (after_batch p fuel b k r)
  unfolding after_batch
  batch_closes fuel b k (broke, s) c = c
  batch_closes fuel b k (lost zero, s) c = tt
  batch_closes fuel b k (lost (suc n), s) c = elim (Option-cases p.on_gap) [
    | inl e ↦ rw (e, after_batch) (resync_closes b k s)
    | inr (g, e) ↦ rw (e, after_batch) (gap_closes b k (recover_gap p fuel g s))
  ]

  -- Whenever an iteration ends the order poll loop, submits are closed: the plant is latched or down,
  -- whatever the read, the callbacks and the state before it were.
  pub stopped_iteration_closes :
      (fuel : ℕ) (r : Polled E) (b k : ℕ) (s : S) → EndsClosed (poll_iteration p fuel r b k s)
  unfolding poll_iteration
  stopped_iteration_closes fuel transient b k s = elim (Bool-cases (leb p.max_transient (suc k))) [
    | inl e ↦ rw (o.for_orders, e, poll_iteration) (latch_closes s)
    | inr e ↦ rw (o.for_orders, e, poll_iteration) tt
  ]
  stopped_iteration_closes fuel (raised f) b k s = elim (Bool-cases (is_terminal_poll_error f)) [
    | inl e ↦ rw (e, poll_iteration) (failure_closes s)
    | inr e ↦ elim (Bool-cases (is_channel f.cls)) [
      | inl c ↦ rw (e, c, poll_iteration) (resync_closes b k s)
      | inr c ↦ rw (e, c, poll_iteration) tt
    ]
  ]
  stopped_iteration_closes fuel (events es) b k s = elim (Bool-cases (nothing_read p es)) [
    | inl e ↦ rw (e, poll_iteration) tt
    | inr e ↦
        rw (e, poll_iteration) (batch_closes fuel b k (handle p es 0 s) (handle_closes es 0 s))
  ]

  run_closes : (fuel : ℕ) (rs : List (Read E)) (b k : ℕ) (s : S) → EndsClosed (run p fuel rs b k s)
  unfolding run continue_run
  run_closes fuel [] b k s = tt
  run_closes fuel (r ∷ rs) b k s =
      next (poll_iteration p fuel (poll_session_events r) b k s)
        (stopped_iteration_closes fuel (poll_session_events r) b k s) (run_closes fuel rs)
    where
      next :
          (x : Option (Outcome × S))
          → EndsClosed x
          → ((b1 k1 : ℕ) (s1 : S) → EndsClosed (run p fuel rs b1 k1 s1))
          → EndsClosed (continue_run p x (run p fuel rs))
      next none c ih = tt
      next (some (stopped, s1)) c ih = c
      next (some (continues b1 k1, s1)) c ih = ih b1 k1 s1

  -- However the order poll loop comes to its end, over any reads of the stream and with any
  -- callbacks that latch the plant or take it down as the client's do, no submit is allowed then.
  pub ended_loop-closed :
      (fuel : ℕ) (rs : List (Read E)) (b k : ℕ) (s s1 : S)
      → run p fuel rs b k s ≡ some (stopped, s1)
      → allow_submit (plant s1) ≡ false
  ended_loop-closed fuel rs b k s s1 e = subst EndsClosed e (run_closes fuel rs b k s)
