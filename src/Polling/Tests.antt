-- ===== src/Polling/Tests.antt =====
-- Pollers on a plant, with handlers that fail or succeed.
use rithmic_nt_connect.Base.{ℕ, ◌≡◌, refl, [], ◌∷◌, true, false, some, none, arith}
use rithmic_nt_connect.Core.Plant.{PlantState, latch, resync_failed, allow_submit}
use rithmic_nt_connect.Polling.{
  PlantPoller, returned, failed, event, Failure, ErrorClass, handled, handler_failed, run,
  poll_session_events, Handled, continue_run, poll_iteration, nothing_read, after_batch, handle,
  call_if,
}
use rithmic_nt_connect.Polling.Stops.{OrderPoller, ended_loop-closed}
use rithmic_nt_connect.Polling.Streak.{transient_failures_add_up, StreakEnd}

abbrev poller : Handled → PlantPoller PlantState ℕ
poller result = record {
  is_order = true;
  has_batch_fn = true;
  max_transient = 2;
  on_event = λ e s. (result, s);
  on_resync = λ s. (true, s);
  on_gap = none;
  on_latch = some latch;
  on_resync_start = none;
  on_resync_failed = some resync_failed;
}

poller-OrderPoller : OrderPoller (poller handler_failed) (λ s. s)
unfolding latch
poller-OrderPoller = record {
  for_orders = refl;
  latch_now = latch;
  latches = refl;
  latched = λ s. refl;
  down_now = resync_failed;
  takes_down = refl;
  down = λ s. refl;
}

ended_loop-closed_example : allow_submit PlantState.latched ≡ false
unfolding run latch continue_run poll_iteration poll_session_events nothing_read after_batch handle
    call_if
ended_loop-closed_example =
    ended_loop-closed (poller handler_failed) (λ s. s) poller-OrderPoller 3
      (returned (event 4 ∷ []) ∷ []) 1 0 PlantState.live PlantState.latched refl

abbrev timeout : Failure
timeout = record { cls = ErrorClass.other; code = none; text = "timeout" }

transient_failures_add_up_example :
    StreakEnd
      (poller handled)
      refl
      (λ e s. refl)
      1
      2
      (run
        (poller handled)
        3
        (failed timeout ∷ returned (event 4 ∷ []) ∷ failed timeout ∷ [])
        1
        0
        PlantState.live)
unfolding poll_session_events
transient_failures_add_up_example =
    transient_failures_add_up (poller handled) refl (λ e s. refl) 3
      (failed timeout ∷ returned (event 4 ∷ []) ∷ failed timeout ∷ []) 1 0 PlantState.live
      (refl, (tt, (refl, tt))) (omega arith)
