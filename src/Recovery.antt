-- ===== src/Recovery.antt =====
-- python/rithmic_nt_connect/recovery_bridge.py: `TransportRecoveryBridge`, which runs one restore at
-- a time after a transport break. The task runs in one event loop, so between two awaits its code is
-- one step; a step is an event of the transport or the end of one restore attempt. Sleeps, logs and
-- the client's handlers (`restore`, `on_down`, `on_failed`, `latch_now`) are not part of the state.
pub mod Newest
pub mod Tests
use rithmic_nt_connect.Base.{
  ℕ, zero, suc, Bool, true, false, ◌&&◌, Option, none, some, List, [], ◌∷◌, if◌then◌else◌, leb, ltb,
}

-- the restore that runs: its generation and its attempt
pub record Restore : Type 0 where
  pub generation : ℕ
  pub attempt : ℕ

-- `task` is the restore task while it is not done.
pub record Bridge : Type 0 where
  pub task : Option Restore
  pub pending_generation : ℕ
  pub last_generation : ℕ
  pub max_attempts : ℕ

pub data BridgeEvent : Type 0 where
  resumed : (generation : ℕ) → BridgeEvent
  interrupted recovery_failed detached : BridgeEvent
  attempt_restored attempt_failed : BridgeEvent

unfoldable pub larger : ℕ → ℕ → ℕ
larger a b = if leb a b then b else a

-- The loop of `_attempts` at its first attempt; with no attempt allowed it ends at once.
unfoldable pub first_attempt : ℕ → Bridge → Bridge
first_attempt generation b =
    if ltb 0 b.max_attempts
    then record b { task = some (record { generation = generation; attempt = 1 }) }
    else record b { task = none }

-- `_run` after the attempts for a generation: it takes the pending one, or ends
unfoldable pub settle : ℕ → Bridge → Bridge
unfolding first_attempt larger
settle generation b =
    if leb b.pending_generation (larger generation b.last_generation)
    then record b { task = none; pending_generation = 0 }
    else first_attempt b.pending_generation (record b { pending_generation = 0 })

-- `_start` of `schedule`
unfoldable pub start : ℕ → Bridge → Bridge
unfolding first_attempt larger
start generation b = if leb generation b.last_generation then b else elim (b.task) [
  | some r ↦ record b { pending_generation = larger b.pending_generation generation }
  | none ↦ first_attempt generation b
]

-- one round of `_attempts`: the restore returned, or raised
unfoldable pub attempt_done : Bool → Bridge → Bridge
unfolding settle
attempt_done restored b = elim (b.task) [
  | none ↦ b
  | some r ↦
      if restored
      then settle r.generation (record b { last_generation = r.generation })
      else if ltb r.attempt b.max_attempts
      then record b { task = some (record r { attempt = suc r.attempt }) }
      else settle r.generation b
]

-- `_stop_restore`
unfoldable pub stop_restore : Bridge → Bridge
stop_restore b = record b { task = none; pending_generation = 0 }

-- `detach`
unfoldable pub detach : Bridge → Bridge
detach b = record b { task = none; pending_generation = 0; last_generation = 0 }

-- `on_event`, the rounds of the running task, and `detach`
unfoldable pub step : BridgeEvent → Bridge → Bridge
unfolding start stop_restore detach attempt_done
step (resumed generation) b = start generation b
step interrupted b = stop_restore b
step recovery_failed b = stop_restore b
step detached b = detach b
step attempt_restored b = attempt_done true b
step attempt_failed b = attempt_done false b

unfoldable pub steps : List BridgeEvent → Bridge → Bridge
unfolding step
steps [] b = b
steps (e ∷ es) b = steps es (step e b)
