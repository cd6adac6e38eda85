-- ===== src/Core/Plant.antt =====
-- crates/rithmic-exec/src/plant.rs: the life cycle of the order plant and the trading policy.
use Prim.Native.String.{◌++◌}
use rithmic_nt_connect.Base.{String, Bool, true, false}

pub data PlantState : Type 0 where
  disconnected connecting live resyncing latched : PlantState

pub as_str : PlantState → String
as_str disconnected = "disconnected"
as_str connecting = "connecting"
as_str live = "live"
as_str resyncing = "resyncing"
as_str latched = "latched"

unfoldable pub is_latched : PlantState → Bool
is_latched latched = true
is_latched _ = false

unfoldable pub begin_connect : PlantState → PlantState
begin_connect s = connecting

unfoldable pub disconnect : PlantState → PlantState
disconnect s = disconnected

unfoldable pub latch : PlantState → PlantState
latch s = latched

unfoldable pub resync_start : PlantState → PlantState
resync_start latched = latched
resync_start disconnected = disconnected
resync_start connecting = latched
resync_start live = resyncing
resync_start resyncing = resyncing

unfoldable pub resync_complete : PlantState → PlantState
resync_complete resyncing = live
resync_complete disconnected = disconnected
resync_complete connecting = connecting
resync_complete live = live
resync_complete latched = latched

unfoldable pub resync_failed : PlantState → PlantState
resync_failed latched = latched
resync_failed _ = disconnected

unfoldable pub rearm : Bool → PlantState → PlantState × Bool
rearm poll_alive latched = (latched, false)
rearm true connecting = (live, true)
rearm _ _ = (disconnected, false)

unfoldable pub allow_submit : PlantState → Bool
allow_submit live = true
allow_submit _ = false

unfoldable pub allow_modify : PlantState → Bool
allow_modify live = true
allow_modify _ = false

unfoldable pub allow_cancel : PlantState → Bool
allow_cancel live = true
allow_cancel resyncing = true
allow_cancel _ = false

unfoldable pub reject_reason : String → PlantState → String
unfolding as_str
reject_reason action s = "order plant " ++ as_str s ++ "; " ++ action ++ " blocked"
