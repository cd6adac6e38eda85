-- ===== src/OrderPlant.antt =====
-- python/rithmic_nt_connect/_order_plant.py: the adapter's binding of the order-plant machine.
-- The policy object owns one state; each method hands it to the rule of `Core.Plant`.
pub mod Arming
pub mod Tests
use rithmic_nt_connect.Base.{String, Bool}
use rithmic_nt_connect.Core.Plant
use rithmic_nt_connect.Core.Plant.{PlantState}

pub record OrderPlantPolicy : Type 0 where
  pub core : PlantState

-- `OrderPlantPolicy(state)`; the client starts it disconnected
unfoldable pub new : OrderPlantPolicy
new = record { core = PlantState.disconnected }

unfoldable pub state : OrderPlantPolicy → PlantState
state p = p.core

unfoldable pub latched : OrderPlantPolicy → Bool
unfolding Plant.is_latched
latched p = Plant.is_latched p.core

unfoldable pub begin_connect : OrderPlantPolicy → OrderPlantPolicy
unfolding Plant.begin_connect
begin_connect p = record { core = Plant.begin_connect p.core }

unfoldable pub disconnect : OrderPlantPolicy → OrderPlantPolicy
unfolding Plant.disconnect
disconnect p = record { core = Plant.disconnect p.core }

unfoldable pub latch : OrderPlantPolicy → OrderPlantPolicy
unfolding Plant.latch
latch p = record { core = Plant.latch p.core }

unfoldable pub resync_start : OrderPlantPolicy → OrderPlantPolicy
unfolding Plant.resync_start
resync_start p = record { core = Plant.resync_start p.core }

unfoldable pub resync_complete : OrderPlantPolicy → OrderPlantPolicy
unfolding Plant.resync_complete
resync_complete p = record { core = Plant.resync_complete p.core }

unfoldable pub resync_failed : OrderPlantPolicy → OrderPlantPolicy
unfolding Plant.resync_failed
resync_failed p = record { core = Plant.resync_failed p.core }

unfoldable pub rearm : Bool → OrderPlantPolicy → OrderPlantPolicy × Bool
unfolding Plant.rearm
rearm poll_alive p = let (s, armed) = Plant.rearm poll_alive p.core in (record { core = s }, armed)

unfoldable pub allow_submit : OrderPlantPolicy → Bool
unfolding Plant.allow_submit
allow_submit p = Plant.allow_submit p.core

unfoldable pub allow_modify : OrderPlantPolicy → Bool
unfolding Plant.allow_modify
allow_modify p = Plant.allow_modify p.core

unfoldable pub allow_cancel : OrderPlantPolicy → Bool
unfolding Plant.allow_cancel
allow_cancel p = Plant.allow_cancel p.core

unfoldable pub reject_reason : String → OrderPlantPolicy → String
reject_reason action p = Plant.reject_reason action p.core
