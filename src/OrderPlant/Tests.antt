-- ===== src/OrderPlant/Tests.antt =====
-- Two barriers of a plant, with a break during the first one.
use rithmic_nt_connect.Base.{refl, List, [], ◌∷◌, true, inl}
use rithmic_nt_connect.OrderPlant.{new, allow_submit, begin_connect, resync_start, rearm}
use rithmic_nt_connect.OrderPlant.Arming.{
  PlantCall, begins_connect, starts_resync, rearms, call, calls, Barrier, submit_needs_Barrier,
}

-- a break during the first barrier latches, and the second barrier arms
abbrev second_barrier : List PlantCall
second_barrier = begins_connect ∷ starts_resync ∷ rearms true ∷ begins_connect ∷ rearms true ∷ []

submit_needs_Barrier_example : Barrier new second_barrier
unfolding new call calls allow_submit begin_connect resync_start rearm
submit_needs_Barrier_example = submit_needs_Barrier new second_barrier (inl refl) refl
