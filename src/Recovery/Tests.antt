-- ===== src/Recovery/Tests.antt =====
-- A newer generation that is announced while an older one is restored.
use rithmic_nt_connect.Base.{refl, List, [], ◌∷◌, none}
use rithmic_nt_connect.Recovery.{
  Bridge, BridgeEvent, resumed, attempt_failed, attempt_restored, interrupted, step,
}
use rithmic_nt_connect.Recovery.Newest.{IsValid, step-IsValid}

abbrev new_bridge : Bridge
new_bridge = record { task = none; pending_generation = 0; last_generation = 0; max_attempts = 5 }

abbrev busy : List BridgeEvent
busy = resumed 2 ∷ attempt_failed ∷ attempt_restored ∷ resumed 4 ∷ []

step-IsValid_example : IsValid (step interrupted new_bridge)
step-IsValid_example = step-IsValid interrupted new_bridge refl
