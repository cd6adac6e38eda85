-- ===== src/Core/Lru/Tests.antt =====
-- A map of one entry.
use rithmic_nt_connect.Base.{[], ◌≡◌, ◌≤◌, ℕ, lookup, some, arith}
use rithmic_nt_connect.Core.Lru.{Lru, new, put, size}
use rithmic_nt_connect.Core.Lru.Eviction.{put-size, lookup-put, new-IsValid}

abbrev one_place : Lru ℕ
one_place = record { entries = []; by_recency = []; clock = 0; max_size = 1 }

put-size_example : size (put "b" 2 one_place) ≤ 1
unfolding new
put-size_example = put-size "b" 2 one_place (new-IsValid 1)

lookup-put_example : lookup "b" (put "b" 2 one_place).entries ≡ some (2, 1)
unfolding new
lookup-put_example = lookup-put "b" 2 one_place (new-IsValid 1) (omega arith)
