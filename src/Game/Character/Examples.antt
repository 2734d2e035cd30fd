-- ===== src/Game/Character/Examples.antt =====
-- A character sheet: points spent, a class picked, and its respec, with decimals for numbers.
use task_buddy_backend.Prelude.{◌+◌, ◌≤◌, ◌≡◌, ◌⊎◌, refl, true, false, none, some, pos, ◌-ℤ◌}
use task_buddy_backend.Json.{Json, Fields}
use task_buddy_backend.Game.Decimal.{Decimal, decimals}
use task_buddy_backend.Game.Rates.{GameRates, defaults}
use task_buddy_backend.Game.Character.{
  allocate_points, distribute_unspent, select_class, respec, stat_point_cap, allocated,
  none_allocated,
}
use task_buddy_backend.Game.Character.Points.{all_points, IsCapped, distribute_unspent_exact}
use task_buddy_backend.Game.Character.History.{
  Sheet, spent, distributed, picked, respecced, Changes, begin, change, IsKept, Changes-IsKept,
}

abbrev rates : GameRates Decimal
rates = defaults decimals

abbrev novice : Sheet Decimal
novice = record {
  level = 12;
  gold = pos 1_500_000;
  pool = record { stats = λ s. 0; unspent = 5 };
  pick = record { game_class = none; class_unlocked = false };
}

abbrev two_strength : Json
two_strength = Json.obj (Fields.field "str" (Json.int (pos 2)) Fields.end)

-- Two points spent, the class picked, the other three distributed, and all refunded.
story : Changes decimals rates novice (record {
  level = 12;
  gold = pos 500_000;
  pool = record { stats = none_allocated; unspent = 5 };
  pick = record { game_class = none; class_unlocked = true };
})
unfolding allocate_points select_class distribute_unspent respec defaults ◌-ℤ◌
story =
    change
      (change (change (change begin (spent two_strength _ refl)) (picked "mage" _ refl))
        distributed)
      (respecced (pos 1_000_000) (pos 500_000) _ _ refl)

Changes-IsKept_example : IsKept decimals rates novice (record {
  level = 12;
  gold = pos 500_000;
  pool = record { stats = none_allocated; unspent = 5 };
  pick = record { game_class = none; class_unlocked = true };
})
Changes-IsKept_example = Changes-IsKept decimals rates novice _ story

distribute_unspent_exact_example :
    let (q, n) = distribute_unspent (some "mage") novice.pool in
    (all_points q ≡ 5)
    × (n + q.unspent ≡ 5)
    × (IsCapped novice.pool → IsCapped q)
    × ((q.unspent ≡ 0) ⊎ (stat_point_cap ≤ allocated q.stats))
distribute_unspent_exact_example = distribute_unspent_exact (some "mage") novice.pool
