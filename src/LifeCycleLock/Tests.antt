-- ===== src/LifeCycleLock/Tests.antt =====
-- The lock of include/common/life_cycle_lock.h with two threads.
use sofa_bolt_cpp.Base.{count, ◌≡◌, ◌≤◌, ◌⊎◌, refl, true, [], ◌∷◌, arith}
use sofa_bolt_cpp.LifeCycleLock.{
  idle, writing, upgrades, takes, step, Reachable, start, next, try_upgrade, try_exclusive, outside,
  set_upgraded,
}
use sofa_bolt_cpp.LifeCycleLock.Exclusion.{reads, writes, Reachable-Exclusive, Reachable-free}

-- The second thread upgrades and takes the lock.
taken : Reachable (record { bits = 1; threads = idle ∷ writing ∷ [] })
unfolding try_upgrade set_upgraded try_exclusive outside
taken =
    next _ _
      (next _ _ (start (idle ∷ idle ∷ []) refl) (step 0 2 idle idle (idle ∷ []) [] (upgrades 0)))
      (step 2 1 idle writing (idle ∷ []) [] (takes 2 refl))

Reachable-Exclusive_example :
    (count writes (idle ∷ writing ∷ []) ≤ 1)
    × ((count writes (idle ∷ writing ∷ []) ≡ 0) ⊎ (count reads (idle ∷ writing ∷ []) ≡ 0))
Reachable-Exclusive_example =
    Reachable-Exclusive (record { bits = 1; threads = idle ∷ writing ∷ [] }) taken (omega arith)

-- The first thread upgrades, and does not take the lock.
upgraded : Reachable (record { bits = 2; threads = idle ∷ idle ∷ [] })
unfolding try_upgrade set_upgraded outside
upgraded = next _ _ (start (idle ∷ idle ∷ []) refl) (step 0 2 idle idle [] (idle ∷ []) (upgrades 0))

Reachable-free_example : let (r, v) = try_upgrade 2 in (r ≡ true) × (try_exclusive v ≡ (true, 1))
unfolding outside
Reachable-free_example =
    Reachable-free (record { bits = 2; threads = idle ∷ idle ∷ [] }) upgraded (omega arith) refl
