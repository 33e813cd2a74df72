-- ===== src/LifeCycleLock.antt =====
-- include/common/life_cycle_lock.h: a lock for many readers or one writer, in the bits of one atomic
-- number: UPGRADED (2), EXCLUSIVE (1), and SHARED (4) for each reader.
pub mod Exclusion
pub mod Tests
use sofa_bolt_cpp.Base.{
  ℕ, ◌+◌, ◌-◌, ◌*◌, ◌/◌, ◌%◌, ◌^◌, ◌≡◌, Bool, true, false, not, List, [], ◌∷◌, ◌++◌, if◌then◌else◌,
  ◌==◌,
}

-- The first access of `tryShared`, `fetch_add(SHARED)`, with whether the call then succeeds.
unfoldable pub try_shared : ℕ → Bool × ℕ
try_shared v = (v % 4 == 0, (v + 4) % 2 ^ 32)

-- `releaseShared`, which is also the second access of a `tryShared` that fails.
unfoldable pub release_shared : ℕ → ℕ
release_shared v = (v + 2 ^ 32 - 4) % 2 ^ 32

-- `tryUpgrade`: `fetch_or(UPGRADED)`.
unfoldable pub set_upgraded : ℕ → ℕ
set_upgraded v = if v / 2 % 2 == 0 then v + 2 else v

pub try_upgrade : ℕ → Bool × ℕ
try_upgrade v = (v % 2 == 0, set_upgraded v)

-- `tryUpgradeNonReEntrant`
unfoldable pub try_upgrade_once : ℕ → Bool × ℕ
try_upgrade_once v = (v % 4 == 0, set_upgraded v)

-- `tryExclusive`: `compare_exchange_strong(UPGRADED, EXCLUSIVE)`.
unfoldable pub try_exclusive : ℕ → Bool × ℕ
try_exclusive v = if v == 2 then (true, 1) else (false, v)

-- `releaseExclusive`: `fetch_and(~(EXCLUSIVE | UPGRADED))`.
pub release_exclusive : ℕ → ℕ
release_exclusive v = v - v % 4

-- Where a thread is: outside, behind a `tryShared` that succeeded, between the two accesses of one
-- that fails, or behind a `tryExclusive` that succeeded.
pub data Mode : Type 0 where
  idle reading backing writing : Mode

-- No thread is inside.
pub outside : List Mode → Bool
outside [] = true
outside (idle ∷ ts) = outside ts
outside (t ∷ ts) = false

-- One atomic access of one thread. Those that wait, in `share`, `upgrade` and `exclusive`, and in
-- the loops of the hash map, try again and again.
pub data Move : ℕ → Mode → ℕ → Mode → Type 0 where
  shares : (v : ℕ) → (try_shared v).0 ≡ true → Move v idle (try_shared v).1 reading
  refused : (v : ℕ) → (try_shared v).0 ≡ false → Move v idle (try_shared v).1 backing
  backs_off : (v : ℕ) → Move v backing (release_shared v) idle
  releases_shared : (v : ℕ) → Move v reading (release_shared v) idle
  upgrades : (v : ℕ) → Move v idle (try_upgrade v).1 idle
  upgrades_once : (v : ℕ) → Move v idle (try_upgrade_once v).1 idle
  takes : (v : ℕ) → (try_exclusive v).0 ≡ true → Move v idle (try_exclusive v).1 writing
  misses : (v : ℕ) → (try_exclusive v).0 ≡ false → Move v idle (try_exclusive v).1 idle
  releases_exclusive : (v : ℕ) → Move v writing (release_exclusive v) idle

-- The lock and the threads that use it. A step is an access of any one of them.
pub record System : Type 0 where
  pub bits : ℕ
  pub threads : List Mode

pub data Step : System → System → Type 0 where
  step :
      (v w : ℕ) (a b : Mode) (front back : List Mode)
      → Move v a w b
      → Step
          (record { bits = v; threads = front ++ (a ∷ back) })
          (record { bits = w; threads = front ++ (b ∷ back) })

-- What steps reach from a lock just made, with no thread inside.
pub data Reachable : System → Type 0 where
  start : (ts : List Mode) → outside ts ≡ true → Reachable (record { bits = 0; threads = ts })
  next : (s s' : System) → Reachable s → Step s s' → Reachable s'
