-- ===== src/LifeCycleLock/Exclusion.antt =====
-- The lock of include/common/life_cycle_lock.h keeps writers from readers and from each other.
use sofa_bolt_cpp.Base.{
  ℕ, ◌+◌, ◌/◌, ◌%◌, ◌^◌, ◌≤◌, ◌<◌, ◌≡◌, refl, ◌⊎◌, inl, inr, true, List, [], ◌∷◌, length,
  length-append, count, count-split, arith,
}
use sofa_bolt_cpp.LifeCycleLock.{
  Mode, idle, reading, backing, writing, Move, shares, refused, backs_off, releases_shared,
  upgrades, upgrades_once, takes, misses, releases_exclusive, System, Step, step, Reachable, start,
  next, outside, try_shared, release_shared, set_upgraded, try_upgrade, try_upgrade_once,
  try_exclusive, release_exclusive,
}

-- How many threads have counted themselves in, how many of these read, and how many write.
abbrev pub counts_in : Mode → ℕ
counts_in reading = 1
counts_in backing = 1
counts_in other = 0

abbrev pub reads : Mode → ℕ
reads reading = 1
reads other = 0

abbrev pub writes : Mode → ℕ
writes writing = 1
writes other = 0

-- The bits say how many threads counted themselves in, and whether one writes; and none reads then.
-- `c`, `r` and `w` are the numbers of such threads.
record Holds (v c r w : ℕ) : Type 0 where
  counted : v / 4 ≡ c
  flagged : v % 2 ≡ w
  apart : (w ≡ 0) ⊎ (r ≡ 0)
  small : c < 2 ^ 29

-- One thread's access, where the others give `c`, `r` and `w`.
Move-Holds :
    {v v' : ℕ} {a b : Mode} (c r w : ℕ)
    → c < 2 ^ 28
    → Move v a v' b
    → Holds v (counts_in a + c) (reads a + r) (writes a + w)
    → r ≤ c
    → Holds v' (counts_in b + c) (reads b + r) (writes b + w)
unfolding try_shared release_shared set_upgraded try_upgrade try_upgrade_once try_exclusive
    release_exclusive
Move-Holds c r w few (shares v e) h le = record {
  counted = ground arith;
  flagged = ground arith;
  apart = ground arith;
  small = omega (arith, few);
}
Move-Holds c r w few (refused v e) h le = record {
  counted = ground arith;
  flagged = ground arith;
  apart = ground arith;
  small = omega (arith, few);
}
Move-Holds c r w few (backs_off v) h le = record {
  counted = ground arith;
  flagged = ground arith;
  apart = ground arith;
  small = omega (arith, few);
}
Move-Holds c r w few (releases_shared v) h le = record {
  counted = ground arith;
  flagged = ground arith;
  apart = ground arith;
  small = omega (arith, few);
}
Move-Holds c r w few (upgrades v) h le = record {
  counted = ground arith;
  flagged = ground arith;
  apart = ground arith;
  small = omega (arith, few);
}
Move-Holds c r w few (upgrades_once v) h le = record {
  counted = ground arith;
  flagged = ground arith;
  apart = ground arith;
  small = omega (arith, few);
}
Move-Holds c r w few (takes v e) h le = record {
  counted = ground arith;
  flagged = ground arith;
  apart = ground arith;
  small = omega (arith, few);
}
Move-Holds c r w few (misses v e) h le = record {
  counted = ground arith;
  flagged = ground arith;
  apart = ground arith;
  small = omega (arith, few);
}
Move-Holds c r w few (releases_exclusive v) h le = record {
  counted = ground arith;
  flagged = ground arith;
  apart = ground arith;
  small = omega (arith, few);
}

count-le : (ts : List Mode) → count counts_in ts ≤ length ts
count-le [] = omega arith
count-le (idle ∷ ts) = omega (arith, count-le ts)
count-le (reading ∷ ts) = omega (arith, count-le ts)
count-le (backing ∷ ts) = omega (arith, count-le ts)
count-le (writing ∷ ts) = omega (arith, count-le ts)

reads-le : (ts : List Mode) → count reads ts ≤ count counts_in ts
reads-le [] = omega arith
reads-le (idle ∷ ts) = omega (arith, reads-le ts)
reads-le (reading ∷ ts) = omega (arith, reads-le ts)
reads-le (backing ∷ ts) = omega (arith, reads-le ts)
reads-le (writing ∷ ts) = omega (arith, reads-le ts)

outside-counts :
    (ts : List Mode)
    → outside ts ≡ true
    → (count counts_in ts ≡ 0) × (count reads ts ≡ 0) × (count writes ts ≡ 0)
unfolding outside
outside-counts [] h = (refl, refl, refl)
outside-counts (idle ∷ ts) h =
    let (c, r, w) = outside-counts ts h in (omega arith, omega arith, omega arith)
outside-counts (reading ∷ ts) h = absurd (cc h)
outside-counts (backing ∷ ts) h = absurd (cc h)
outside-counts (writing ∷ ts) h = absurd (cc h)

record Inv (s : System) : Type 0 where
  holds : Holds s.bits (count counts_in s.threads) (count reads s.threads) (count writes s.threads)

Step-length : {s s' : System} → Step s s' → length s'.threads ≡ length s.threads
Step-length (step v w a b front back m) =
    omega (arith, length-append front (a ∷ back), length-append front (b ∷ back))

Step-Inv : {s s' : System} → Step s s' → length s.threads < 2 ^ 28 → Inv s → Inv s'
Step-Inv (step v w a b front back m) few inv =
    let c = count counts_in front + count counts_in back in
    let r = count reads front + count reads back in
    let n = count writes front + count writes back in
    let bound : c < 2 ^ 28 =
      omega (arith, length-append front (a ∷ back), count-le front, count-le back) in
    record {
      holds =
          rw
            (
              count-split counts_in front b back,
              count-split reads front b back,
              count-split writes front b back,
            )
            (Move-Holds c r n bound m
              (rw
                (
                  ← count-split counts_in front a back,
                  ← count-split reads front a back,
                  ← count-split writes front a back,
                )
                inv.holds)
              (omega (arith, reads-le front, reads-le back)));
    }

Reachable-Inv : {s : System} → Reachable s → length s.threads < 2 ^ 28 → Inv s
Reachable-Inv (start ts h) few =
    let (c, r, w) = outside-counts ts h in
    record {
      holds = record {
        counted = omega (arith, c);
        flagged = omega (arith, w);
        apart = inl w;
        small = omega (arith, c);
      };
    }
Reachable-Inv (next s s' reached st) few =
    let before : length s.threads < 2 ^ 28 = omega (arith, Step-length st) in
    Step-Inv st before (Reachable-Inv reached before)

-- However the accesses of less than 2^28 threads follow each other, at most one thread is behind a
-- `tryExclusive` that succeeded, and none is then behind a `tryShared` that succeeded.
pub Reachable-Exclusive :
    (s : System)
    → Reachable s
    → length s.threads < 2 ^ 28
    → (count writes s.threads ≤ 1) × ((count writes s.threads ≡ 0) ⊎ (count reads s.threads ≡ 0))
Reachable-Exclusive s reached few =
    let h = (Reachable-Inv reached few).holds in (omega (arith, h.flagged), h.apart)

-- Whatever was done before, once every thread is outside the lock can be had again: `tryUpgrade`
-- and then `tryExclusive` succeed.
pub Reachable-free :
    (s : System)
    → Reachable s
    → length s.threads < 2 ^ 28
    → outside s.threads ≡ true
    → let (r, v) = try_upgrade s.bits in (r ≡ true) × (try_exclusive v ≡ (true, 1))
unfolding try_upgrade set_upgraded try_exclusive
Reachable-free s reached few out =
    let h = (Reachable-Inv reached few).holds in
    let (c, r, w) = outside-counts s.threads out in
    let low : s.bits / 4 ≡ 0 = omega (arith, h.counted, c) in
    let even : s.bits % 2 ≡ 0 = omega (arith, h.flagged, w) in
    elim (two s.bits low even) [ inl e ↦ rw e (refl, refl) | inr e ↦ rw e (refl, refl) ]
  where
    two : (v : ℕ) → v / 4 ≡ 0 → v % 2 ≡ 0 → (v ≡ 0) ⊎ (v ≡ 2)
    two v low even = ground arith
