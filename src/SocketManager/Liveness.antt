-- ===== src/SocketManager/Liveness.antt =====
-- The thread of src/tcp/socket_manager.cpp goes round the threads of the schedule, so that every socket
-- that it has taken out of its list is released.
use native.Mathlib.Nat.{mod-add-mod, mod-eq_of_lt, mod-lt, add-mod_right}
use sofa_bolt_cpp.Base.{
  is, ℕ, zero, suc, ◌+◌, ◌-◌, ◌%◌, ◌≤◌, ◌<◌, ◌≡◌, refl, ap, sym, ◌∙◌, inl, inr, Bool, true, false,
  Bool-cases, arith, if◌then◌else◌, leb, ◌==◌, eq→==, count,
}
use sofa_bolt_cpp.SocketManager.{Manager, watch_connections}
use sofa_bolt_cpp.SocketManager.Release.{Later}
use sofa_bolt_cpp.SocketManager.Turns.{watch_connections-Round}

-- `n` rounds that are notified; `exclusive i` is what `tryExclusive` answers in the round `i`.
pub rounds : (ℕ → ℕ → Bool) → ℕ → ℕ → Manager → Manager
rounds exclusive size zero m = m
rounds exclusive size (suc n) m =
    rounds (λ i. exclusive (suc i)) size n (watch_connections (exclusive 0) size true m).manager

-- A socket that is in neither list, and does not hold itself by its handler.
pub record IsReleased (x : ℕ) (m : Manager) : Type 0 where
  pub unlisted : count (is x) m.list ≡ 0
  pub left : count (is x) m.reclaim_list ≡ 0
  pub dropped : (m.sock x).on_read ≡ false

IsReleased-rounds :
    (exclusive : ℕ → ℕ → Bool) (size n x : ℕ) (m : Manager)
    → IsReleased x m
    → IsReleased x (rounds exclusive size n m)
unfolding rounds
IsReleased-rounds exclusive size zero x m g = g
IsReleased-rounds exclusive size (suc n) x m g =
    let r = watch_connections-Round (exclusive 0) size x m g.unlisted in
    IsReleased-rounds (λ i. exclusive (suc i)) size n x
      (watch_connections (exclusive 0) size true m).manager
      (record {
        unlisted = r.unlisted;
        left = r.left ∙ either ((m.sock x).fd % size == m.reclaim_counter % size);
        dropped = Later.dropped r.later g.dropped;
      })
  where
    either : (t : Bool) → (if t then 0 else count (is x) m.reclaim_list) ≡ 0
    either true = refl
    either false = g.left

-- The round in which the counter comes to the thread of a socket releases it.
rounds-turn :
    (exclusive : ℕ → ℕ → Bool) (size n k x : ℕ) (m : Manager)
    → count (is x) m.list ≡ 0
    → 0 < count (is x) m.reclaim_list
    → (m.reclaim_counter + k) % size ≡ (m.sock x).fd % size
    → k < n
    → IsReleased x (rounds exclusive size n m)
unfolding rounds
rounds-turn exclusive size zero k x m absent waits turn more = absurd (omega (arith, more))
rounds-turn exclusive size (suc n) k x m absent waits turn more =
    let r = watch_connections-Round (exclusive 0) size x m absent in
    let m' = (watch_connections (exclusive 0) size true m).manager in
    elim (Bool-cases ((m.sock x).fd % size == m.reclaim_counter % size)) [
      | inl test ↦
          let left : count (is x) m'.reclaim_list ≡ 0 = rw test at (r.left) in
          IsReleased-rounds (λ i. exclusive (suc i)) size n x m'
            (record { unlisted = r.unlisted; left = left; dropped = r.dropped waits left })
      | inr test ↦
          let left : count (is x) m'.reclaim_list ≡ count (is x) m.reclaim_list =
            rw test at (r.left) in
          by_distance k turn more test m' r.unlisted (omega (arith, left, waits)) (r.counter waits)
            (Later.fd r.later)
            (λ k' u w t l. rounds-turn (λ i. exclusive (suc i)) size n k' x m' u w t l)
    ]
  where
    by_distance :
        (k : ℕ)
        → (m.reclaim_counter + k) % size ≡ (m.sock x).fd % size
        → k < suc n
        → ((m.sock x).fd % size == m.reclaim_counter % size) ≡ false
        → (m' : Manager) → count (is x) m'.list ≡ 0
        → 0 < count (is x) m'.reclaim_list
        → m'.reclaim_counter ≡ suc m.reclaim_counter
        → (m'.sock x).fd ≡ (m.sock x).fd
        → ((k' : ℕ)
            → count (is x) m'.list ≡ 0
            → 0 < count (is x) m'.reclaim_list
            → (m'.reclaim_counter + k') % size ≡ (m'.sock x).fd % size
            → k' < n
            → IsReleased x (rounds (λ i. exclusive (suc i)) size n m'))
        → IsReleased x (rounds (λ i. exclusive (suc i)) size n m')
    by_distance zero turn more test m' unlisted waits counter fd ih =
        let now : m.reclaim_counter + 0 ≡ m.reclaim_counter = omega arith in
        let same : true ≡ false = sym (eq→== _ _ (sym turn ∙ ap (λ c. c % size) now)) ∙ test in
        absurd (cc same)
    by_distance (suc k) turn more test m' unlisted waits counter fd ih =
        let next : m'.reclaim_counter + k ≡ m.reclaim_counter + suc k = omega (arith, counter) in
        ih k unlisted waits (ap (λ c. c % size) next ∙ turn ∙ ap (λ f. f % size) (sym fd))
          (omega (arith, more))

-- The distance from one thread to another, round all of them.
turn-exists : (size c f : ℕ) → 0 < size → (k : ℕ) × (k < size) × ((c + k) % size ≡ f % size)
turn-exists size c f room =
    let a = mod-lt c room in
    let b = mod-lt f room in
    elim (Bool-cases (leb (c % size) (f % size))) [
      | inl e ↦ (
        f % size - c % size,
        omega (arith, b),
        sym (mod-add-mod c size (f % size - c % size))
            ∙ ap (λ n. n % size) (ground arith)
            ∙ mod-eq_of_lt b,
      )
      | inr e ↦ (
        f % size + size - c % size,
        ground arith,
        sym (mod-add-mod c size (f % size + size - c % size))
            ∙ ap (λ n. n % size) (omega (arith, a))
            ∙ add-mod_right (f % size) size
            ∙ mod-eq_of_lt b,
      )
    ]

-- A socket that only the reclaim list has is released after as many rounds as the schedule has threads, if
-- the thread asked for answers in time in all of them: neither list has it any more, and its `_on_read`,
-- by which it holds itself, is reset, whatever else is reclaimed in the meantime.
pub rounds-IsReleased :
    (exclusive : ℕ → ℕ → Bool) (size n x : ℕ) (m : Manager)
    → 0 < size
    → size ≤ n
    → count (is x) m.list ≡ 0
    → 0 < count (is x) m.reclaim_list
    → IsReleased x (rounds exclusive size n m)
rounds-IsReleased exclusive size n x m room enough absent waits =
    let (k, less, turn) = turn-exists size m.reclaim_counter (m.sock x).fd room in
    rounds-turn exclusive size n k x m absent waits turn (omega (arith, less, enough))
