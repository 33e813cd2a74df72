-- ===== src/SocketManager/Turns.antt =====
-- One round of src/tcp/socket_manager.cpp, for a socket that waits to be released.
use sofa_bolt_cpp.Base.{
  is, ℕ, suc, ◌+◌, ◌%◌, ◌<◌, ◌≡◌, ap, subst, Bool, true, false, arith, if◌then◌else◌, ◌==◌, count,
}
use sofa_bolt_cpp.SocketManager.{Manager, reclaim_from, reclaim, watch_connections}
use sofa_bolt_cpp.SocketManager.Release.{Later, Later-trans, collect-count}
use sofa_bolt_cpp.SocketManager.Rounds.{collected, done, collected-count, collected-Later}

-- What a round that is notified does to a socket that is in the reclaim list only.
pub record Round (size x : ℕ) (m m' : Manager) : Type 0 where
  pub unlisted : count (is x) m'.list ≡ 0
  pub later : Later (m.sock x) (m'.sock x)
  pub left : count (is x) m'.reclaim_list ≡ (
      if (m.sock x).fd % size == m.reclaim_counter % size then 0 else count (is x) m.reclaim_list)
  pub dropped :
      0 < count (is x) m.reclaim_list
      → count (is x) m'.reclaim_list ≡ 0
      → (m'.sock x).on_read ≡ false
  pub counter : 0 < count (is x) m.reclaim_list → m'.reclaim_counter ≡ suc m.reclaim_counter

pub watch_connections-Round :
    (exclusive : ℕ → Bool) (size x : ℕ) (m : Manager)
    → count (is x) m.list ≡ 0
    → Round size x m (watch_connections exclusive size true m).manager
unfolding watch_connections reclaim collected
watch_connections-Round exclusive size x m absent =
    let c : Manager = collected exclusive size true m in
    let r = done exclusive size true m in
    let listed = collected-count exclusive size true m x in
    let taken = collect-count exclusive m.list m.sock x in
    record {
      unlisted = omega (arith, ap (count (is x)) r.same_list, taken, absent);
      later = Later-trans (collected-Later exclusive size true m x) (r.later x);
      dropped = λ h gone. r.dropped x (omega (arith, h, gone, r.counts x, listed, taken, absent));
      left =
          by_test ((m.sock x).fd % size == m.reclaim_counter % size)
            (count (is x) (reclaim_from size true c c.reclaim_list).0.reclaim_list)
            (count (is x) (reclaim_from size true c c.reclaim_list).1) (count (is x) m.reclaim_list)
            (count (is x) c.reclaim_list) (omega (arith, r.counts x, listed, taken, absent))
            (subst
              (λ f.
                count (is x) (reclaim_from size true c c.reclaim_list).1
                ≡ (if f % size == m.reclaim_counter % size then count (is x) c.reclaim_list else 0))
              (Later.fd (collected-Later exclusive size true m x)) (r.gone x))
            (omega (arith, listed, taken, absent));
      counter = λ h. r.counter x (omega (arith, h, listed, taken, absent));
    }
  where
    by_test :
        (t : Bool) (kept gone all all' : ℕ)
        → kept + gone ≡ all
        → gone ≡ (if t then all' else 0)
        → all' ≡ all
        → kept ≡ (if t then 0 else all)
    by_test true kept gone all all' e f g = omega (arith, e, f, g)
    by_test false kept gone all all' e f g = omega (arith, e, f)
