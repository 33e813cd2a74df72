-- ===== src/ThreadPool/Runs.antt =====
-- The pool of include/common/thread_pool.h with the threads that submit to it, one access at a time. What
-- is done under a mutex, and a push or a pop, is one access. A thread that submits does not end: what its
-- end does to its queue is in ThreadPool.antt.
use sofa_bolt_cpp.Base.{
  ℕ, ◌≡◌, ◌⊎◌, true, Option, none, some, List, [], ◌∷◌, if◌then◌else◌, ◌==◌, update,
}
use sofa_bolt_cpp.ThreadPool.{
  ThreadPool, init, find_standby, pair_new, submit_to, first_task, drop_first,
}

-- `paired` is the `_paired_thread` of each thread that submits; `submitted` are the tasks that were placed,
-- and `ran` those that their caller or a thread that has taken them runs.
pub record World : Type 0 where
  pub pool : ThreadPool
  pub paired : ℕ → Option ℕ
  pub submitted : List ℕ
  pub ran : List ℕ

abbrev pub set_paired : (ℕ → Option ℕ) → ℕ → Option ℕ → ℕ → Option ℕ
set_paired paired c o d = if d == c then o else paired d

-- A thread `c` that has none looks for a thread of the pool, under `_td_mtx`; it places a task in the
-- queue of its thread, or runs it itself where `getActiveThread` has told it so. What `getActiveThread` has
-- seen before of `_exit` and of `_active_td_size` may have changed since, and so is not asked for. A task is
-- taken out of the queue `i`, by any thread, and perhaps after the destructor has started, as `_exit` is
-- read before.
pub data Step : World → World → Type 0 where
  pairs :
      (s : World) (c : ℕ)
      → s.paired c ≡ none
      → Step s (record s {
        pool = (pair_new (find_standby 0 s.pool.tds) s.pool).1;
        paired = set_paired s.paired c (pair_new (find_standby 0 s.pool.tds) s.pool).0;
      })
  places :
      (s : World) (c task : ℕ) (td : Option ℕ)
      → (td ≡ none) ⊎ (td ≡ s.paired c)
      → Step s (record s {
        pool = (submit_to task (s.paired c) td s.pool).pool;
        submitted = task ∷ s.submitted;
        ran = if (submit_to task (s.paired c) td s.pool).by_caller then task ∷ s.ran else s.ran;
      })
  takes :
      (s : World) (i task : ℕ)
      → first_task s.pool i ≡ some task
      → Step s (record s {
        pool = record (s.pool) { tds = update i drop_first s.pool.tds };
        ran = task ∷ s.ran;
      })
  exits : (s : World) → Step s (record s { pool = record (s.pool) { exit = true } })

pub data Reachable : World → Type 0 where
  start :
      (capacity queue_size : ℕ)
      → Reachable
          (record { pool = init capacity queue_size; paired = λ _. none; submitted = []; ran = [] })
  next : (s s' : World) → Reachable s → Step s s' → Reachable s'
