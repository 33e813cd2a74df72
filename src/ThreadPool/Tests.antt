-- ===== src/ThreadPool/Tests.antt =====
-- The pool of include/common/thread_pool.h with two threads.
use sofa_bolt_cpp.Base.{ℕ, zero, suc, ◌≡◌, refl, inr, true, false, none, some, [], ◌∷◌}
use sofa_bolt_cpp.ThreadPool.{
  active, standby, inactive, is_standby, SingleThread, ThreadPool, init, new_threads, find_standby,
  activate, pair_new, get_active_thread, push, room_of, has_room, submit_to, submit,
  try_consume_one, find_task, take_from, try_get_one, same_status, exchange_status, exchange_loop,
  delete_thread_local_pair_thread,
}
use sofa_bolt_cpp.ThreadPool.Pairs.{StatusAt}
use sofa_bolt_cpp.ThreadPool.Runs.{World, set_paired, Reachable, start, next, pairs, places}
use sofa_bolt_cpp.ThreadPool.Kept.{Reachable-alone}

-- The thread 7 submits the task 100, which goes to the first thread of the pool.
abbrev one_task : World
one_task = record {
  pool = record {
    tds =
        record { status = active; made = true; tasks = 100 ∷ [] }
        ∷ record { status = standby; made = false; tasks = [] }
        ∷ [];
    active_td_size = 1;
    td_capacity = 2;
    queue_size = 4;
    exit = false;
  };
  paired = set_paired (λ _. none) 7 (some 0);
  submitted = 100 ∷ [];
  ran = [];
}

one_task-Reachable : Reachable one_task
unfolding init new_threads pair_new find_standby is_standby activate submit_to has_room room_of push
one_task-Reachable =
    let begun : World = record { pool = init 2 4; paired = λ _. none; submitted = []; ran = [] } in
    let r = next begun _ (start 2 4) (pairs begun 7 refl) in
    next _ one_task r (places _ 7 100 (some 0) (inr refl))

Reachable-alone_example : (◌≡◌ {A = ℕ} 7 7) × StatusAt active 0 one_task.pool.tds
Reachable-alone_example = Reachable-alone one_task 7 7 0 one_task-Reachable refl refl

-- A thread that looks at its queue after the destructor has started leaves the task there.
left_over : try_consume_one true 0 one_task.pool ≡ (none, one_task.pool)
unfolding try_consume_one
left_over = refl

-- A thread that submitted ends. After its first exchange the thread of the pool stands by and is paired
-- with another, which the second exchange undoes.
abbrev paired_again : ℕ → SingleThread → SingleThread
paired_again zero t = record t { status = active }
paired_again (suc i) t = t

undone :
    delete_thread_local_pair_thread paired_again 3
      (record { status = active; made = true; tasks = [] })
    ≡ some (record { status = inactive; made = true; tasks = [] })
unfolding delete_thread_local_pair_thread exchange_loop exchange_status same_status
undone = refl

-- With all threads of the pool active, a thread that is paired runs its task itself.
abbrev full : ThreadPool
full = record (one_task.pool) { active_td_size = 2 }

full_run : submit 101 (some 0) full ≡ record { paired = some 0; by_caller = true; pool = full }
unfolding submit get_active_thread submit_to
full_run = refl

-- The only active thread is the second one: waiting threads look at the first one only, so they miss
-- its task.
abbrev second_active : ThreadPool
second_active = record (one_task.pool) {
  tds =
      record { status = standby; made = true; tasks = [] }
      ∷ record { status = active; made = true; tasks = 100 ∷ [] }
      ∷ [];
}

missed : try_get_one second_active ≡ (none, second_active)
unfolding try_get_one find_task is_standby take_from
missed = refl
