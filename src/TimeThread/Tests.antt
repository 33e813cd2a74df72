-- ===== src/TimeThread/Tests.antt =====
-- The timer of src/schedule/time_thread.cpp with one caller and two tasks.
use sofa_bolt_cpp.Base.{ℕ, zero, suc, ◌+◌, ◌*◌, ◌≤◌, ◌≡◌, refl, true, [], ◌∷◌, count, map, arith}
use sofa_bolt_cpp.TimeThread.{
  Task, using, finishes, Timer, init, contains, emplace, erase, push_heap, lower,
  get_local_task_container, local_of, first_available, push,
}
use sofa_bolt_cpp.TimeThread.Loop.{
  loop_step, step_from, look, pop_round, begin_collect, go_on, take_task, take_abandoned, check_top,
  finish_task, is_available, next_near_time, wait_time, end_destroy, take_containers, take_tasks,
  forget, run_all,
}
use sofa_bolt_cpp.TimeThread.Steps.{
  alive, join, take_id, push_task, loops, joins, takes_id, pushes, unschedule, exits, Reachable,
  start, next,
}
use sofa_bolt_cpp.TimeThread.Counts.{is, is_task, is_pending, held, waiting, settled, issued}
use sofa_bolt_cpp.TimeThread.Kept.{Reachable-places, end_destroy-settled}
use sofa_bolt_cpp.TimeThread.Order.{early, misplaced, sooner}
use sofa_bolt_cpp.TimeThread.Due.{Reachable-due, wait_time-heap}

-- Two tasks for the times 5 and 90, put into a container by one thread.
abbrev joined : Timer
joined = join init

abbrev pushed_first : Timer
pushed_first =
    push_task 0 (record { status = using; tasks = []; abandon_tasks = [] })
      (record { abs_time = 90; task_id = 1 }) [] (take_id 0 90 joined)

abbrev pushed : Timer
pushed =
    push_task 0
      (record {
        status = using;
        tasks = record { abs_time = 90; task_id = 1 } ∷ [];
        abandon_tasks = [];
      })
      (record { abs_time = 5; task_id = 2 }) [] (take_id 0 5 pushed_first)

pushed-Reachable : Reachable pushed
unfolding init join take_id push_task alive get_local_task_container local_of first_available push
pushed-Reachable =
    let r₁ = next init joined start (joins init refl) in
    let r₂ = next joined _ r₁ (takes_id joined 0 90 refl) in
    let r₃ = next _ pushed_first r₂ (pushes (take_id 0 90 joined) [] [] 0 _ _ refl refl) in
    let r₄ = next pushed_first _ r₃ (takes_id pushed_first 0 5 refl) in
    next _ pushed r₄ (pushes (take_id 0 5 pushed_first) [] [] 0 _ _ refl refl)

-- The timer's thread goes on, with the clock at `now`.
abbrev rounds : ℕ → ℕ → Timer → Timer
rounds zero now s = s
rounds (suc n) now s = rounds n now (loop_step now s)

rounds-Reachable : (n now : ℕ) (s : Timer) → Reachable s → Reachable (rounds n now s)
rounds-Reachable zero now s r = r
rounds-Reachable (suc n) now s r =
    rounds-Reachable n now (loop_step now s) (next s _ r (loops s now))

-- With the clock at 9 the second task is run, and not the first.
second_ran : map (λ r. r.task.task_id) (rounds 13 9 pushed).ran ≡ 2 ∷ []
unfolding init join take_id push_task alive get_local_task_container local_of first_available push
    loop_step step_from look pop_round begin_collect go_on take_task take_abandoned check_top
    finish_task is_available next_near_time wait_time contains emplace erase push_heap lower
second_ran = refl

Reachable-places_example :
    let s = rounds 13 9 pushed in
    (waiting 2 s + settled 2 s ≡ issued 2 s.timer_id)
    × (count (is_task 2) s.dropped ≤ count (is 2) s.unscheduled)
Reachable-places_example =
    Reachable-places (rounds 13 9 pushed) 2 (rounds-Reachable 13 9 pushed pushed-Reachable)

Reachable-due_example :
    let s = rounds 10 9 pushed in (count early s.ran ≡ 0) × (misplaced s.phase s.heap ≡ 0)
Reachable-due_example =
    Reachable-due (rounds 10 9 pushed) (rounds-Reachable 10 9 pushed pushed-Reachable)

wait_time-heap_example :
    let s = rounds 13 9 pushed in
    let wait = wait_time (step_from 10 s finishes).nearest_run_time 10 in
    (count (sooner (10 + wait)) s.heap ≡ 0) × (wait ≤ 3600 * 1000 * 1000)
unfolding init join take_id push_task alive get_local_task_container local_of first_available push
    loop_step step_from look pop_round begin_collect go_on take_task take_abandoned check_top
    finish_task is_available next_near_time wait_time contains emplace erase push_heap lower
wait_time-heap_example =
    wait_time-heap (rounds 13 9 pushed) 10 (rounds-Reachable 13 9 pushed pushed-Reachable) refl
      (omega arith)

-- Then `destroy` is called, and the thread ends.
abbrev ended : Timer
ended = loop_step 9 (record (rounds 14 9 pushed) { exit = true })

ended-Reachable : Reachable ended
ended-Reachable =
    let r = rounds-Reachable 14 9 pushed pushed-Reachable in
    let r' = next _ (record (rounds 14 9 pushed) { exit = true }) r (exits _) in
    next _ ended r' (loops _ 9)

-- The first task, for the time 90, is run all the same.
both_ran : map (λ r. r.task.task_id) (end_destroy ended).ran ≡ 2 ∷ 1 ∷ []
unfolding init join take_id push_task alive get_local_task_container local_of first_available push
    loop_step step_from look pop_round begin_collect go_on take_task take_abandoned check_top
    finish_task is_available next_near_time wait_time contains emplace erase push_heap lower
    end_destroy take_containers take_tasks forget run_all
both_ran = refl

end_destroy-settled_example :
    let s' = end_destroy ended in
    count (is_pending 1) s'.pending + held 1 s'.phase + settled 1 s' ≡ issued 1 s'.timer_id
unfolding init join take_id push_task alive get_local_task_container local_of first_available push
    loop_step step_from look pop_round begin_collect go_on take_task take_abandoned check_top
    finish_task is_available next_near_time wait_time contains emplace erase push_heap lower
end_destroy-settled_example = end_destroy-settled ended 1 ended-Reachable refl

-- A task that is pushed after the thread has asked for the size of its queue, and unscheduled before
-- the thread asks for that of the other queue, is run all the same.
abbrev raced : Timer
raced =
    let t : Task = record { abs_time = 5; task_id = 1 } in
    let s = take_id 0 5 (rounds 3 9 joined) in
    let s' = push_task 0 (record { status = using; tasks = []; abandon_tasks = [] }) t [] s in
    (unschedule 0 (record { status = using; tasks = t ∷ []; abandon_tasks = [] }) 1 1 s').1

raced_ran : map (λ r. r.task.task_id) (rounds 20 9 raced).ran ≡ 1 ∷ []
unfolding init join take_id push_task alive get_local_task_container local_of first_available push
    unschedule loop_step step_from look pop_round begin_collect go_on take_task take_abandoned
    check_top finish_task is_available next_near_time wait_time contains emplace erase push_heap
    lower
raced_ran = refl
