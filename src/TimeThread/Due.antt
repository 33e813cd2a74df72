-- ===== src/TimeThread/Due.antt =====
-- The timer of src/schedule/time_thread.cpp: the loop runs no task before its time.
use sofa_bolt_cpp.Base.{
  ℕ, ◌+◌, ◌≤◌, ◌<◌, ◌≡◌, refl, inl, inr, List, [], ◌∷◌, ◌++◌, if◌then◌else◌, ltb, ◌*◌, Bool-cases,
  count, length, arith,
}
use sofa_bolt_cpp.TimeThread.{
  Task, TaskContainer, finishes, Timer, init, push, lower, task_queue_size,
}
use sofa_bolt_cpp.TimeThread.Loop.{step_from, loop_step, wait_time, next_near_time}
use sofa_bolt_cpp.TimeThread.Steps.{
  join, take_id, push_task, unschedule, Step, loops, joins, takes_id, pushes, lowers, unschedules,
  exits, Reachable, start, next,
}
use sofa_bolt_cpp.TimeThread.Order.{
  sooner, sooner-le, disorder, early, misplaced, Ordered, step_from-Ordered,
}

push_task-Ordered :
    (k : ℕ) (c : TaskContainer) (t : Task) (rest : List (ℕ × Task)) (s : Timer)
    → Ordered s
    → Ordered (push_task k c t rest s)
unfolding push_task push
push_task-Ordered k c t rest s h = elim (Bool-cases (ltb (length c.tasks) task_queue_size)) [
  | inl x ↦ rw x (record { sorted = h.sorted; hand = h.hand; due = h.due })
  | inr x ↦ rw x (record { sorted = h.sorted; hand = h.hand; due = h.due })
]

unschedule-Ordered :
    (k now x : ℕ) (c : TaskContainer) (s : Timer) → Ordered s → Ordered (unschedule k c now x s).1
unfolding unschedule push
unschedule-Ordered k now x c s h =
    elim (Bool-cases (ltb (length c.abandon_tasks) task_queue_size)) [
      | inl b ↦ rw b (record { sorted = h.sorted; hand = h.hand; due = h.due })
      | inr b ↦ rw b h
    ]

Step-Ordered : {s s' : Timer} → Step s s' → Ordered s → Ordered s'
unfolding loop_step join take_id
Step-Ordered (loops s now) h = step_from-Ordered now s s.phase refl h
Step-Ordered (joins s a) h = record { sorted = h.sorted; hand = h.hand; due = h.due }
Step-Ordered (takes_id s k time e) h = record { sorted = h.sorted; hand = h.hand; due = h.due }
Step-Ordered (pushes s front back k t c e f) h = push_task-Ordered k c t (front ++ back) s h
Step-Ordered (lowers s time) h = record { sorted = h.sorted; hand = h.hand; due = h.due }
Step-Ordered (unschedules s k now x c f) h = unschedule-Ordered k now x c s h
Step-Ordered (exits s) h = record { sorted = h.sorted; hand = h.hand; due = h.due }

Reachable-Ordered : {s : Timer} → Reachable s → Ordered s
unfolding init
Reachable-Ordered start = record { sorted = refl; hand = refl; due = refl }
Reachable-Ordered (next s s' r st) = Step-Ordered st (Reachable-Ordered r)

-- In every state that the timer's thread and its callers reach before `destroy` goes over the
-- containers, each task that was run had its time before the clock was read for it; and the task that
-- the timer's thread has in hand is one of the earliest of those on the heap, and its time has come.
pub Reachable-due :
    (s : Timer) → Reachable s → (count early s.ran ≡ 0) × (misplaced s.phase s.heap ≡ 0)
Reachable-due s r = let h = Reachable-Ordered r in (h.due, h.hand)

wait_time-within :
    (nearest cur : ℕ)
    → 0 < wait_time nearest cur
    → (cur + wait_time nearest cur ≤ nearest) × (wait_time nearest cur ≤ 3600 * 1000 * 1000)
unfolding wait_time
wait_time-within nearest cur h = (ground arith, ground arith)

-- The heap has nothing before its top.
heap-sooner :
    (time : ℕ) (us : List Task)
    → disorder us ≡ 0
    → time ≤ next_near_time us
    → count (sooner time) us ≡ 0
unfolding next_near_time
heap-sooner time [] h e = refl
heap-sooner time (t ∷ us) h e =
    omega (arith, h, sooner-le time t.abs_time us e, not_sooner t.abs_time e)
  where
    not_sooner : (a : ℕ) → time ≤ a → (if ltb a time then 1 else 0) ≤ 0
    not_sooner a f = ground arith

-- After the last access of a round in a reachable state, when the thread waits at all, it does so for
-- an hour at most, and not past the time of any task on its heap.
pub wait_time-heap :
    (s : Timer) (cur : ℕ)
    → Reachable s
    → s.phase ≡ finishes
    → 0 < wait_time (step_from cur s finishes).nearest_run_time cur
    → let wait = wait_time (step_from cur s finishes).nearest_run_time cur in
      (count (sooner (cur + wait)) s.heap ≡ 0) × (wait ≤ 3600 * 1000 * 1000)
unfolding step_from lower
wait_time-heap s cur r e h =
    let (within, hour) = wait_time-within (step_from cur s finishes).nearest_run_time cur h in
    let low = lower-le (next_near_time s.heap) s.nearest_run_time in
    (heap-sooner _ s.heap (Reachable-Ordered r).sorted (omega (arith, within, low)), hour)
  where
    lower-le : (a b : ℕ) → lower a b ≤ a
    lower-le a b = ground arith
