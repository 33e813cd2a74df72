-- ===== src/TimeThread/Loop.antt =====
-- src/schedule/time_thread.cpp: `loopOnce` one access at a time, and `destroy`.
use sofa_bolt_cpp.Base.{
  ℕ, zero, suc, ◌-◌, ◌*◌, Bool, true, false, Option, none, some, List, [], ◌∷◌, ◌++◌, if◌then◌else◌,
  ltb, leb, ◌==◌, length, get_elem?, update,
}
use sofa_bolt_cpp.TimeThread.{
  Task, AbandonTask, TaskContainer, Status, available, never, Phase, outside, sized, selects,
  drains, collects, checks, holds, recollects, finishes, at_destroy, destroyed, Timer, contains,
  emplace, erase, push_heap, lower,
}

-- How many tasks, or abandoned ones, a container holds when the loop looks at it; nothing is looked
-- at in one that is available.
unfoldable pub is_available : Status → Bool
is_available available = true
is_available other = false

-- The next task goes from the container to the set and to the heap.
unfoldable pub take_task : ℕ → List Task → Timer → Option Timer
take_task i [] s = none
take_task i (t ∷ ts) s = some (record s {
  containers = update i (λ c. record c { tasks = ts }) s.containers;
  active_ids = emplace t.task_id s.active_ids;
  heap = push_heap t s.heap;
})

-- One round of `collectUnschedule(container)`.
unfoldable pub take_abandoned : ℕ → List AbandonTask → Timer → Option Timer
take_abandoned i [] s = none
take_abandoned i (a ∷ rest) s = some (record s {
  containers = update i (λ c. record c { abandon_tasks = rest }) s.containers;
  active_ids = erase a.abandoned_id s.active_ids;
})

-- The state after a round, in the phase that goes on, or as it was, in the phase after a `break`.
unfoldable pub go_on : Phase → Phase → Timer → Option Timer → Timer
go_on more stop s (some s') = record s' { phase = more }
go_on more stop s none = record s { phase = stop }

-- The head of the loop that runs tasks, when the clock says `now`.
unfoldable pub check_top : ℕ → List Task → Timer → Timer
check_top now [] s = record s { phase = finishes }
check_top now (t ∷ ts) s =
    if ltb now t.abs_time
    then record s { phase = finishes }
    else if ltb s.nearest_run_time t.abs_time
    then record s { phase = outside }
    else record s { heap = ts; phase = holds now t 0 (length s.containers) }

-- The task in hand is run, unless it is no longer active.
unfoldable pub finish_task : Option ℕ → Task → Timer → Timer
finish_task now t s =
    if contains t.task_id s.active_ids
    then record s {
      ran = s.ran ++ (record { clock = now; task = t } ∷ []);
      active_ids = erase t.task_id s.active_ids;
    }
    else record s { dropped = s.dropped ++ (t ∷ []) }

-- `next_near_time`
unfoldable pub next_near_time : List Task → ℕ
next_near_time [] = never
next_near_time (t ∷ ts) = t.abs_time

-- How long the loop waits, in microseconds, when the clock says `cur_time`; 0 where it does not.
unfoldable pub wait_time : ℕ → ℕ → ℕ
wait_time nearest cur_time =
    if leb nearest cur_time
    then 0
    else if ltb (3600 * 1000 * 1000) (nearest - cur_time)
    then 3600 * 1000 * 1000
    else nearest - cur_time

-- A loop looks at a container and goes on with it, unless it is available.
unfoldable pub look : Phase → (TaskContainer → Phase) → Timer → Option TaskContainer → Timer
look past f s none = record s { phase = past }
look past f s (some c) = record s { phase = if is_available c.status then past else f c }

-- A round on a container's queue.
unfoldable pub pop_round :
    Phase → Phase → (TaskContainer → Timer → Option Timer) → Timer → Option TaskContainer → Timer
pop_round more stop f s none = record s { phase = stop }
pop_round more stop f s (some c) = go_on more stop s (f c s)

-- `collectUnschedule(container)` begins.
unfoldable pub begin_collect : ℕ → ℕ → Timer → Option TaskContainer → Timer
begin_collect i n s none = record s { phase = selects (suc i) n }
begin_collect i n s (some c) = record s { phase = collects i n (length c.abandon_tasks) }

-- The next access of the timer's thread, when the clock says `now`.
unfoldable pub step_from : ℕ → Timer → Phase → Timer
step_from now s outside =
    if s.exit
    then record s { phase = at_destroy }
    else record s { nearest_run_time = never; phase = sized }
step_from now s sized = record s { phase = selects 0 (length s.containers) }
step_from now s (selects i n) =
    if i == n
    then record s { phase = checks }
    else look (selects (suc i) n) (λ c. drains i n (length c.tasks)) s (get_elem? s.containers i)
step_from now s (drains i n zero) = begin_collect i n s (get_elem? s.containers i)
step_from now s (drains i n (suc k)) =
    pop_round (drains i n k) (drains i n 0) (λ c. take_task i c.tasks) s (get_elem? s.containers i)
step_from now s (collects i n zero) = record s { phase = selects (suc i) n }
step_from now s (collects i n (suc k)) =
    pop_round (collects i n k) (collects i n 0) (λ c. take_abandoned i c.abandon_tasks) s
      (get_elem? s.containers i)
step_from now s checks = check_top now s.heap s
step_from now s (holds asked t i n) =
    if i == n
    then finish_task (some asked) t (record s { phase = checks })
    else look (holds asked t (suc i) n) (λ c. recollects asked t i n (length c.abandon_tasks)) s
        (get_elem? s.containers i)
step_from now s (recollects asked t i n zero) = record s { phase = holds asked t (suc i) n }
step_from now s (recollects asked t i n (suc k)) =
    pop_round (recollects asked t i n k) (recollects asked t i n 0)
      (λ c. take_abandoned i c.abandon_tasks) s (get_elem? s.containers i)
step_from now s finishes = record s {
  nearest_run_time = lower (next_near_time s.heap) s.nearest_run_time;
  phase = outside;
}
step_from now s at_destroy = s
step_from now s destroyed = s

unfoldable pub loop_step : ℕ → Timer → Timer
loop_step now s = step_from now s s.phase

-- `destroy` after the thread has ended, where no caller pushes in the meantime: what the containers
-- still hold goes to the heap and to the set, one container after the other.
unfoldable pub take_tasks : List Task → Timer → Timer
take_tasks [] s = s
take_tasks (t ∷ ts) s =
    take_tasks ts
      (record s { active_ids = emplace t.task_id s.active_ids; heap = push_heap t s.heap })

unfoldable pub forget : List AbandonTask → List ℕ → List ℕ
forget [] ids = ids
forget (a ∷ rest) ids = forget rest (erase a.abandoned_id ids)

unfoldable pub take_containers : List TaskContainer → Timer → Timer
take_containers [] s = s
take_containers (c ∷ cs) s =
    let s' = take_tasks c.tasks s in
    take_containers cs (record s' { active_ids = forget c.abandon_tasks s'.active_ids })

-- What is left on the heap is run, unless it is no longer active, here in the order of its times and not
-- in that of the vector. Nothing looks at the heap then.
unfoldable pub run_all : List Task → Timer → Timer
run_all [] s = s
run_all (t ∷ us) s = run_all us (finish_task none t (record s { heap = us }))

unfoldable pub end_destroy : Timer → Timer
end_destroy s =
    let s' = record (take_containers s.containers s) { containers = []; phase = destroyed } in
    run_all s'.heap s'
