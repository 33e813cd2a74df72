-- ===== src/TimeThread/Places.antt =====
-- The timer of src/schedule/time_thread.cpp: a task goes to the heap, and a number is forgotten.
use sofa_bolt_cpp.Base.{
  ℕ, ◌+◌, ◌≤◌, ◌≡◌, refl, inl, inr, some, List, [], ◌∷◌, ◌==◌, Bool-cases, count, count-update,
  get_elem?, arith,
}
use sofa_bolt_cpp.TimeThread.{Task, AbandonTask, TaskContainer, Phase, Timer}
use sofa_bolt_cpp.TimeThread.Loop.{take_task, take_abandoned, go_on}
use sofa_bolt_cpp.TimeThread.Counts.{
  is, is_task, is_abandoned, tasks_in, abandoned_in, held, waiting, settled, issued, emplace-keeps,
  emplace-has, erase-others, push_heap-count,
}

-- Every number that was given out is at one place. A task that the timer's thread has is active,
-- or its number was given to `unschedule`; so was the number of a task that is dropped.
pub record At (id : ℕ) (s : Timer) : Type 0 where
  pub once : waiting id s + settled id s ≡ issued id s.timer_id
  pub known :
      count (is_task id) s.heap + held id s.phase
      ≤ count (is id) s.active_ids + count (is id) s.unscheduled
  pub heard : count (abandoned_in id) s.containers ≤ count (is id) s.unscheduled
  pub started : 1 ≤ s.timer_id
  pub lost : count (is_task id) s.dropped ≤ count (is id) s.unscheduled

pub issued-le : (id n : ℕ) → issued id n ≤ 1
issued-le id n = ground arith

-- A change of phase alone, with the same task in hand.
pub At-phase :
    (id : ℕ) (s : Timer) (p : Phase)
    → held id p ≡ held id s.phase
    → At id s
    → At id (record s { phase = p })
At-phase id s p e h = record {
  once = omega (arith, h.once, e);
  known = omega (arith, h.known, e);
  heard = h.heard;
  started = h.started;
  lost = h.lost;
}

pub take_task-At :
    (id i : ℕ) (c : TaskContainer) (ts : List Task) (s : Timer) (more stop : Phase)
    → get_elem? s.containers i ≡ some c
    → c.tasks ≡ ts
    → held id more ≡ held id s.phase
    → held id stop ≡ held id s.phase
    → At id s
    → At id (go_on more stop s (take_task i ts s))
unfolding take_task go_on
take_task-At id i c [] s more stop e q f g h = At-phase id s stop g h
take_task-At id i c (t ∷ ts) s more stop e q f g h =
    let put : TaskContainer → TaskContainer = λ d. record d { tasks = ts } in
    let moved = count-update (tasks_in id) i put s.containers c e in
    let had : tasks_in id c ≡ is_task id t + count (is_task id) ts = rw q refl in
    let same = count-update (abandoned_in id) i put s.containers c e in
    let pushed = push_heap-count (is_task id) t s.heap in
    record {
      once = omega (arith, h.once, moved, had, pushed, f);
      known = omega (
        arith,
        h.known,
        h.once,
        moved,
        had,
        pushed,
        f,
        issued-le id s.timer_id,
        emplace-keeps id t.task_id s.active_ids,
        emplace-has id t.task_id s.active_ids,
      );
      heard = omega (arith, h.heard, same);
      started = h.started;
      lost = h.lost;
    }

pub take_abandoned-At :
    (id i : ℕ) (c : TaskContainer) (rest : List AbandonTask) (s : Timer) (more stop : Phase)
    → get_elem? s.containers i ≡ some c
    → c.abandon_tasks ≡ rest
    → held id more ≡ held id s.phase
    → held id stop ≡ held id s.phase
    → At id s
    → At id (go_on more stop s (take_abandoned i rest s))
unfolding take_abandoned go_on
take_abandoned-At id i c [] s more stop e q f g h = At-phase id s stop g h
take_abandoned-At id i c (a ∷ rest) s more stop e q f g h =
    let put : TaskContainer → TaskContainer = λ d. record d { abandon_tasks = rest } in
    let same = count-update (tasks_in id) i put s.containers c e in
    let moved = count-update (abandoned_in id) i put s.containers c e in
    let had : abandoned_in id c ≡ is_abandoned id a + count (is_abandoned id) rest = rw q refl in
    record {
      once = omega (arith, h.once, same, f);
      known = elim (Bool-cases (id == a.abandoned_id)) [
        | inl eq ↦
            let one : is_abandoned id a ≡ 1 = rw eq refl in
            omega (arith, h.once, h.heard, f, moved, had, one, issued-le id s.timer_id)
        | inr ne ↦ omega (arith, h.known, f, erase-others id a.abandoned_id s.active_ids ne)
      ];
      heard = omega (arith, h.heard, moved, had);
      started = h.started;
      lost = h.lost;
    }
