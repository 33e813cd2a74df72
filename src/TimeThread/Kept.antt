-- ===== src/TimeThread/Kept.antt =====
-- The timer of src/schedule/time_thread.cpp: what holds of it in every interleaving of its thread and
-- of its callers, until `destroy` goes over the containers.
use sofa_bolt_cpp.Base.{ℕ, ◌+◌, ◌≤◌, ◌≡◌, refl, count, arith}
use sofa_bolt_cpp.TimeThread.{at_destroy, Timer, init}
use sofa_bolt_cpp.TimeThread.Loop.{loop_step, end_destroy}
use sofa_bolt_cpp.TimeThread.Steps.{
  Step, loops, joins, takes_id, pushes, lowers, unschedules, exits, Reachable, start, next,
}
use sofa_bolt_cpp.TimeThread.Counts.{
  is, is_task, is_pending, tasks_in, held, waiting, settled, issued,
}
use sofa_bolt_cpp.TimeThread.Places.{At}
use sofa_bolt_cpp.TimeThread.Once.{step_from-At}
use sofa_bolt_cpp.TimeThread.Destroy.{end_destroy-At, end_destroy-empty}
use sofa_bolt_cpp.TimeThread.Callers.{join-At, take_id-At, push_task-At, unschedule-At}

Step-At : {s s' : Timer} (id : ℕ) → Step s s' → At id s → At id s'
unfolding loop_step
Step-At id (loops s now) h = step_from-At id now s s.phase refl h
Step-At id (joins s a) h = join-At id s h
Step-At id (takes_id s k time e) h = take_id-At id k time s h
Step-At id (pushes s front back k t c e f) h = push_task-At id k t c front back s e f h
Step-At id (lowers s time) h = record {
  once = h.once;
  known = h.known;
  heard = h.heard;
  started = h.started;
  lost = h.lost;
}
Step-At id (unschedules s k now x c f) h = unschedule-At id k now x c s f h
Step-At id (exits s) h = record {
  once = h.once;
  known = h.known;
  heard = h.heard;
  started = h.started;
  lost = h.lost;
}

Reachable-At : {s : Timer} (id : ℕ) → Reachable s → At id s
unfolding init
Reachable-At id start = record {
  once = begin id;
  known = omega arith;
  heard = omega arith;
  started = omega arith;
  lost = omega arith;
}
  where
    begin : (x : ℕ) → 0 ≡ issued x 1
    begin x = ground arith
Reachable-At id (next s s' r st) = Step-At id st (Reachable-At id r)

-- In every state that the timer's thread and its callers reach before `destroy`, which first waits for
-- that thread to end, goes over the containers, each number that `fetch_add` gave out is at just one place: its task is on
-- its way to a container, in one, on the heap or in hand, or it was run, dropped or refused, and that
-- once. It was dropped only if its number was given to `unschedule`.
pub Reachable-places :
    (s : Timer) (id : ℕ)
    → Reachable s
    → (waiting id s + settled id s ≡ issued id s.timer_id)
      × (count (is_task id) s.dropped ≤ count (is id) s.unscheduled)
Reachable-places s id r = let h = Reachable-At id r in (h.once, h.lost)

-- When the rest of `destroy` runs alone after a reachable state whose thread has ended, every number given out
-- is that of one task that was run, dropped or refused, or that a caller has not yet pushed.
pub end_destroy-settled :
    (s : Timer) (id : ℕ)
    → Reachable s
    → s.phase ≡ at_destroy
    → let s' = end_destroy s in
      count (is_pending id) s'.pending + held id s'.phase + settled id s' ≡ issued id s'.timer_id
end_destroy-settled s id r e =
    let h = end_destroy-At id s e (Reachable-At id r) in
    let (heap, containers) = end_destroy-empty s in
    let none_on : count (is_task id) (end_destroy s).heap ≡ 0 = rw heap refl in
    let none_in : count (tasks_in id) (end_destroy s).containers ≡ 0 = rw containers refl in
    omega (arith, h.once, none_on, none_in)
