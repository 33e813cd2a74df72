-- ===== src/TimeThread/Callers.antt =====
-- The timer of src/schedule/time_thread.cpp: `scheduleAbs`, `unschedule` and their container.
use sofa_bolt_cpp.Base.{
  ℕ, zero, suc, ◌+◌, ◌≤◌, ◌≡◌, refl, inl, inr, Option, none, some, List, [], ◌∷◌, ◌++◌, ltb,
  Bool-cases, count, count-append, count-split, count-update, update, length, get_elem?, arith,
}
use sofa_bolt_cpp.TimeThread.{
  Task, AbandonTask, TaskContainer, using, Timer, push, first_available, get_local_task_container,
  local_of, task_queue_size,
}
use sofa_bolt_cpp.TimeThread.Steps.{join, take_id, push_task, unschedule}
use sofa_bolt_cpp.TimeThread.Counts.{
  is, is_task, is_pending, is_abandoned, tasks_in, abandoned_in, issued,
}
use sofa_bolt_cpp.TimeThread.Places.{At}

update-same :
    {A : Type 0} (f : A → ℕ) (i : ℕ) (g : A → A) (xs : List A)
    → ((x : A) → f (g x) ≡ f x)
    → count f (update i g xs) ≡ count f xs
update-same f i g [] e = refl
update-same f zero g (x ∷ xs) e = omega (arith, e x)
update-same f (suc i) g (x ∷ xs) e = omega (arith, update-same f i g xs e)

local-count :
    (f : TaskContainer → ℕ) (cs : List TaskContainer) (o : Option ℕ)
    → ((c : TaskContainer) → f (record c { status = using }) ≡ f c)
    → f (record { status = using; tasks = []; abandon_tasks = [] }) ≡ 0
    → count f (local_of cs o).1 ≡ count f cs
unfolding local_of
local-count f cs (some i) e z = update-same f i _ cs e
local-count f cs none e z =
    let made = count-append f cs (record { status = using; tasks = []; abandon_tasks = [] } ∷ []) in
    omega (arith, made, z)

pub join-At : (id : ℕ) (s : Timer) → At id s → At id (join s)
unfolding join get_local_task_container
join-At id s h =
    let same =
      local-count (tasks_in id) s.containers (first_available s.containers) (λ c. refl) refl in
    let heard =
      local-count (abandoned_in id) s.containers (first_available s.containers) (λ c. refl) refl in
    record {
      once = omega (arith, h.once, same);
      known = h.known;
      heard = omega (arith, h.heard, heard);
      started = h.started;
      lost = h.lost;
    }

pub take_id-At : (id k time : ℕ) (s : Timer) → At id s → At id (take_id k time s)
unfolding take_id
take_id-At id k time s h = record {
  once = omega (arith, h.once, more id s.timer_id h.started);
  known = h.known;
  heard = h.heard;
  started = omega (arith, h.started);
  lost = h.lost;
}
  where
    more : (x n : ℕ) → 1 ≤ n → issued x (suc n) ≡ issued x n + is x n
    more x n e = ground arith

pub push_task-At :
    (id k : ℕ) (t : Task) (c : TaskContainer) (front back : List (ℕ × Task)) (s : Timer)
    → s.pending ≡ front ++ ((k, t) ∷ back)
    → get_elem? s.containers k ≡ some c
    → At id s
    → At id (push_task k c t (front ++ back) s)
unfolding push_task push
push_task-At id k t c front back s e f h =
    let was = count-split (is_pending id) front (k, t) back in
    let now = count-append (is_pending id) front back in
    let had : count (is_pending id) s.pending ≡ count (is_pending id) (front ++ ((k, t) ∷ back)) =
      rw e refl in
    elim (Bool-cases (ltb (length c.tasks) task_queue_size)) [
      | inl x ↦
          let put : TaskContainer → TaskContainer = λ d. record d { tasks = c.tasks ++ (t ∷ []) } in
          let moved = count-update (tasks_in id) k put s.containers c f in
          let same = count-update (abandoned_in id) k put s.containers c f in
          let one = count-append (is_task id) c.tasks (t ∷ []) in
          rw x (record {
            once = omega (arith, h.once, was, now, had, moved, one);
            known = h.known;
            heard = omega (arith, h.heard, same);
            started = h.started;
            lost = h.lost;
          })
      | inr x ↦
          let one = count-append (is_task id) s.refused (t ∷ []) in
          rw x (record {
            once = omega (arith, h.once, was, now, had, one);
            known = h.known;
            heard = h.heard;
            started = h.started;
            lost = h.lost;
          })
    ]

pub unschedule-At :
    (id k now x : ℕ) (c : TaskContainer) (s : Timer)
    → get_elem? s.containers k ≡ some c
    → At id s
    → At id (unschedule k c now x s).1
unfolding unschedule push
unschedule-At id k now x c s f h =
    elim (Bool-cases (ltb (length c.abandon_tasks) task_queue_size)) [
      | inl b ↦
          let a : AbandonTask = record { at_time = now; abandoned_id = x } in
          let put : TaskContainer → TaskContainer =
            λ d. record d { abandon_tasks = c.abandon_tasks ++ (a ∷ []) } in
          let same = count-update (tasks_in id) k put s.containers c f in
          let moved = count-update (abandoned_in id) k put s.containers c f in
          let one = count-append (is_abandoned id) c.abandon_tasks (a ∷ []) in
          let said = count-append (is id) s.unscheduled (x ∷ []) in
          rw b (record {
            once = omega (arith, h.once, same);
            known = omega (arith, h.known, said);
            heard = omega (arith, h.heard, moved, one, said);
            started = h.started;
            lost = omega (arith, h.lost, said);
          })
      | inr b ↦ rw b h
    ]
