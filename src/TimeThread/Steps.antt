-- ===== src/TimeThread/Steps.antt =====
-- src/schedule/time_thread.cpp: the timer's thread and its callers, one access at a time.
use sofa_bolt_cpp.Base.{
  ℕ, suc, ◌≡◌, Bool, true, false, Option, none, some, List, [], ◌∷◌, ◌++◌, get_elem?, update,
}
use sofa_bolt_cpp.TimeThread.{
  Task, AbandonTask, TaskContainer, Phase, destroyed, Timer, init, push, lower,
  get_local_task_container,
}
use sofa_bolt_cpp.TimeThread.Loop.{loop_step}

-- The containers are there until `destroy` deletes them; who calls later is a caller's error.
unfoldable pub alive : Phase → Bool
alive destroyed = false
alive other = true

-- `getLocalTaskContainer` of a thread that has none.
unfoldable pub join : Timer → Timer
join s = record s { containers = (get_local_task_container s.containers).1 }

-- `fetch_add` of `scheduleAbs`, by the thread whose container is `k`.
unfoldable pub take_id : ℕ → ℕ → Timer → Timer
take_id k time s = record s {
  timer_id = suc s.timer_id;
  pending = (k, record { abs_time = time; task_id = s.timer_id }) ∷ s.pending;
}

-- `push` of `scheduleAbs`, where `c` is the container and `rest` the other calls in progress.
unfoldable pub push_task : ℕ → TaskContainer → Task → List (ℕ × Task) → Timer → Timer
push_task k c t rest s = pushed (push t c.tasks)
  where
    pushed : Option (List Task) → Timer
    pushed none = record s { pending = rest; refused = s.refused ++ (t ∷ []) }
    pushed (some ts) = record s {
      pending = rest;
      containers = update k (λ d. record d { tasks = ts }) s.containers;
    }

-- `unschedule`, when the clock says `now`; a full queue changes nothing.
unfoldable pub unschedule : ℕ → TaskContainer → ℕ → ℕ → Timer → Bool × Timer
unschedule k c now id s =
    pushed (push (record { at_time = now; abandoned_id = id }) c.abandon_tasks)
  where
    pushed : Option (List AbandonTask) → Bool × Timer
    pushed none = (false, s)
    pushed (some q) = (
      true,
      record s {
        containers = update k (λ d. record d { abandon_tasks = q }) s.containers;
        unscheduled = s.unscheduled ++ (id ∷ []);
      },
    )

pub data Step : Timer → Timer → Type 0 where
  loops : (s : Timer) (now : ℕ) → Step s (loop_step now s)
  joins : (s : Timer) → alive s.phase ≡ true → Step s (join s)
  takes_id : (s : Timer) (k time : ℕ) → s.exit ≡ false → Step s (take_id k time s)
  pushes :
      (s : Timer) (front back : List (ℕ × Task)) (k : ℕ) (t : Task) (c : TaskContainer)
      → s.pending ≡ front ++ ((k, t) ∷ back)
      → get_elem? s.containers k ≡ some c
      → Step s (push_task k c t (front ++ back) s)
  lowers :
      (s : Timer) (time : ℕ)
      → Step s (record s { nearest_run_time = lower time s.nearest_run_time })
  unschedules :
      (s : Timer) (k now id : ℕ) (c : TaskContainer)
      → get_elem? s.containers k ≡ some c
      → Step s ((unschedule k c now id s).1)
  exits : (s : Timer) → Step s (record s { exit = true })

-- What steps reach from a timer just made. `destroy` is one of them up to the end of the timer's thread,
-- `exits`; callers may go on after that.
pub data Reachable : Timer → Type 0 where
  start : Reachable init
  next : (s s' : Timer) → Reachable s → Step s s' → Reachable s'
