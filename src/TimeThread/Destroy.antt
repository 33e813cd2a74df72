-- ===== src/TimeThread/Destroy.antt =====
-- The timer of src/schedule/time_thread.cpp: `destroy` after the timer's thread has ended.
use sofa_bolt_cpp.Base.{
  ℕ, ◌≡◌, refl, inl, inr, Option, none, List, [], ◌∷◌, ◌∙◌, subst, Bool-cases, arith,
}
use sofa_bolt_cpp.TimeThread.{
  Task, AbandonTask, TaskContainer, at_destroy, destroyed, Timer, erase, contains,
}
use sofa_bolt_cpp.TimeThread.Loop.{
  take_task, take_abandoned, go_on, finish_task, take_tasks, forget, take_containers, run_all,
  end_destroy,
}
use sofa_bolt_cpp.TimeThread.Counts.{tasks_in, held}
use sofa_bolt_cpp.TimeThread.Places.{At, take_task-At, take_abandoned-At}
use sofa_bolt_cpp.TimeThread.Once.{finish_task-At}

-- `destroy`, from the first container on.
take_tasks-At :
    (id : ℕ) (c : TaskContainer) (ts : List Task) (cs : List TaskContainer) (s : Timer)
    → At id (record s { containers = record c { tasks = ts } ∷ cs })
    → At id (record (take_tasks ts s) { containers = record c { tasks = [] } ∷ cs })
unfolding take_tasks take_task go_on
take_tasks-At id c [] cs s h = h
take_tasks-At id c (t ∷ ts) cs s h = take_tasks-At id c ts cs _ (
    take_task-At id 0 (record c { tasks = t ∷ ts }) (t ∷ ts)
      (record s { containers = record c { tasks = t ∷ ts } ∷ cs }) s.phase s.phase refl refl refl
      refl h)

forget-At :
    (id : ℕ) (c : TaskContainer) (rest : List AbandonTask) (cs : List TaskContainer) (s : Timer)
    → c.tasks ≡ []
    → At id (record s { containers = record c { abandon_tasks = rest } ∷ cs })
    → At id (record s { active_ids = forget rest s.active_ids; containers = cs })
unfolding forget take_abandoned go_on
forget-At id c [] cs s e h =
    let none_left : tasks_in id c ≡ 0 = rw e refl in
    record {
      once = omega (arith, h.once, none_left);
      known = h.known;
      heard = omega (arith, h.heard);
      started = h.started;
      lost = h.lost;
    }
forget-At id c (a ∷ rest) cs s e h =
    forget-At id c rest cs (record s { active_ids = erase a.abandoned_id s.active_ids }) e
      (take_abandoned-At id 0 (record c { abandon_tasks = a ∷ rest }) (a ∷ rest)
        (record s { containers = record c { abandon_tasks = a ∷ rest } ∷ cs }) s.phase s.phase refl
        refl refl refl h)

take_containers-At :
    (id : ℕ) (cs : List TaskContainer) (s : Timer)
    → At id (record s { containers = cs })
    → At id (record (take_containers cs s) { containers = [] })
unfolding take_containers
take_containers-At id [] s h = h
take_containers-At id (c ∷ cs) s h = take_containers-At id cs _ (
    forget-At id (record c { tasks = [] }) c.abandon_tasks cs (take_tasks c.tasks s) refl
      (take_tasks-At id c c.tasks cs s h))

pub finish_task-heap : (now : Option ℕ) (u : Task) (r : Timer) → (finish_task now u r).heap ≡ r.heap
unfolding finish_task
finish_task-heap now u r = elim (Bool-cases (contains u.task_id r.active_ids)) [
  | inl c ↦ rw c refl
  | inr c ↦ rw c refl
]

finish_task-containers :
    (now : Option ℕ) (u : Task) (r : Timer) → (finish_task now u r).containers ≡ r.containers
unfolding finish_task
finish_task-containers now u r = elim (Bool-cases (contains u.task_id r.active_ids)) [
  | inl c ↦ rw c refl
  | inr c ↦ rw c refl
]

pub finish_task-phase :
    (now : Option ℕ) (u : Task) (r : Timer) → (finish_task now u r).phase ≡ r.phase
unfolding finish_task
finish_task-phase now u r = elim (Bool-cases (contains u.task_id r.active_ids)) [
  | inl c ↦ rw c refl
  | inr c ↦ rw c refl
]

run_all-At : (id : ℕ) (us : List Task) (s : Timer) → s.heap ≡ us → At id s → At id (run_all us s)
unfolding run_all
run_all-At id [] s e h = h
run_all-At id (t ∷ us) s e h =
    run_all-At id us _ (finish_task-heap none t (record s { heap = us })) (
      finish_task-At id none t (record s { heap = us })
        (subst (λ l. At id (record s { heap = l })) e h))

pub end_destroy-At : (id : ℕ) (s : Timer) → s.phase ≡ at_destroy → At id s → At id (end_destroy s)
unfolding end_destroy take_tasks take_containers
end_destroy-At id s e h =
    let s' = take_containers s.containers s in
    let h' = take_containers-At id s.containers s h in
    let free : held id s'.phase ≡ 0 = rw (take_containers-phase s.containers s, e) refl in
    run_all-At id s'.heap (record s' { containers = []; phase = destroyed }) refl
      (record {
        once = omega (arith, h'.once, free);
        known = omega (arith, h'.known, free);
        heard = h'.heard;
        started = h'.started;
        lost = h'.lost;
      })
  where
    take_tasks-phase : (ts : List Task) (r : Timer) → (take_tasks ts r).phase ≡ r.phase
    take_tasks-phase [] r = refl
    take_tasks-phase (t ∷ ts) r = take_tasks-phase ts _

    take_containers-phase :
        (cs : List TaskContainer) (r : Timer) → (take_containers cs r).phase ≡ r.phase
    take_containers-phase [] r = refl
    take_containers-phase (c ∷ cs) r = take_containers-phase cs _ ∙ take_tasks-phase c.tasks r

pub end_destroy-empty :
    (s : Timer) → ((end_destroy s).heap ≡ []) × ((end_destroy s).containers ≡ [])
unfolding end_destroy run_all
end_destroy-empty s =
    let s' = take_containers s.containers s in
    run s'.heap (record s' { containers = []; phase = destroyed }) refl refl
  where
    run :
        (us : List Task) (r : Timer)
        → r.heap ≡ us
        → r.containers ≡ []
        → ((run_all us r).heap ≡ []) × ((run_all us r).containers ≡ [])
    run [] r e f = (e, f)
    run (t ∷ us) r e f =
        let r' = record r { heap = us } in
        run us _ (finish_task-heap none t r') (finish_task-containers none t r' ∙ f)
