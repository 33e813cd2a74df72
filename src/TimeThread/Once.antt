-- ===== src/TimeThread/Once.antt =====
-- The timer of src/schedule/time_thread.cpp: no task is lost, and none is run twice.
use sofa_bolt_cpp.Base.{
  ℕ, zero, suc, ◌+◌, ◌≡◌, refl, inl, inr, Option, none, some, List, [], ◌∷◌, ltb, ◌==◌, Bool-cases,
  ==→eq, count, count-append, get_elem?, arith,
}
use sofa_bolt_cpp.TimeThread.{
  Task, TaskContainer, Phase, outside, sized, selects, drains, collects, checks, holds, recollects,
  finishes, at_destroy, destroyed, Timer, contains,
}
use sofa_bolt_cpp.TimeThread.Loop.{
  is_available, take_task, take_abandoned, check_top, finish_task, look, pop_round, begin_collect,
  step_from,
}
use sofa_bolt_cpp.TimeThread.Counts.{is, is_task, is_run, held, contains-absent, erase-others}
use sofa_bolt_cpp.TimeThread.Places.{At, issued-le, At-phase, take_task-At, take_abandoned-At}

-- The task at hand is run or dropped.
pub finish_task-At :
    (id : ℕ) (now : Option ℕ) (t : Task) (s : Timer)
    → At id (record s { heap = t ∷ s.heap })
    → At id (finish_task now t s)
unfolding finish_task
finish_task-At id now t s h = elim (Bool-cases (contains t.task_id s.active_ids)) [
  | inl e ↦
      let more = count-append (is_run id) s.ran (record { clock = now; task = t } ∷ []) in
      rw e (record {
        once = omega (arith, h.once, more);
        known = elim (Bool-cases (id == t.task_id)) [
          | inl eq ↦
              let one : is_task id t ≡ 1 = rw eq refl in
              omega (arith, h.once, one, issued-le id s.timer_id)
          | inr ne ↦
              let nil : is_task id t ≡ 0 = rw ne refl in
              omega (arith, h.known, nil, erase-others id t.task_id s.active_ids ne)
        ];
        heard = h.heard;
        started = h.started;
        lost = h.lost;
      })
  | inr e ↦
      let more = count-append (is_task id) s.dropped (t ∷ []) in
      rw e (record {
        once = omega (arith, h.once, more);
        known = omega (arith, h.known);
        heard = h.heard;
        started = h.started;
        lost = elim (Bool-cases (id == t.task_id)) [
          | inl eq ↦
              let one : is_task id t ≡ 1 = rw eq refl in
              let none_active : count (is id) s.active_ids ≡ 0 =
                rw (==→eq id t.task_id eq) (contains-absent t.task_id s.active_ids e) in
              omega (arith, h.once, h.known, one, none_active, more, issued-le id s.timer_id)
          | inr ne ↦ let nil : is_task id t ≡ 0 = rw ne refl in omega (arith, h.lost, more, nil)
        ];
      })
]

check_top-At :
    (id now : ℕ) (us : List Task) (s : Timer)
    → s.heap ≡ us
    → held id s.phase ≡ 0
    → At id s
    → At id (check_top now us s)
unfolding check_top
check_top-At id now [] s e f h = At-phase id s finishes (omega (arith, f)) h
check_top-At id now (t ∷ us) s e f h = elim (Bool-cases (ltb now t.abs_time)) [
  | inl l ↦ rw l (At-phase id s finishes (omega (arith, f)) h)
  | inr l ↦ rw l (elim (Bool-cases (ltb s.nearest_run_time t.abs_time)) [
    | inl m ↦ rw m (At-phase id s outside (omega (arith, f)) h)
    | inr m ↦
        let had : count (is_task id) s.heap ≡ is_task id t + count (is_task id) us = rw e refl in
        rw m (record {
          once = omega (arith, h.once, had, f);
          known = omega (arith, h.known, had, f);
          heard = h.heard;
          started = h.started;
          lost = h.lost;
        })
  ])
]

look-At :
    (id : ℕ) (past : Phase) (f : TaskContainer → Phase) (s : Timer) (o : Option TaskContainer)
    → held id past ≡ held id s.phase
    → ((c : TaskContainer) → held id (f c) ≡ held id s.phase)
    → At id s
    → At id (look past f s o)
unfolding look
look-At id past f s none e g h = At-phase id s past e h
look-At id past f s (some c) e g h = elim (Bool-cases (is_available c.status)) [
  | inl a ↦ rw a (At-phase id s past e h)
  | inr a ↦ rw a (At-phase id s (f c) (g c) h)
]

begin_collect-At :
    (id i n : ℕ) (s : Timer) (o : Option TaskContainer)
    → held id s.phase ≡ 0
    → At id s
    → At id (begin_collect i n s o)
unfolding begin_collect
begin_collect-At id i n s none e h = At-phase id s _ (omega (arith, e)) h
begin_collect-At id i n s (some c) e h = At-phase id s _ (omega (arith, e)) h

-- A round on the queue of the container `i`.
drain-At :
    (id i : ℕ) (s : Timer) (more stop : Phase) (o : Option TaskContainer)
    → get_elem? s.containers i ≡ o
    → held id more ≡ held id s.phase
    → held id stop ≡ held id s.phase
    → At id s
    → At id (pop_round more stop (λ c. take_task i c.tasks) s o)
unfolding pop_round
drain-At id i s more stop none e f g h = At-phase id s stop g h
drain-At id i s more stop (some c) e f g h = take_task-At id i c c.tasks s more stop e refl f g h

collect-At :
    (id i : ℕ) (s : Timer) (more stop : Phase) (o : Option TaskContainer)
    → get_elem? s.containers i ≡ o
    → held id more ≡ held id s.phase
    → held id stop ≡ held id s.phase
    → At id s
    → At id (pop_round more stop (λ c. take_abandoned i c.abandon_tasks) s o)
unfolding pop_round
collect-At id i s more stop none e f g h = At-phase id s stop g h
collect-At id i s more stop (some c) e f g h =
    take_abandoned-At id i c c.abandon_tasks s more stop e refl f g h

pub step_from-At :
    (id now : ℕ) (s : Timer) (p : Phase) → s.phase ≡ p → At id s → At id (step_from now s p)
unfolding step_from
step_from-At id now s outside e h = elim (Bool-cases s.exit) [
  | inl x ↦ rw x (record {
    once = omega (arith, h.once, gone);
    known = omega (arith, h.known, gone);
    heard = h.heard;
    started = h.started;
    lost = h.lost;
  })
  | inr x ↦ rw x (record {
    once = omega (arith, h.once, gone);
    known = omega (arith, h.known, gone);
    heard = h.heard;
    started = h.started;
    lost = h.lost;
  })
]
  where
    gone : held id s.phase ≡ 0
    gone = rw e refl
step_from-At id now s sized e h = At-phase id s _ (rw e refl) h
step_from-At id now s (selects i n) e h = elim (Bool-cases (i == n)) [
  | inl x ↦ rw x (At-phase id s checks (rw e refl) h)
  | inr x ↦ rw x (look-At id _ _ s _ (rw e refl) (λ c. rw e refl) h)
]
step_from-At id now s (drains i n zero) e h = begin_collect-At id i n s _ (rw e refl) h
step_from-At id now s (drains i n (suc k)) e h =
    drain-At id i s _ _ _ refl (rw e refl) (rw e refl) h
step_from-At id now s (collects i n zero) e h = At-phase id s _ (rw e refl) h
step_from-At id now s (collects i n (suc k)) e h =
    collect-At id i s _ _ _ refl (rw e refl) (rw e refl) h
step_from-At id now s checks e h = check_top-At id now s.heap s refl (rw e refl) h
step_from-At id now s (holds asked t i n) e h = elim (Bool-cases (i == n)) [
  | inl x ↦ rw x (finish_task-At id (some asked) t (record s { phase = checks }) (on_heap h))
  | inr x ↦ rw x (look-At id _ _ s _ (rw e refl) (λ c. rw e refl) h)
]
  where
    in_hand : held id s.phase ≡ is_task id t
    in_hand = rw e refl

    on_heap : At id s → At id (record s { heap = t ∷ s.heap; phase = checks })
    on_heap g = record {
      once = omega (arith, g.once, in_hand);
      known = omega (arith, g.known, in_hand);
      heard = g.heard;
      started = g.started;
      lost = g.lost;
    }
step_from-At id now s (recollects asked t i n zero) e h = At-phase id s _ (rw e refl) h
step_from-At id now s (recollects asked t i n (suc k)) e h =
    collect-At id i s _ _ _ refl (rw e refl) (rw e refl) h
step_from-At id now s finishes e h = record {
  once = omega (arith, h.once, none_held);
  known = omega (arith, h.known, none_held);
  heard = h.heard;
  started = h.started;
  lost = h.lost;
}
  where
    none_held : held id s.phase ≡ 0
    none_held = rw e refl
step_from-At id now s at_destroy e h = h
step_from-At id now s destroyed e h = h
