-- ===== src/TimeThread/Order.antt =====
-- The timer of src/schedule/time_thread.cpp: tasks are run at their time, the earliest first.
use sofa_bolt_cpp.Base.{
  ℕ, zero, suc, ◌+◌, ◌≤◌, ◌≡◌, refl, inl, inr, Option, none, some, List, [], ◌∷◌, subst,
  if◌then◌else◌, ltb, ◌==◌, Bool-cases, ltb→lt, ltb→le, count, count-append, arith,
}
use sofa_bolt_cpp.TimeThread.{
  Task, AbandonTask, TaskContainer, Phase, outside, sized, selects, drains, collects, checks, holds,
  recollects, finishes, at_destroy, destroyed, Run, Timer, contains, push_heap,
}
use sofa_bolt_cpp.TimeThread.Loop.{
  is_available, take_task, take_abandoned, go_on, check_top, finish_task, look, pop_round,
  begin_collect, step_from,
}
use sofa_bolt_cpp.TimeThread.Counts.{push_heap-count}

-- 1 for a task before a time; how many pairs of the heap are in the wrong order.
abbrev pub sooner : ℕ → Task → ℕ
sooner time t = if ltb t.abs_time time then 1 else 0

abbrev pub disorder : List Task → ℕ
disorder [] = 0
disorder (t ∷ us) = count (sooner t.abs_time) us + disorder us

-- 1 for a run whose clock said a time before the task's.
abbrev pub early_at : Option ℕ → Task → ℕ
early_at none t = 1
early_at (some now) t = if ltb now t.abs_time then 1 else 0

abbrev pub early : Run → ℕ
early r = early_at r.clock r.task

-- What is wrong with the task in hand: it is early, or tasks on the heap are before it.
abbrev pub misplaced : Phase → List Task → ℕ
misplaced (holds now t i n) us = early_at (some now) t + count (sooner t.abs_time) us
misplaced (recollects now t i n k) us = early_at (some now) t + count (sooner t.abs_time) us
misplaced other us = 0

pub record Ordered (s : Timer) : Type 0 where
  pub sorted : disorder s.heap ≡ 0
  pub hand : misplaced s.phase s.heap ≡ 0
  pub due : count early s.ran ≡ 0

pub sooner-le : (a b : ℕ) (us : List Task) → a ≤ b → count (sooner a) us ≤ count (sooner b) us
sooner-le a b [] e = omega arith
sooner-le a b (u ∷ us) e = omega (arith, sooner-le a b us e, one u.abs_time)
  where
    one : (x : ℕ) → (if ltb x a then 1 else 0) ≤ (if ltb x b then 1 else 0)
    one x = ground arith

pub push_heap-disorder :
    (t : Task) (us : List Task) → disorder us ≡ 0 → disorder (push_heap t us) ≡ 0
unfolding push_heap
push_heap-disorder t [] h = refl
push_heap-disorder t (u ∷ us) h = elim (Bool-cases (ltb t.abs_time u.abs_time)) [
  | inl e ↦
      let lt = ltb→lt t.abs_time u.abs_time e in
      rw e (
        omega (
          arith,
          h,
          sooner-le t.abs_time u.abs_time us (omega (arith, lt)),
          not_sooner t.abs_time u.abs_time (omega (arith, lt)),
        ))
  | inr e ↦
      let more = push_heap-count (sooner u.abs_time) t us in
      rw e (
        omega (
          arith,
          h,
          more,
          push_heap-disorder t us (omega (arith, h)),
          not_sooner u.abs_time t.abs_time (ltb→le t.abs_time u.abs_time e),
        ))
]
  where
    not_sooner : (a b : ℕ) → a ≤ b → (if ltb b a then 1 else 0) ≤ 0
    not_sooner a b e = ground arith

Ordered-phase :
    (s : Timer) (p : Phase) → misplaced p s.heap ≡ 0 → Ordered s → Ordered (record s { phase = p })
Ordered-phase s p e h = record { sorted = h.sorted; hand = e; due = h.due }

-- A round of a loop over a container.
take_task-Ordered :
    (i : ℕ) (ts : List Task) (s : Timer) (more stop : Phase)
    → ((us : List Task) → misplaced more us ≡ 0)
    → misplaced stop s.heap ≡ 0
    → Ordered s
    → Ordered (go_on more stop s (take_task i ts s))
unfolding take_task go_on
take_task-Ordered i [] s more stop e f h = Ordered-phase s stop f h
take_task-Ordered i (t ∷ ts) s more stop e f h = record {
  sorted = push_heap-disorder t s.heap h.sorted;
  hand = e (push_heap t s.heap);
  due = h.due;
}

take_abandoned-Ordered :
    (i : ℕ) (rest : List AbandonTask) (s : Timer) (more stop : Phase)
    → misplaced more s.heap ≡ 0
    → misplaced stop s.heap ≡ 0
    → Ordered s
    → Ordered (go_on more stop s (take_abandoned i rest s))
unfolding take_abandoned go_on
take_abandoned-Ordered i [] s more stop e f h = Ordered-phase s stop f h
take_abandoned-Ordered i (a ∷ rest) s more stop e f h = record {
  sorted = h.sorted;
  hand = e;
  due = h.due;
}

drain-Ordered :
    (i : ℕ) (s : Timer) (more stop : Phase) (o : Option TaskContainer)
    → ((us : List Task) → misplaced more us ≡ 0)
    → misplaced stop s.heap ≡ 0
    → Ordered s
    → Ordered (pop_round more stop (λ c. take_task i c.tasks) s o)
unfolding pop_round
drain-Ordered i s more stop none e f h = Ordered-phase s stop f h
drain-Ordered i s more stop (some c) e f h = take_task-Ordered i c.tasks s more stop e f h

collect-Ordered :
    (i : ℕ) (s : Timer) (more stop : Phase) (o : Option TaskContainer)
    → misplaced more s.heap ≡ 0
    → misplaced stop s.heap ≡ 0
    → Ordered s
    → Ordered (pop_round more stop (λ c. take_abandoned i c.abandon_tasks) s o)
unfolding pop_round
collect-Ordered i s more stop none e f h = Ordered-phase s stop f h
collect-Ordered i s more stop (some c) e f h =
    take_abandoned-Ordered i c.abandon_tasks s more stop e f h

look-Ordered :
    (past : Phase) (f : TaskContainer → Phase) (s : Timer) (o : Option TaskContainer)
    → misplaced past s.heap ≡ 0
    → ((c : TaskContainer) → misplaced (f c) s.heap ≡ 0)
    → Ordered s
    → Ordered (look past f s o)
unfolding look
look-Ordered past f s none e g h = Ordered-phase s past e h
look-Ordered past f s (some c) e g h = elim (Bool-cases (is_available c.status)) [
  | inl a ↦ rw a (Ordered-phase s past e h)
  | inr a ↦ rw a (Ordered-phase s (f c) (g c) h)
]

begin_collect-Ordered :
    (i n : ℕ) (s : Timer) (o : Option TaskContainer) → Ordered s → Ordered (begin_collect i n s o)
unfolding begin_collect
begin_collect-Ordered i n s none h = Ordered-phase s _ refl h
begin_collect-Ordered i n s (some c) h = Ordered-phase s _ refl h

check_top-Ordered :
    (now : ℕ) (us : List Task) (s : Timer) → s.heap ≡ us → Ordered s → Ordered (check_top now us s)
unfolding check_top
check_top-Ordered now [] s e h = Ordered-phase s finishes refl h
check_top-Ordered now (t ∷ us) s e h = elim (Bool-cases (ltb now t.abs_time)) [
  | inl l ↦ rw l (Ordered-phase s finishes refl h)
  | inr l ↦ rw l (elim (Bool-cases (ltb s.nearest_run_time t.abs_time)) [
    | inl m ↦ rw m (Ordered-phase s outside refl h)
    | inr m ↦
        let had : disorder s.heap ≡ count (sooner t.abs_time) us + disorder us = rw e refl in
        rw m (record {
          sorted = omega (arith, h.sorted, had);
          hand = rw l (omega (arith, h.sorted, had));
          due = h.due;
        })
  ])
]

-- The task in hand is run at its time, or dropped.
pub finish_task-Ordered :
    (now : Option ℕ) (t : Task) (s : Timer)
    → early_at now t ≡ 0
    → misplaced s.phase s.heap ≡ 0
    → Ordered s
    → Ordered (finish_task now t s)
unfolding finish_task
finish_task-Ordered now t s e f h = elim (Bool-cases (contains t.task_id s.active_ids)) [
  | inl c ↦
      let more = count-append early s.ran (record { clock = now; task = t } ∷ []) in
      rw c (record { sorted = h.sorted; hand = f; due = omega (arith, h.due, more, e) })
  | inr c ↦ rw c (record { sorted = h.sorted; hand = f; due = h.due })
]

pub step_from-Ordered :
    (now : ℕ) (s : Timer) (p : Phase) → s.phase ≡ p → Ordered s → Ordered (step_from now s p)
unfolding step_from
step_from-Ordered now s outside e h = elim (Bool-cases s.exit) [
  | inl x ↦ rw x (record { sorted = h.sorted; hand = refl; due = h.due })
  | inr x ↦ rw x (record { sorted = h.sorted; hand = refl; due = h.due })
]
step_from-Ordered now s sized e h = Ordered-phase s _ refl h
step_from-Ordered now s (selects i n) e h = elim (Bool-cases (i == n)) [
  | inl x ↦ rw x (Ordered-phase s checks refl h)
  | inr x ↦ rw x (look-Ordered _ _ s _ refl (λ c. refl) h)
]
step_from-Ordered now s (drains i n zero) e h = begin_collect-Ordered i n s _ h
step_from-Ordered now s (drains i n (suc k)) e h = drain-Ordered i s _ _ _ (λ us. refl) refl h
step_from-Ordered now s (collects i n zero) e h = Ordered-phase s _ refl h
step_from-Ordered now s (collects i n (suc k)) e h = collect-Ordered i s _ _ _ refl refl h
step_from-Ordered now s checks e h = check_top-Ordered now s.heap s refl h
step_from-Ordered now s (holds asked t i n) e h =
    let hand : misplaced (holds asked t i n) s.heap ≡ 0 =
      subst (λ q. misplaced q s.heap ≡ 0) e h.hand in
    elim (Bool-cases (i == n)) [
      | inl x ↦ rw x (
          finish_task-Ordered (some asked) t (record s { phase = checks }) (omega (arith, hand))
            refl (Ordered-phase s checks refl h))
      | inr x ↦ rw x (look-Ordered _ _ s _ hand (λ c. hand) h)
    ]
step_from-Ordered now s (recollects asked t i n zero) e h =
    Ordered-phase s _ (subst (λ q. misplaced q s.heap ≡ 0) e h.hand) h
step_from-Ordered now s (recollects asked t i n (suc k)) e h =
    let hand : misplaced (recollects asked t i n k) s.heap ≡ 0 =
      subst (λ q. misplaced q s.heap ≡ 0) e h.hand in
    collect-Ordered i s _ _ _ hand hand h
step_from-Ordered now s finishes e h = record { sorted = h.sorted; hand = refl; due = h.due }
step_from-Ordered now s at_destroy e h = h
step_from-Ordered now s destroyed e h = h
