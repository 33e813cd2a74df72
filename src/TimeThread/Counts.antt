-- ===== src/TimeThread/Counts.antt =====
-- The timer of src/schedule/time_thread.cpp: where the tasks of a number are.
use sofa_bolt_cpp.Base.{
  ℕ, ◌+◌, ◌≤◌, ◌≡◌, refl, inl, inr, true, false, List, [], ◌∷◌, if◌then◌else◌, ltb, leb, ◌==◌,
  Bool-cases, count, arith, ==→eq,
}
use sofa_bolt_cpp.TimeThread.{
  Task, AbandonTask, TaskContainer, Phase, holds, recollects, Run, Timer, contains, emplace, erase,
  push_heap,
}

-- 1 for the number itself.
abbrev pub is : ℕ → ℕ → ℕ
is id x = if id == x then 1 else 0

module _ (id : ℕ) where
  abbrev pub is_task : Task → ℕ
  is_task t = is id t.task_id

  abbrev pub is_pending : ℕ × Task → ℕ
  is_pending (k, t) = is id t.task_id

  abbrev pub is_run : Run → ℕ
  is_run r = is id r.task.task_id

  abbrev pub is_abandoned : AbandonTask → ℕ
  is_abandoned a = is id a.abandoned_id

  abbrev pub tasks_in : TaskContainer → ℕ
  tasks_in c = count is_task c.tasks

  abbrev pub abandoned_in : TaskContainer → ℕ
  abandoned_in c = count is_abandoned c.abandon_tasks

  -- The task that the thread has taken off the heap.
  abbrev pub held : Phase → ℕ
  held (holds now t i n) = is_task t
  held (recollects now t i n k) = is_task t
  held other = 0

  -- The tasks that a thread is about to give to its container, that are in the containers, and that
  -- the timer's thread has; those that it is done with.
  abbrev pub waiting : Timer → ℕ
  waiting s =
      count is_pending s.pending + count tasks_in s.containers + count is_task s.heap + held s.phase

  abbrev pub settled : Timer → ℕ
  settled s = count is_run s.ran + count is_task s.dropped + count is_task s.refused

-- Whether a number was given out.
abbrev pub issued : ℕ → ℕ → ℕ
issued id timer_id = if leb 1 id then if ltb id timer_id then 1 else 0 else 0

pub contains-absent : (x : ℕ) (ys : List ℕ) → contains x ys ≡ false → count (is x) ys ≡ 0
unfolding contains
contains-absent x [] h = refl
contains-absent x (y ∷ ys) h = elim (Bool-cases (x == y)) [
  | inl e ↦ let h' : true ≡ false = rw e at (h) in absurd (cc h')
  | inr e ↦
      let h' : contains x ys ≡ false = rw e at (h) in rw e (omega (arith, contains-absent x ys h'))
]

contains-count : (x : ℕ) (ys : List ℕ) → contains x ys ≡ true → 1 ≤ count (is x) ys
unfolding contains
contains-count x [] h = absurd (cc h)
contains-count x (y ∷ ys) h = elim (Bool-cases (x == y)) [
  | inl e ↦ rw e (omega arith)
  | inr e ↦
      let h' : contains x ys ≡ true = rw e at (h) in rw e (omega (arith, contains-count x ys h'))
]

-- The set after a number was put into it, and after one was taken out.
pub emplace-keeps : (id x : ℕ) (ys : List ℕ) → count (is id) ys ≤ count (is id) (emplace x ys)
unfolding emplace
emplace-keeps id x ys = elim (Bool-cases (contains x ys)) [
  | inl e ↦ rw e (omega arith)
  | inr e ↦ rw e (omega arith)
]

pub emplace-has : (id x : ℕ) (ys : List ℕ) → is id x ≤ count (is id) (emplace x ys)
unfolding emplace
emplace-has id x ys = elim (Bool-cases (contains x ys)) [
  | inl e ↦ rw e (elim (Bool-cases (id == x)) [
    | inl f ↦ let g : id ≡ x = ==→eq id x f in rw (f, g) (contains-count x ys e)
    | inr f ↦ rw f (omega arith)
  ])
  | inr e ↦ rw e (omega arith)
]

pub erase-others :
    (id x : ℕ) (ys : List ℕ) → (id == x) ≡ false → count (is id) (erase x ys) ≡ count (is id) ys
unfolding erase
erase-others id x [] h = refl
erase-others id x (y ∷ ys) h = elim (Bool-cases (x == y)) [
  | inl e ↦
      let g : (id == y) ≡ false = rw (← ==→eq x y e) h in
      rw (e, g) (omega (arith, erase-others id x ys h))
  | inr e ↦ rw e (omega (arith, erase-others id x ys h))
]

-- The heap after a task was put on it.
pub push_heap-count :
    (f : Task → ℕ) (t : Task) (us : List Task) → count f (push_heap t us) ≡ f t + count f us
unfolding push_heap
push_heap-count f t [] = refl
push_heap-count f t (u ∷ us) = elim (Bool-cases (ltb t.abs_time u.abs_time)) [
  | inl e ↦ rw e refl
  | inr e ↦ rw e (omega (arith, push_heap-count f t us))
]
