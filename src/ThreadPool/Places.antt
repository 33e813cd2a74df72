-- ===== src/ThreadPool/Places.antt =====
-- Where the tasks of the pool of include/common/thread_pool.h are: each operation, counted.
use sofa_bolt_cpp.Base.{
  ℕ, zero, suc, ◌+◌, ◌≡◌, refl, ap, sym, ◌∙◌, inl, inr, true, Bool-cases, Option, none, some,
  Option-cases, List, [], ◌∷◌, if◌then◌else◌, arith, get_elem?, update, is, count, count-append,
  count-update,
}
use sofa_bolt_cpp.ThreadPool.{
  is_standby, SingleThread, ThreadPool, find_standby, activate, pair_new, push, has_room, room_of,
  submit_to, head_task, rest_tasks, drop_first, head_of, first_task,
}

-- How often a task is in a queue.
abbrev pub in_queue : ℕ → SingleThread → ℕ
in_queue x t = count (is x) t.tasks

abbrev pub queued : ℕ → ThreadPool → ℕ
queued x p = count (in_queue x) p.tds

-- What the loop for a thread that stands by finds.
pub find_standby-found :
    (k i : ℕ) (ts : List SingleThread)
    → find_standby k ts ≡ some i
    → (j : ℕ) × (i ≡ k + j)
      × ((t : SingleThread) × (get_elem? ts j ≡ some t) × (is_standby t.status ≡ true))
unfolding find_standby
find_standby-found k i [] e = absurd (cc e)
find_standby-found k i (t ∷ ts) e = elim (Bool-cases (is_standby t.status)) [
  | inl f ↦
      let here : ◌≡◌ {A = Option ℕ} (some k) (some i) = rw f at e in
      let same : k ≡ i = ap (λ o. elim o [ none ↦ k | some z ↦ z ]) here in
      (0, omega (arith, same), (t, refl, f))
  | inr f ↦
      let (j, there, found) = find_standby-found (suc k) i ts (rw f at e) in
      (suc j, omega (arith, there), found)
]

-- The queues after a change of one thread.
module _ (f : SingleThread → ℕ) (i : ℕ) (g : SingleThread → SingleThread) where
  pub count-same :
      (ts : List SingleThread)
      → ((t : SingleThread) → f (g t) ≡ f t)
      → count f (update i g ts) ≡ count f ts
  count-same ts h = same i ts
    where
      same : (i : ℕ) (ts : List SingleThread) → count f (update i g ts) ≡ count f ts
      same i [] = refl
      same zero (t ∷ ts) = ap (λ n. n + count f ts) (h t)
      same (suc i) (t ∷ ts) = ap (λ n. f t + n) (same i ts)

head_task-count :
    (x task : ℕ) (l : List ℕ)
    → head_task l ≡ some task
    → is x task + count (is x) (rest_tasks l) ≡ count (is x) l
unfolding head_task rest_tasks
head_task-count x task [] e = absurd (cc e)
head_task-count x task (y ∷ l) e =
    let same : task ≡ y = ap (λ o. elim o [ none ↦ task | some z ↦ z ]) (sym e) in
    ap (λ z. is x z + count (is x) l) same

module _ (x i : ℕ) (p : ThreadPool) where
  -- The task of a thread that is taken is no more in the queue.
  pub drop_first-queued :
      (task : ℕ)
      → first_task p i ≡ some task
      → is x task + count (in_queue x) (update i drop_first p.tds) ≡ queued x p
  unfolding first_task head_of drop_first
  drop_first-queued task e = elim (Option-cases (get_elem? p.tds i)) [
    | inl f ↦ absurd (cc (sym e ∙ ap head_of f))
    | inr (t, f) ↦ omega (
      arith,
      count-update (in_queue x) i drop_first p.tds t f,
      head_task-count x task t.tasks (sym (ap head_of f) ∙ e),
    )
  ]

  -- A task that is pushed is in the queue once more.
  pub push-queued :
      (task : ℕ)
      → has_room i p ≡ true
      → count (in_queue x) (update i (push task) p.tds) ≡ is x task + queued x p
  unfolding has_room room_of push
  push-queued task e = elim (Option-cases (get_elem? p.tds i)) [
    | inl f ↦ absurd (cc (sym e ∙ ap (room_of p.queue_size) f))
    | inr (t, f) ↦ omega (
      arith,
      count-update (in_queue x) i (push task) p.tds t f,
      count-append (is x) t.tasks (task ∷ []),
    )
  ]

-- Where a task goes that is submitted: it is run by the caller, with no queue changed, or goes to the end
-- of a queue.
pub submit_to-queued :
    (x task : ℕ) (paired td : Option ℕ) (p : ThreadPool)
    → let r = submit_to task paired td p in
      queued x r.pool + (if r.by_caller then is x task else 0) ≡ is x task + queued x p
unfolding submit_to push
submit_to-queued x task paired none p = omega arith
submit_to-queued x task paired (some i) p = elim (Bool-cases (has_room i p)) [
  | inl e ↦ rw e (omega (arith, push-queued x i p task e))
  | inr e ↦ rw e (omega arith)
]

-- The choice of a thread changes no queue.
pub pair_new-queued :
    (x : ℕ) (o : Option ℕ) (p : ThreadPool) → queued x (pair_new o p).1 ≡ queued x p
unfolding pair_new activate
pair_new-queued x none p = refl
pair_new-queued x (some i) p = count-same (in_queue x) i activate p.tds (λ t. refl)
