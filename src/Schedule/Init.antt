-- ===== src/Schedule/Init.antt =====
-- `Schedule::init` of src/schedule/schedule.cpp: what it leaves when threads start and when they do not.
use sofa_bolt_cpp.Base.{
  ℕ, zero, suc, ◌+◌, ◌≤◌, ◌<◌, ◌≡◌, ◌≢◌, refl, ap, ◌∙◌, inl, inr, ◌⊎◌, Bool, true, false, Option,
  none, some, List, [], ◌∷◌, ◌++◌, arith, if◌then◌else◌,
}
use sofa_bolt_cpp.Schedule.{
  LoopThread, new_thread, Started, no_pipe, no_loop, polls, start, stop, Schedule, start_all,
  stop_all, unstarted, clean_up, clean_up_all, start_time, destroy_schedule, destroy_time_schedule,
  init_threads,
}

abbrev pub polling : ℕ → List LoopThread
polling zero = []
polling (suc n) = record { loop = true; running = true; exit = false } ∷ polling n

start_all-polling :
    (answer : ℕ → Started) (i n : ℕ)
    → ((k : ℕ) → i ≤ k → k < i + n → answer k ≡ polls)
    → start_all answer i n ≡ (true, polling n)
unfolding start_all start
start_all-polling answer i zero h = refl
start_all-polling answer i (suc n) h =
    rw
      (
        h i (omega arith) (omega arith),
        start_all-polling answer (suc i) n (λ k from to. h k (omega arith) (omega (arith, to))),
      )
      refl

stop_all-polling : (n : ℕ) → (ts : List LoopThread) × (stop_all (polling n) ≡ some ts)
unfolding stop_all stop
stop_all-polling zero = ([], refl)
stop_all-polling (suc n) =
    let (ts, e) = stop_all-polling n in
    (record { loop = true; running = false; exit = true } ∷ ts, rw e refl)

-- The threads when the one behind `k` others does not start.
failed : ℕ → LoopThread → ℕ → List LoopThread
failed k t m = polling k ++ (t ∷ unstarted m)

start_all-failed :
    (answer : ℕ → Started) (i k n : ℕ)
    → ((j : ℕ) → i ≤ j → j < i + k → answer j ≡ polls)
    → (start (answer (i + k)) new_thread).0 ≡ false
    → k < n
    → (m : ℕ) × (suc (k + m) ≡ n)
      × (start_all answer i n ≡ (false, failed k (start (answer (i + k)) new_thread).1 m))
unfolding start_all failed
start_all-failed answer i k zero h e less = absurd (omega (arith, less))
start_all-failed answer i zero (suc n) h e less =
    let here : i + 0 ≡ i = omega arith in (n, omega arith, rw here (rw (rw here at e) refl))
start_all-failed answer i (suc k) (suc n) h e less =
    let there : i + suc k ≡ suc i + k = omega arith in
    let (m, count, rest) =
      start_all-failed answer (suc i) k n (λ j from to. h j (omega arith) (omega (arith, to)))
        (rw there at e) (omega (arith, less)) in
    (m, omega (arith, count), rw there (rw (h i (omega arith) (omega arith), rest) refl))

stop_all-none :
    (k : ℕ) (rest : List LoopThread) → stop_all rest ≡ none → stop_all (polling k ++ rest) ≡ none
unfolding stop_all stop
stop_all-none zero rest e = e
stop_all-none (suc k) rest e = rw (stop_all-none k rest e) refl

stop_all-some :
    (k : ℕ) (rest ts : List LoopThread)
    → stop_all rest ≡ some ts
    → (us : List LoopThread) × (stop_all (polling k ++ rest) ≡ some us)
unfolding stop_all stop
stop_all-some zero rest ts e = (ts, e)
stop_all-some (suc k) rest ts e =
    let (us, f) = stop_all-some k rest ts e in
    (record { loop = true; running = false; exit = true } ∷ us, rw f refl)

-- What `init` does with the threads that the loop leaves.
init_threads-started :
    (answer : ℕ → Started) (time_ok ret : Bool) (n : ℕ) (ts : List LoopThread)
    → start_all answer 0 n ≡ (ret, ts)
    → init_threads answer time_ok n
      ≡ start_time time_ok (clean_up ret (record { threads = ts; time_thread = false }))
unfolding init_threads
init_threads-started answer time_ok ret n ts e =
    ap (λ r. start_time time_ok (clean_up r.0 (record { threads = r.1; time_thread = false }))) e

destroy_schedule_lem :
    (s : Schedule) (o : Option (List LoopThread))
    → stop_all s.threads ≡ o
    → destroy_schedule s ≡ elim o [ none ↦ none | some _ ↦ some (record s { threads = [] }) ]
unfolding destroy_schedule
destroy_schedule_lem s o e =
    ap (λ o. elim o [ none ↦ none | some _ ↦ some (record s { threads = [] }) ]) e

-- When every thread starts, `init` returns what the start of the timer's thread returns: with it all
-- threads poll, and without it nothing is left.
pub init_threads-polling :
    (answer : ℕ → Started) (time_ok : Bool) (n : ℕ)
    → ((k : ℕ) → k < n → answer k ≡ polls)
    → init_threads answer time_ok n
      ≡ some (
          if time_ok
          then (true, record { threads = polling n; time_thread = true })
          else (false, record { threads = []; time_thread = false }))
unfolding start_time clean_up clean_up_all destroy_time_schedule
init_threads-polling answer true n h =
    init_threads-started answer true true n (polling n)
      (start_all-polling answer 0 n (λ k from to. h k (omega (arith, to))))
init_threads-polling answer false n h =
    let (ts, e) = stop_all-polling n in
    init_threads-started answer false true n (polling n)
      (start_all-polling answer 0 n (λ k from to. h k (omega (arith, to))))
    ∙ ap
        (λ (o : Option Schedule).
          let cleaned : Option Schedule = elim o [
            | none ↦ none
            | some s ↦ some (destroy_time_schedule s)
          ] in
          let result : Option (Bool × Schedule) = elim cleaned [
            | none ↦ none
            | some s ↦ some (false, s)
          ] in
          result)
        (destroy_schedule_lem (record { threads = polling n; time_thread = true }) (some ts) e)

not_started : (a : Started) → a ≢ polls → (start a new_thread).0 ≡ false
unfolding start
not_started no_pipe h = refl
not_started no_loop h = refl
not_started polls h = absurd (h refl)

crashes :
    (answer : ℕ → Started) (time_ok : Bool) (n : ℕ) (ts : List LoopThread)
    → start_all answer 0 n ≡ (false, ts)
    → stop_all ts ≡ none
    → init_threads answer time_ok n ≡ none
unfolding clean_up start_time
crashes answer time_ok n ts started stopped =
    init_threads-started answer time_ok false n ts started
    ∙ ap (start_time time_ok)
        (destroy_schedule_lem (record { threads = ts; time_thread = false }) none stopped)

emptied :
    (answer : ℕ → Started) (time_ok : Bool) (n : ℕ) (ts us : List LoopThread)
    → start_all answer 0 n ≡ (false, ts)
    → stop_all ts ≡ some us
    → init_threads answer time_ok n ≡ some (time_ok, record { threads = []; time_thread = time_ok })
unfolding clean_up start_time clean_up_all destroy_schedule destroy_time_schedule stop_all
emptied answer time_ok n ts us started stopped =
    init_threads-started answer time_ok false n ts started
    ∙ ap (start_time time_ok)
        (destroy_schedule_lem (record { threads = ts; time_thread = false }) (some us) stopped)
    ∙ timed time_ok
  where
    timed :
        (b : Bool)
        → start_time b (some (record { threads = []; time_thread = false }))
          ≡ some (b, record { threads = []; time_thread = b })
    timed true = refl
    timed false = refl

init_threads-stopped :
    (answer : ℕ → Started) (time_ok : Bool) (k n m : ℕ) (a : Started)
    → answer k ≡ a
    → a ≢ polls
    → suc (k + m) ≡ n
    → start_all answer 0 n ≡ (false, failed k (start a new_thread).1 m)
    → (init_threads answer time_ok n ≡ none)
      ⊎ ((suc k ≡ n)
          × (answer k ≡ no_loop)
          × (init_threads answer time_ok n
              ≡ some (time_ok, record { threads = []; time_thread = time_ok })))
unfolding failed start stop_all stop unstarted
init_threads-stopped answer time_ok k n m no_pipe here e count started =
    inl (crashes answer time_ok n _ started (stop_all-none k (new_thread ∷ unstarted m) refl))
init_threads-stopped answer time_ok k n (suc m) no_loop here e count started = inl (
    crashes answer time_ok n _ started
      (stop_all-none k (record new_thread { loop = true } ∷ (new_thread ∷ unstarted m)) refl))
init_threads-stopped answer time_ok k n zero no_loop here e count started =
    let (us, stopped) =
      stop_all-some k (record new_thread { loop = true } ∷ [])
        (record { loop = true; running = false; exit = true } ∷ []) refl in
    inr (omega (arith, count), here, emptied answer time_ok n _ us started stopped)
init_threads-stopped answer time_ok k n m polls here e count started = absurd (e refl)

-- When a thread does not start, `init` never says so. It stops every thread, also those that have no
-- loop, which is undefined, unless the one that fails is the last and has made its loop; then it
-- returns what the start of the timer's thread returns, with no thread that polls.
pub init_threads-failed :
    (answer : ℕ → Started) (time_ok : Bool) (k n : ℕ)
    → ((j : ℕ) → j < k → answer j ≡ polls)
    → answer k ≢ polls
    → k < n
    → (init_threads answer time_ok n ≡ none)
      ⊎ ((suc k ≡ n)
          × (answer k ≡ no_loop)
          × (init_threads answer time_ok n
              ≡ some (time_ok, record { threads = []; time_thread = time_ok })))
init_threads-failed answer time_ok k n h e less =
    let here : 0 + k ≡ k = omega arith in
    let (m, count, started) =
      start_all-failed answer 0 k n (λ j from to. h j (omega (arith, to)))
        (rw here (not_started (answer k) e)) less in
    init_threads-stopped answer time_ok k n m (answer k) refl e count (rw here at started)
