-- ===== src/TimeThread.antt =====
-- include/common/time_thread.h and src/schedule/time_thread.cpp: the timer. Threads put tasks into
-- containers of their own; one thread collects them, and runs each when its time has come.
pub mod Loop
pub mod Steps
pub mod Counts
pub mod Places
pub mod Once
pub mod Destroy
pub mod Callers
pub mod Kept
pub mod Order
pub mod Due
pub mod Tests
use sofa_bolt_cpp.Base.{
  ℕ, zero, suc, ◌+◌, ◌-◌, ◌*◌, ◌^◌, ◌≡◌, Bool, true, false, Option, none, some, List, [], ◌∷◌, ◌++◌,
  if◌then◌else◌, ltb, leb, ◌==◌, length, update,
}

-- `Task`, whose function is known by the task's number, and `AbandonTask`.
pub record Task : Type 0 where
  pub abs_time : ℕ
  pub task_id : ℕ

pub record AbandonTask : Type 0 where
  pub at_time : ℕ
  pub abandoned_id : ℕ

-- `TaskContainer::EStatus`
pub data Status : Type 0 where
  available using reclaimed : Status

-- `TaskContainer`. A queue is the list of what is in it, the oldest first.
pub record TaskContainer : Type 0 where
  pub status : Status
  pub tasks : List Task
  pub abandon_tasks : List AbandonTask

abbrev pub task_queue_size : ℕ
task_queue_size = 4096

abbrev pub waring_task_queue_size : ℕ
waring_task_queue_size = 2730

-- `std::numeric_limits<size_t>::max()`
abbrev pub never : ℕ
never = 2 ^ 64 - 1

-- Where the thread of the timer is in `loopOnce`; `at_destroy` is after its end, `destroyed` after
-- that of `destroy`. `drains i n k` and `collects i n k` still pop up to `k` from the container `i`
-- of `n`; `holds` and `recollects` do with a task that was taken off the heap when the clock said
-- `now`.
pub data Phase : Type 0 where
  outside sized : Phase
  selects : (i n : ℕ) → Phase
  drains collects : (i n k : ℕ) → Phase
  checks : Phase
  holds : (now : ℕ) (t : Task) (i n : ℕ) → Phase
  recollects : (now : ℕ) (t : Task) (i n k : ℕ) → Phase
  finishes at_destroy destroyed : Phase

-- A run of a task, with what the clock said before it; `destroy` does not ask.
pub record Run : Type 0 where
  pub clock : Option ℕ
  pub task : Task

-- `TimeThread`, with its callers. `heap` is the heap `_tasks`, the least time first. `pending` are
-- calls of `scheduleAbs` between `fetch_add` and `push`, with the container that each one uses. The
-- last four are a record of what happened: the tasks that were run, those that were taken off the
-- heap and not run, those that `push` refused, and the numbers given to `unschedule`.
pub record Timer : Type 0 where
  pub exit : Bool
  pub nearest_run_time : ℕ
  pub timer_id : ℕ
  pub containers : List TaskContainer
  pub active_ids : List ℕ
  pub heap : List Task
  pub phase : Phase
  pub pending : List (ℕ × Task)
  pub ran : List Run
  pub dropped : List Task
  pub refused : List Task
  pub unscheduled : List ℕ

-- The constructor, and `init`.
pub init : Timer
init = record {
  exit = false;
  nearest_run_time = never;
  timer_id = 1;
  containers = [];
  active_ids = [];
  heap = [];
  phase = outside;
  pending = [];
  ran = [];
  dropped = [];
  refused = [];
  unscheduled = [];
}

-- `SPSCQueue::push` on one of the queues.
pub push : {A : Type 0} → A → List A → Option (List A)
push x q = if ltb (length q) task_queue_size then some (q ++ (x ∷ [])) else none

-- `_active_ids`, a set.
pub contains : ℕ → List ℕ → Bool
contains x [] = false
contains x (y ∷ ys) = if x == y then true else contains x ys

pub emplace : ℕ → List ℕ → List ℕ
emplace x ys = if contains x ys then ys else x ∷ ys

pub erase : ℕ → List ℕ → List ℕ
erase x [] = []
erase x (y ∷ ys) = let rest = erase x ys in if x == y then rest else y ∷ rest

-- `emplace_back` and `push_heap`: `operator<` of a task compares the times the other way round.
pub push_heap : Task → List Task → List Task
push_heap t [] = t ∷ []
push_heap t (u ∷ us) =
    let rest = push_heap t us in if ltb t.abs_time u.abs_time then t ∷ u ∷ us else u ∷ rest

-- The loop over `compare_exchange_strong` that lowers `_nearest_run_time`.
pub lower : ℕ → ℕ → ℕ
lower abs_time nearest = if leb nearest abs_time then nearest else abs_time

-- The container of the calling thread, where it has none yet: one that is available, or a new one.
pub first_available : List TaskContainer → Option ℕ
first_available [] = none
first_available (c ∷ cs) = found c.status (first_available cs)
  where
    found : Status → Option ℕ → Option ℕ
    found available rest = some 0
    found other none = none
    found other (some i) = some (suc i)

pub local_of : List TaskContainer → Option ℕ → ℕ × List TaskContainer
local_of cs (some i) = (i, update i (λ c. record c { status = using }) cs)
local_of cs none =
    (length cs, cs ++ (record { status = using; tasks = []; abandon_tasks = [] } ∷ []))

pub get_local_task_container : List TaskContainer → ℕ × List TaskContainer
get_local_task_container cs = local_of cs (first_available cs)
