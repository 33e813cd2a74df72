-- ===== src/ThreadPool.antt =====
-- include/common/thread_pool.h: threads that run tasks. A thread that submits is paired with one of the
-- pool's, into whose queue its tasks go. A queue is the list of its tasks, `SPMCQueue` of the file
-- lockfree_queue.h, and a task is its number.
pub mod Places
pub mod Kept
pub mod Pairs
pub mod Runs
pub mod Tests
use sofa_bolt_cpp.Base.{
  ℕ, zero, suc, ◌+◌, ◌-◌, ◌≡◌, ◌⊎◌, Bool, true, false, not, Option, none, some, List, [], ◌∷◌, ◌++◌,
  if◌then◌else◌, ltb, leb, ◌==◌, length, get_elem?, update,
}

-- `EThreadStatus`
pub data ThreadStatus : Type 0 where
  active standby inactive reclaimed : ThreadStatus

unfoldable pub is_standby : ThreadStatus → Bool
is_standby standby = true
is_standby active = false
is_standby inactive = false
is_standby reclaimed = false

-- `SingleThread`; `made` says whether `tasks` is allocated.
pub record SingleThread : Type 0 where
  pub status : ThreadStatus
  pub made : Bool
  pub tasks : List ℕ

pub record ThreadPool : Type 0 where
  pub tds : List SingleThread
  pub active_td_size : ℕ
  pub td_capacity : ℕ
  pub queue_size : ℕ
  pub exit : Bool

-- The constructor and `init`.
pub new_threads : ℕ → List SingleThread
new_threads zero = []
new_threads (suc n) = record { status = standby; made = false; tasks = [] } ∷ new_threads n

pub init : (capacity queue_size : ℕ) → ThreadPool
unfolding new_threads
init capacity queue_size = record {
  tds = new_threads capacity;
  active_td_size = 0;
  td_capacity = capacity;
  queue_size = queue_size;
  exit = false;
}

-- The loop of `getActiveThread` that looks for a thread that stands by.
pub find_standby : ℕ → List SingleThread → Option ℕ
find_standby i [] = none
find_standby i (t ∷ ts) =
    let rest = find_standby (suc i) ts in if is_standby t.status then some i else rest

pub activate : SingleThread → SingleThread
activate t = record t { status = active; made = true }

-- `getActiveThread`, under `_td_mtx` where it looks for a thread: what it finds, and the pool. `paired`
-- is the calling thread's `_paired_thread`, which is set to what is found.
pub pair_new : Option ℕ → ThreadPool → Option ℕ × ThreadPool
unfolding activate
pair_new none p = (none, p)
pair_new (some i) p =
    (some i, record p { tds = update i activate p.tds; active_td_size = suc p.active_td_size })

pub pair_with : Option ℕ → ThreadPool → Option ℕ × ThreadPool
unfolding find_standby pair_new
pair_with (some i) p = (some i, p)
pair_with none p = pair_new (find_standby 0 p.tds) p

pub get_active_thread : Option ℕ → ThreadPool → Option ℕ × ThreadPool
unfolding pair_with
get_active_thread paired p =
    if p.exit
    then (none, p)
    else if p.active_td_size == p.td_capacity
    then (none, p)
    else pair_with paired p

-- `td->tasks->push`, for which there is room or not.
pub push : ℕ → SingleThread → SingleThread
push task t = record t { tasks = t.tasks ++ (task ∷ []) }

pub room_of : ℕ → Option SingleThread → Bool
room_of queue_size none = false
room_of queue_size (some t) = ltb (length t.tasks) queue_size

pub has_room : ℕ → ThreadPool → Bool
unfolding room_of
has_room i p = room_of p.queue_size (get_elem? p.tds i)

-- `submit`: the calling thread's `_paired_thread` afterwards, whether the caller runs the task itself,
-- and the pool.
pub record Submitted : Type 0 where
  pub paired : Option ℕ
  pub by_caller : Bool
  pub pool : ThreadPool

pub submit_to : ℕ → Option ℕ → Option ℕ → ThreadPool → Submitted
unfolding push has_room
submit_to task paired none p = record { paired = paired; by_caller = true; pool = p }
submit_to task paired (some i) p =
    if has_room i p
    then record {
      paired = some i;
      by_caller = false;
      pool = record p { tds = update i (push task) p.tds };
    }
    else record { paired = some i; by_caller = true; pool = p }

pub submit : ℕ → Option ℕ → ThreadPool → Submitted
unfolding get_active_thread submit_to
submit task paired p = let (td, p') = get_active_thread paired p in submit_to task paired td p'

-- `pop` of a queue.
pub head_task : List ℕ → Option ℕ
head_task [] = none
head_task (task ∷ rest) = some task

pub rest_tasks : List ℕ → List ℕ
rest_tasks [] = []
rest_tasks (task ∷ rest) = rest

pub drop_first : SingleThread → SingleThread
unfolding rest_tasks
drop_first t = record t { tasks = rest_tasks t.tasks }

pub head_of : Option SingleThread → Option ℕ
unfolding head_task
head_of none = none
head_of (some t) = head_task t.tasks

pub first_task : ThreadPool → ℕ → Option ℕ
unfolding head_of
first_task p i = head_of (get_elem? p.tds i)

-- `tryConsumeOne` of the thread `i`, which has found `_exit` to be `exited` before it looks at its queue:
-- the task that it runs.
pub try_consume_one : (exited : Bool) → ℕ → ThreadPool → Option ℕ × ThreadPool
unfolding drop_first first_task
try_consume_one exited i p =
    if exited then (none, p) else (first_task p i, record p { tds = update i drop_first p.tds })

-- The loops of `tryGetOne(task)` and `tryStealOne`: the first of the first `n` threads that does not stand
-- by and has a task.
pub find_task : ℕ → ℕ → List SingleThread → Option ℕ
find_task zero i ts = none
find_task (suc n) i [] = none
find_task (suc n) i (t ∷ ts) =
    let rest = find_task n (suc i) ts in
    if is_standby t.status then rest else elim t.tasks [ [] ↦ rest | _ ∷ _ ↦ some i ]

pub take_from : Option ℕ → ThreadPool → Option ℕ × ThreadPool
unfolding drop_first first_task
take_from none p = (none, p)
take_from (some i) p = (first_task p i, record p { tds = update i drop_first p.tds })

pub try_get_one : ThreadPool → Option ℕ × ThreadPool
unfolding find_task take_from
try_get_one p = take_from (find_task p.active_td_size 0 p.tds) p

-- `tryStealOne`, likewise.
pub try_steal_one : (exited : Bool) → ThreadPool → Option ℕ × ThreadPool
unfolding try_get_one
try_steal_one exited p = if exited then (none, p) else try_get_one p

pub same_status : ThreadStatus → ThreadStatus → Bool
same_status active active = true
same_status standby standby = true
same_status inactive inactive = true
same_status reclaimed reclaimed = true
same_status a b = false

-- `compare_exchange_strong(status, INACTIVE)`: whether it succeeds, the status that is expected in the
-- next round, and the thread.
pub exchange_status : ThreadStatus → SingleThread → Bool × ThreadStatus × SingleThread
unfolding same_status
exchange_status expected t =
    if same_status t.status expected
    then (true, expected, record t { status = inactive })
    else (false, t.status, t)

-- The loop of `deleteThreadLocalPairThread`, which goes on while the exchange succeeds, with `fuel` for its
-- rounds; `between` is what the other threads do to the thread after the round `i`. `none` is a thread
-- that is deleted, or a loop that goes on after the fuel is used up.
pub exchange_loop :
    (between : ℕ → SingleThread → SingleThread)
    → ℕ
    → ℕ
    → ThreadStatus
    → SingleThread
    → Option SingleThread
unfolding exchange_status same_status
exchange_loop between zero i expected t = none
exchange_loop between (suc fuel) i expected t =
    let (ok, expected', t') = exchange_status expected t in
    let rest = exchange_loop between fuel (suc i) expected' (between i t') in
    if same_status expected reclaimed then none else if ok then rest else some t'

pub delete_thread_local_pair_thread :
    (between : ℕ → SingleThread → SingleThread) → ℕ → SingleThread → Option SingleThread
unfolding exchange_loop
delete_thread_local_pair_thread between fuel t = exchange_loop between fuel 0 t.status t

-- A thread that is inactive, and has tried all its tasks, stands by; then it is counted out.
pub set_standby : SingleThread → SingleThread
set_standby t = record t { status = standby }

pub count_out : ThreadPool → ThreadPool
count_out p = record p { active_td_size = p.active_td_size - 1 }
