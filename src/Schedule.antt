-- ===== src/Schedule.antt =====
-- src/schedule/schedule.cpp, src/schedule/loop_thread.cpp and src/schedule/epoll_loop.cpp: the threads
-- that poll the sockets. What the system answers is a parameter.
pub mod Init
pub mod Tests
use sofa_bolt_cpp.Base.{
  ℕ, zero, suc, ◌+◌, ◌%◌, ◌^◌, Bool, true, false, ◌||◌, Option, none, some, List, [], ◌∷◌,
  if◌then◌else◌, ltb, leb, ◌==◌,
}

-- `LoopThread`: whether its `_loop` is made, whether its thread runs, and `_exit`.
pub record LoopThread : Type 0 where
  pub loop : Bool
  pub running : Bool
  pub exit : Bool

abbrev pub new_thread : LoopThread
new_thread = record { loop = false; running = false; exit = false }

-- What becomes of a start: no pipe, a loop that cannot be initialised, or a thread that polls.
pub data Started : Type 0 where
  no_pipe no_loop polls : Started

pub start : Started → LoopThread → Bool × LoopThread
start no_pipe t = (false, t)
start no_loop t = (false, record t { loop = true })
start polls t = (true, record t { loop = true; running = true })

-- `stop` adds an event to the loop, so it is undefined, here `none`, where no loop was made.
pub stop : LoopThread → Option LoopThread
stop t = if t.loop then some (record t { exit = true; running = false }) else none

-- The loop over the events of an `epoll_wait`: the handlers that are called, `none` where the pointer
-- is null.
pub loop_once : {H : Type 0} → List (Option H) → List H
loop_once [] = []
loop_once (none ∷ events) = loop_once events
loop_once (some handler ∷ events) = handler ∷ loop_once events

-- `Schedule`; `time_thread` says whether there is one.
pub record Schedule : Type 0 where
  pub threads : List LoopThread
  pub time_thread : Bool

pub unstarted : ℕ → List LoopThread
unstarted zero = []
unstarted (suc n) = new_thread ∷ unstarted n

-- The start of `n` threads just made, the first of them number `i`, up to the first that fails.
pub start_all : (ℕ → Started) → ℕ → ℕ → Bool × List LoopThread
unfolding start unstarted
start_all answer i zero = (true, [])
start_all answer i (suc n) =
    let (ok, t) = start (answer i) new_thread in
    let rest = start_all answer (suc i) n in
    if ok then (rest.0, t ∷ rest.1) else (false, t ∷ unstarted n)

pub stop_all : List LoopThread → Option (List LoopThread)
unfolding stop
stop_all [] = some []
stop_all (t ∷ ts) = elim (stop t) [
  | none ↦ none
  | some t' ↦ elim (stop_all ts) [ none ↦ none | some ts' ↦ some (t' ∷ ts') ]
]

pub destroy_schedule : Schedule → Option Schedule
unfolding stop_all
destroy_schedule s = elim (stop_all s.threads) [
  | none ↦ none
  | some _ ↦ some (record s { threads = [] })
]

pub destroy_time_schedule : Schedule → Schedule
destroy_time_schedule s = record s { time_thread = false }

-- `schedule_num` is an `int32_t`: its bits.
pub thread_count : ℕ → ℕ → ℕ
thread_count hardware_concurrency schedule_num =
    if schedule_num == 0 || leb (2 ^ 31) schedule_num then hardware_concurrency else schedule_num

-- `init`, from the loop that starts the threads on: what is done when one has failed; the timer's
-- thread, where `time_ok` is what `TimeThread::init` returns.
pub clean_up : Bool → Schedule → Option Schedule
unfolding destroy_schedule
clean_up true s = some s
clean_up false s = destroy_schedule s

pub clean_up_all : Schedule → Option Schedule
unfolding destroy_schedule destroy_time_schedule
clean_up_all s = elim (destroy_schedule s) [
  | none ↦ none
  | some s' ↦ some (destroy_time_schedule s')
]

pub start_time : Bool → Option Schedule → Option (Bool × Schedule)
unfolding clean_up_all
start_time time_ok none = none
start_time true (some s) = some (true, record s { time_thread = true })
start_time false (some s) = elim (clean_up_all (record s { time_thread = true })) [
  | none ↦ none
  | some s' ↦ some (false, s')
]

pub init_threads : (ℕ → Started) → Bool → ℕ → Option (Bool × Schedule)
unfolding start_all clean_up start_time
init_threads answer time_ok n =
    let (ret, threads) = start_all answer 0 n in
    start_time time_ok (clean_up ret (record { threads = threads; time_thread = false }))

pub init : (ℕ → Started) → Bool → ℕ → ℕ → Option (Bool × Schedule)
unfolding thread_count init_threads
init answer time_ok hardware_concurrency schedule_num =
    init_threads answer time_ok (thread_count hardware_concurrency schedule_num)

-- The thread that gets an event of `addScheduleInternal` or `removeSchedule`; `idx` is `none` for the
-- default of -1.
unfoldable pub thread_for : ℕ → ℕ → Option ℕ → ℕ
thread_for size fd none = fd % size
thread_for size fd (some idx) = if ltb 0 idx then idx % size else fd % size

pub add_schedule_internal : (ℕ → ℕ → Bool) → ℕ → ℕ → Option ℕ → Bool
unfolding thread_for
add_schedule_internal add_event size fd idx =
    if size == 0 then false else add_event (thread_for size fd idx) fd
