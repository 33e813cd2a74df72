-- ===== src/SocketManager.antt =====
-- src/tcp/socket_manager.h and src/tcp/socket_manager.cpp: the thread that watches the connections and
-- reclaims those that no channel uses any more. A shared pointer is the number of its socket.
pub mod Release
pub mod Liveness
pub mod Rounds
pub mod Tests
pub mod Turns
use sofa_bolt_cpp.Base.{
  ℕ, zero, suc, ◌+◌, ◌-◌, ◌%◌, ◌^◌, Bool, true, false, ◌&&◌, ◌||◌, not, Option, none, some, List,
  [], ◌∷◌, ◌++◌, if◌then◌else◌, ltb, ◌==◌,
}
use sofa_bolt_cpp.Schedule.{thread_for}

-- `Socket`: its descriptor, whether its event is in the schedule, and whether `_on_read` is set, which
-- holds the socket itself.
pub record Sock : Type 0 where
  pub fd : ℕ
  pub scheduled : Bool
  pub on_read : Bool

-- `SocketManager`; `_reclaim_counter` only grows, that it wraps is left out.
pub record Manager : Type 0 where
  pub list : List ℕ
  pub reclaim_list : List ℕ
  pub reclaim_counter : ℕ
  pub sock : ℕ → Sock

abbrev pub set_sock : ℕ → (Sock → Sock) → (ℕ → Sock) → ℕ → Sock
set_sock x change sock y = if x == y then change (sock y) else sock y

-- `Socket::disconnect`
pub disconnect : ℕ → (ℕ → Sock) → ℕ → Sock
disconnect x sock = set_sock x (λ s. record s { scheduled = false }) sock

-- `socket->_on_read = std::function<void()>()`
pub drop_on_read : ℕ → (ℕ → Sock) → ℕ → Sock
drop_on_read x sock = set_sock x (λ s. record s { on_read = false }) sock

pub add_watch : ℕ → Manager → Manager
add_watch x m = record m { list = m.list ++ (x ∷ []) }

-- The first loop of `watchConnections`: what stays in the list, what is put in the reclaim list, and
-- the sockets afterwards. `exclusive` is what `tryExclusive` answers.
pub collect : (ℕ → Bool) → List ℕ → (ℕ → Sock) → List ℕ × List ℕ × (ℕ → Sock)
unfolding disconnect
collect exclusive [] sock = ([], [], sock)
collect exclusive (x ∷ xs) sock =
    let (kept, gone, sock') =
      collect exclusive xs (if exclusive x then disconnect x sock else sock) in
    if exclusive x then (kept, x ∷ gone, sock') else (x ∷ kept, gone, sock')

-- The loop over the reclaim list: what stays in it, what is released, and the sockets afterwards.
pub release : (size cur_idx : ℕ) → List ℕ → (ℕ → Sock) → List ℕ × List ℕ × (ℕ → Sock)
unfolding drop_on_read
release size cur_idx [] sock = ([], [], sock)
release size cur_idx (x ∷ xs) sock =
    let ours = (sock x).fd % size == cur_idx in
    let (kept, gone, sock') =
      release size cur_idx xs (if ours then drop_on_read x sock else sock) in
    if ours then (kept, x ∷ gone, sock') else (x ∷ kept, gone, sock')

-- What a round does: the manager afterwards, the sockets that were released, and those to be sent a
-- heartbeat.
pub record Outcome : Type 0 where
  pub manager : Manager
  pub released : List ℕ
  pub watched : List ℕ

-- Step 2 of `watchConnections`, for a reclaim list; `notified` says whether the thread asked for
-- answered in time.
pub reclaim_from : ℕ → Bool → Manager → List ℕ → Manager × List ℕ
unfolding release
reclaim_from size notified m [] = (m, [])
reclaim_from size true m (y ∷ ys) =
    let (kept, gone, sock') = release size (m.reclaim_counter % size) (y ∷ ys) m.sock in
    (record m { reclaim_list = kept; reclaim_counter = suc m.reclaim_counter; sock = sock' }, gone)
reclaim_from size false m (y ∷ ys) = (record m { reclaim_counter = suc m.reclaim_counter }, [])

pub reclaim : ℕ → Bool → Manager → Manager × List ℕ
unfolding reclaim_from
reclaim size notified m = reclaim_from size notified m m.reclaim_list

pub watch_connections : (ℕ → Bool) → ℕ → Bool → Manager → Outcome
unfolding collect reclaim
watch_connections exclusive size notified m =
    let (kept, gone, sock') = collect exclusive m.list m.sock in
    let (m', released) =
      reclaim size notified
        (record m { list = kept; reclaim_list = m.reclaim_list ++ gone; sock = sock' }) in
    record { manager = m'; released = released; watched = kept }

-- The thread of the schedule that is asked to notify, of `size` threads; `reclaim_fd` is the descriptor
-- that it is given, `_reclaim_fd[1]`.
pub asked : ℕ → ℕ → Manager → ℕ
unfolding thread_for
asked size reclaim_fd m = thread_for size reclaim_fd (some (m.reclaim_counter % size))

-- The thread that polls a socket.
pub polled_by : ℕ → Sock → ℕ
unfolding thread_for
polled_by size s = thread_for size s.fd none

-- `destroy`, once the watching thread is joined.
pub drop_all : List ℕ → (ℕ → Sock) → ℕ → Sock
unfolding drop_on_read
drop_all [] sock = sock
drop_all (x ∷ xs) sock = drop_all xs (drop_on_read x sock)

pub destroy : Manager → Manager
unfolding drop_all
destroy m = record m {
  list = [];
  reclaim_list = [];
  sock = drop_all (m.reclaim_list ++ m.list) m.sock;
}

-- Step 3: whether a socket is sent a heartbeat, and whether it is then marked as failed.
pub record Peer : Type 0 where
  pub active : Bool
  pub last_active_time : ℕ
  pub has_heartbeat : Bool

-- The answers to a heartbeat: of `assemble_heartbeat_fn`, `failed` and `parse_heartbeat_fn`.
pub record Beat : Type 0 where
  pub assembled : Bool
  pub failed : Bool
  pub parsed : Bool

abbrev pub socket_max_idle_us : ℕ
socket_max_idle_us = 15000000

-- `size_t` subtraction.
pub idle_time : ℕ → ℕ → ℕ
idle_time now last = (now + 2 ^ 64 - last) % 2 ^ 64

pub is_due : ℕ → Peer → Bool
unfolding idle_time
is_due now p =
    if not p.active
    then false
    else if ltb socket_max_idle_us (idle_time now p.last_active_time)
    then p.has_heartbeat
    else false

pub is_dead : ℕ → Peer → Beat → Bool
unfolding is_due
is_dead now p b =
    if is_due now p
    then (if b.assembled then (if b.failed then true else not b.parsed) else false)
    else false
