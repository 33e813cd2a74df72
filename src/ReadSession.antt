-- ===== src/ReadSession.antt =====
-- `SocketReadSession` of src/tcp/socket.h: what the thread that sends a request, the timer's thread and
-- the thread that reads the socket do with the record of one call, and with its life-cycle lock.
pub mod Shares
pub mod Live
pub mod Timer
pub mod Reader
pub mod Kept
pub mod Tests
use sofa_bolt_cpp.Base.{ℕ, suc, ◌+◌, ◌≡◌, Bool, true, false}
use sofa_bolt_cpp.LifeCycleLock.{try_shared, release_shared, try_upgrade_once, try_exclusive}

-- Where a thread is in `notify`: before `tryShared`, after one that failed, after one that succeeded,
-- after a `tryUpgradeNonReEntrant` that succeeded, before the last `releaseShared`, and after the
-- call. `ended` is the timer's thread after it has released its own share.
pub data Agent : Type 0 where
  resting backing sharing winning leaving returned ended : Agent

-- Where the thread of `sendInternal` is: before the timer's task is added, before the write, before
-- the result is there, after that, and at the end, which is `failed` where the task could not be
-- added or the write failed.
pub data Worker : Type 0 where
  scheduling writing waiting posting done failed : Worker

-- `owners` of the session, the three threads, whether the timer's task was added,  whether it has a callback, how many calls of `notify`
-- have won, whether the `result` is set, and whether the session has been deleted.
pub record ReadSession : Type 0 where
  pub owners : ℕ
  pub timer : Agent
  pub timer_added : Bool
  pub reader : Agent
  pub worker : Worker
  pub has_callback : Bool
  pub wins : ℕ
  pub has_result : Bool
  pub deleted : Bool

-- After `new SocketReadSession`, `tryShared` for the timer's thread, and `prepareRead`.
pub created : Bool → ReadSession
created has_callback = record {
  owners = (try_shared 0).1;
  timer = resting;
  timer_added = false;
  reader = resting;
  worker = scheduling;
  has_callback = has_callback;
  wins = 0;
  has_result = false;
  deleted = false;
}

-- An access of `notify` to `owners`, and how many calls it makes win.
pub data Notify : ℕ → Agent → ℕ → Agent → ℕ → Type 0 where
  shares : (v : ℕ) → (try_shared v).0 ≡ true → Notify v resting (try_shared v).1 sharing 0
  refused : (v : ℕ) → (try_shared v).0 ≡ false → Notify v resting (try_shared v).1 backing 0
  backs_off : (v : ℕ) → Notify v backing (release_shared v) returned 0
  upgrades :
      (v : ℕ) → (try_upgrade_once v).0 ≡ true → Notify v sharing (try_upgrade_once v).1 winning 1
  late :
      (v : ℕ) → (try_upgrade_once v).0 ≡ false → Notify v sharing (try_upgrade_once v).1 leaving 0
  leaves : (v : ℕ) → Notify v leaving (release_shared v) returned 0

-- One access of one of the threads. A call that wins either calls back, or sets the result and
-- keeps its share for the thread that waits for it. The reading thread may call `notify` again, and it
-- deletes the session when `tryExclusive` succeeds.
pub data Step : ReadSession → ReadSession → Type 0 where
  adds_timer :
      (s : ReadSession)
      → s.worker ≡ scheduling
      → Step s (record s { timer_added = true; worker = writing })
  timer_busy :
      (s : ReadSession)
      → s.worker ≡ scheduling
      → Step s (record s { owners = release_shared s.owners; worker = failed })
  writes : (s : ReadSession) → s.worker ≡ writing → Step s (record s { worker = waiting })
  write_fails :
      (s : ReadSession)
      → s.worker ≡ writing
      → Step s (record s { owners = release_shared s.owners; worker = failed })
  has_no_result :
      (s : ReadSession)
      → s.worker ≡ waiting
      → s.has_callback ≡ true
      → Step s (record s { worker = done })
  gets_result :
      (s : ReadSession)
      → s.worker ≡ waiting
      → s.has_callback ≡ false
      → s.has_result ≡ true
      → Step s (record s { worker = posting })
  worker_releases :
      (s : ReadSession)
      → s.worker ≡ posting
      → Step s (record s { owners = release_shared s.owners; worker = done })
  timer_notifies :
      (s : ReadSession) (v : ℕ) (a : Agent) (w : ℕ)
      → s.timer_added ≡ true
      → Notify s.owners s.timer v a w
      → Step s (record s { owners = v; timer = a; wins = s.wins + w })
  timer_calls_back :
      (s : ReadSession)
      → s.timer ≡ winning
      → s.has_callback ≡ true
      → Step s (record s { timer = leaving })
  timer_sets_result :
      (s : ReadSession)
      → s.timer ≡ winning
      → s.has_callback ≡ false
      → Step s (record s { timer = returned; has_result = true })
  timer_releases :
      (s : ReadSession)
      → s.timer ≡ returned
      → Step s (record s { owners = release_shared s.owners; timer = ended })
  reader_notifies :
      (s : ReadSession) (v : ℕ) (a : Agent) (w : ℕ)
      → s.deleted ≡ false
      → Notify s.owners s.reader v a w
      → Step s (record s { owners = v; reader = a; wins = s.wins + w })
  reader_calls_back :
      (s : ReadSession)
      → s.reader ≡ winning
      → s.has_callback ≡ true
      → Step s (record s { reader = leaving })
  reader_sets_result :
      (s : ReadSession)
      → s.reader ≡ winning
      → s.has_callback ≡ false
      → Step s (record s { reader = returned; has_result = true })
  reader_goes_on : (s : ReadSession) → s.reader ≡ returned → Step s (record s { reader = resting })
  reclaims :
      (s : ReadSession)
      → s.reader ≡ resting
      → s.deleted ≡ false
      → (try_exclusive s.owners).0 ≡ true
      → Step s (record s { owners = (try_exclusive s.owners).1; deleted = true })

pub data Reachable : ReadSession → Type 0 where
  start : (has_callback : Bool) → Reachable (created has_callback)
  next : (s s' : ReadSession) → Reachable s → Step s s' → Reachable s'
