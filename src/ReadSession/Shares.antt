-- ===== src/ReadSession/Shares.antt =====
-- `SocketReadSession` of src/tcp/socket.h: the shares that the threads have, call by call.
use sofa_bolt_cpp.Base.{ℕ, ◌+◌, ◌*◌, ◌≤◌, ◌≡◌, refl, Bool, true, false, arith}
use sofa_bolt_cpp.LifeCycleLock.{try_shared, release_shared, set_upgraded, try_upgrade_once}
use sofa_bolt_cpp.ReadSession.{
  Agent, resting, backing, sharing, winning, leaving, returned, ended, Worker, scheduling, writing,
  waiting, posting, done, failed, Notify, shares, refused, backs_off, upgrades, late, leaves,
}

abbrev pub num : Bool → ℕ
num true = 1
num false = 0

-- The share that a call of `notify` holds; whether the call has won and not yet told anyone; and
-- whether it has been told that a call has won.
abbrev pub share : Agent → ℕ
share resting = 0
share returned = 0
share ended = 0
share other = 1

abbrev pub holds_win : Agent → ℕ
holds_win winning = 1
holds_win other = 0

abbrev pub tried : Agent → ℕ
tried resting = 0
tried sharing = 0
tried other = 1

-- The share that the timer's thread got from the sender, and the one that the sender gets from the
-- call that wins.
abbrev pub timer_share : Agent → ℕ
timer_share ended = 0
timer_share other = 1

abbrev pub worker_share : Bool → Worker → ℕ
worker_share has_result done = 0
worker_share has_result other = num has_result

abbrev pub is_done : Worker → ℕ
is_done done = 1
is_done other = 0

abbrev pub is_posting : Worker → ℕ
is_posting posting = 1
is_posting other = 0

pub worker_share-open : (r : Bool) (w : Worker) → is_done w ≡ 0 → worker_share r w ≡ num r
worker_share-open r scheduling e = refl
worker_share-open r writing e = refl
worker_share-open r waiting e = refl
worker_share-open r posting e = refl
worker_share-open r done e = absurd (omega (arith, e))
worker_share-open r failed e = refl

pub worker_share-le : (r : Bool) (w : Worker) → worker_share r w ≤ num r
worker_share-le r done = omega arith
worker_share-le r scheduling = omega arith
worker_share-le r writing = omega arith
worker_share-le r waiting = omega arith
worker_share-le r posting = omega arith
worker_share-le r failed = omega arith

pub num-le : (b : Bool) → num b ≤ 1
num-le true = omega arith
num-le false = omega arith

abbrev pub has_failed : Worker → ℕ
has_failed failed = 1
has_failed other = 0

-- The bits of `owners` with `n` shares, `wins` calls that won, and `d` for a deleted session.
pub record Bits (v n wins d : ℕ) : Type 0 where
  pub counted : v + d ≡ 4 * n + 2 * wins
  pub one_win : wins ≤ 1
  pub apart : 4 * d + n ≤ 4
  pub after : d ≤ wins

pub share-le : (a : Agent) → share a ≤ 1
share-le resting = omega arith
share-le backing = omega arith
share-le sharing = omega arith
share-le winning = omega arith
share-le leaving = omega arith
share-le returned = omega arith
share-le ended = omega arith

pub timer_share-le : (a : Agent) → timer_share a ≤ 1
timer_share-le resting = omega arith
timer_share-le backing = omega arith
timer_share-le sharing = omega arith
timer_share-le winning = omega arith
timer_share-le leaving = omega arith
timer_share-le returned = omega arith
timer_share-le ended = omega arith

-- A thread that is in `notify` has not ended.
pub Notify-open :
    {v v' : ℕ} {a b : Agent} {w : ℕ} → Notify v a v' b w → (timer_share a ≡ 1) × (timer_share b ≡ 1)
Notify-open (shares v e) = (refl, refl)
Notify-open (refused v e) = (refl, refl)
Notify-open (backs_off v) = (refl, refl)
Notify-open (upgrades v e) = (refl, refl)
Notify-open (late v e) = (refl, refl)
Notify-open (leaves v) = (refl, refl)

-- An access of `notify`, where the other threads hold `c` shares.
pub Notify-Bits :
    {v v' : ℕ} {a b : Agent} {w : ℕ} (c wins : ℕ)
    → c ≤ 3
    → Notify v a v' b w
    → Bits v (share a + c) wins 0
    → tried a ≤ wins
    → Bits v' (share b + c) (wins + w) 0 × (tried b ≤ wins + w) × (holds_win b ≡ holds_win a + w)
unfolding try_shared release_shared set_upgraded try_upgrade_once
Notify-Bits c wins few (shares v e) h t = (
  record {
    counted = ground arith;
    one_win = ground arith;
    apart = ground arith;
    after = ground arith;
  },
  ground arith,
  refl,
)
Notify-Bits c wins few (refused v e) h t = (
  record {
    counted = ground arith;
    one_win = ground arith;
    apart = ground arith;
    after = ground arith;
  },
  ground arith,
  refl,
)
Notify-Bits c wins few (backs_off v) h t = (
  record {
    counted = ground arith;
    one_win = ground arith;
    apart = ground arith;
    after = ground arith;
  },
  ground arith,
  refl,
)
Notify-Bits c wins few (upgrades v e) h t = (
  record {
    counted = ground arith;
    one_win = ground arith;
    apart = ground arith;
    after = ground arith;
  },
  ground arith,
  refl,
)
Notify-Bits c wins few (late v e) h t = (
  record {
    counted = ground arith;
    one_win = ground arith;
    apart = ground arith;
    after = ground arith;
  },
  ground arith,
  refl,
)
Notify-Bits c wins few (leaves v) h t = (
  record {
    counted = ground arith;
    one_win = ground arith;
    apart = ground arith;
    after = ground arith;
  },
  ground arith,
  refl,
)
