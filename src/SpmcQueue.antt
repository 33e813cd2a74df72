-- ===== src/SpmcQueue.antt =====
-- `SPMCQueue` of include/common/lockfree_queue.h: a queue of fixed capacity for one producer and many
-- consumers. The two indices only grow; that they wrap after 2^64 pushes is left out.
pub mod Inv
pub mod Fifo
pub mod Tests
use sofa_bolt_cpp.Base.{
  ℕ, suc, ◌+◌, ◌-◌, ◌%◌, ◌≤◌, ◌<◌, ◌≡◌, Bool, true, false, Option, none, some, List, [], ◌∷◌, ◌++◌,
  if◌then◌else◌, leb, ◌==◌,
}

-- The capacity is a power of two, so `i & _mask` is the remainder.
pub record Queue (A : Type 0) : Type 0 where
  pub capacity : ℕ
  pub buffer : ℕ → A
  pub read_idx : ℕ
  pub write_idx : ℕ

-- `push`: the test for a full queue, from the `_read_idx` that was loaded; the write to the cell; the
-- store of the index.
pub full : {A : Type 0} → Queue A → ℕ → Bool
full q read = leb (read + q.capacity) q.write_idx

pub construct : {A : Type 0} → Queue A → A → Queue A
construct q val = record q {
  buffer = λ j. if j == q.write_idx % q.capacity then val else q.buffer j;
}

pub publish : {A : Type 0} → Queue A → Queue A
publish q = record q { write_idx = suc q.write_idx }

-- `pop`, one round of its loop: the copy from the cell of the index that was loaded, where that is
-- not `_write_idx`; the `compare_exchange_strong` that takes the index.
pub copy_at : {A : Type 0} → Queue A → ℕ → Option A
copy_at q read = if read == q.write_idx then none else some (q.buffer (read % q.capacity))

pub claim : {A : Type 0} → Queue A → ℕ → Bool × Queue A
claim q read = if q.read_idx == read then (true, record q { read_idx = suc read }) else (false, q)

pub size : {A : Type 0} → Queue A → ℕ
size q = if leb q.write_idx q.read_idx then 0 else q.write_idx - q.read_idx

-- The queue with its users. `made` is what the producer has put in a cell and not published; `held`
-- is, for each consumer in a round of its loop, the index it loaded and the value it copied.
-- `pushed` and `popped` are the values of the calls that returned true, `popped` in the order in
-- which the indices were taken.
pub record World (A : Type 0) : Type 0 where
  pub queue : Queue A
  pub made : Option A
  pub held : ℕ → Option (ℕ × A)
  pub pushed : List A
  pub popped : List A

abbrev pub set_held : {A : Type 0} → (ℕ → Option (ℕ × A)) → ℕ → Option (ℕ × A) → ℕ → Option (ℕ × A)
set_held held c o d = if d == c then o else held d

-- One access. `r` is a `_read_idx` that was loaded at some time before. A consumer that copies from a
-- stale index may copy a cell that was used again since: its value is whatever stands there.
pub data Step {A : Type 0} : World A → World A → Type 0 where
  constructs :
      (s : World A) (r : ℕ) (v : A)
      → s.made ≡ none
      → r ≤ s.queue.read_idx
      → full s.queue r ≡ false
      → Step s (record s { queue = construct s.queue v; made = some v })
  publishes :
      (s : World A) (v : A)
      → s.made ≡ some v
      → Step s (record s { queue = publish s.queue; made = none; pushed = s.pushed ++ (v ∷ []) })
  copies :
      (s : World A) (c r : ℕ) (v : A)
      → r ≤ s.queue.read_idx
      → copy_at s.queue r ≡ some v
      → Step s (record s { held = set_held s.held c (some (r, v)) })
  claims :
      (s : World A) (c r : ℕ) (v : A) (q : Queue A)
      → s.held c ≡ some (r, v)
      → claim s.queue r ≡ (true, q)
      → Step s
          (record s { queue = q; held = set_held s.held c none; popped = s.popped ++ (v ∷ []) })
  fails :
      (s : World A) (c r : ℕ) (v : A) (q : Queue A)
      → s.held c ≡ some (r, v)
      → claim s.queue r ≡ (false, q)
      → Step s (record s { queue = q; held = set_held s.held c none })

-- What steps reach from a queue just made.
pub data Reachable {A : Type 0} : World A → Type 0 where
  start :
      (capacity : ℕ) (buffer : ℕ → A)
      → 0 < capacity
      → Reachable (record {
        queue = record { capacity = capacity; buffer = buffer; read_idx = 0; write_idx = 0 };
        made = none;
        held = λ _. none;
        pushed = [];
        popped = [];
      })
  next : (s s' : World A) → Reachable s → Step s s' → Reachable s'
