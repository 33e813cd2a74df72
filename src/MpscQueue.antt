-- ===== src/MpscQueue.antt =====
-- `MPSCQueue` of include/common/lockfree_queue.h: a queue of fixed capacity for many producers and one
-- consumer. The three indices only grow; that they wrap after 2^64 pushes is left out.
pub mod Inv
pub mod Steps
pub mod Fifo
pub mod Tests
use sofa_bolt_cpp.Base.{
  ℕ, suc, ◌+◌, ◌-◌, ◌%◌, ◌≤◌, ◌<◌, ◌≡◌, Bool, true, false, Option, none, some, List, [], ◌∷◌, ◌++◌,
  if◌then◌else◌, leb, ◌==◌,
}

-- The capacity is a power of two, so `i & _mask` is the remainder.
pub record Queue (A : Type 0) : Type 0 where
  pub capacity : ℕ
  pub buffer : ℕ → A
  pub read_idx : ℕ
  pub write_prepare_idx : ℕ
  pub write_idx : ℕ

-- `push`: the test for a full queue, from the `read` and the `write` that were loaded; the
-- `compare_exchange_strong` that reserves the index; the write to the cell; the one that commits.
pub full : {A : Type 0} → Queue A → ℕ → ℕ → Bool
full q read write = leb (read + q.capacity) write

pub reserve : {A : Type 0} → Queue A → ℕ → Bool × Queue A
reserve q write =
    if q.write_prepare_idx == write
    then (true, record q { write_prepare_idx = suc write })
    else (false, q)

pub put_cell : {A : Type 0} → Queue A → ℕ → A → Queue A
put_cell q write val = record q {
  buffer = λ j. if j == write % q.capacity then val else q.buffer j;
}

pub commit : {A : Type 0} → Queue A → ℕ → Bool × Queue A
commit q write =
    if q.write_idx == write then (true, record q { write_idx = suc write }) else (false, q)

-- `pop`: the copy of the value, where the queue is not empty, and the store of the index.
pub copy_front : {A : Type 0} → Queue A → Option A
copy_front q = if q.read_idx == q.write_idx then none else some (q.buffer (q.read_idx % q.capacity))

pub advance : {A : Type 0} → Queue A → Queue A
advance q = record q { read_idx = suc q.read_idx }

-- `size`
pub size : {A : Type 0} → Queue A → ℕ
size q = if leb q.write_idx q.read_idx then 0 else q.write_idx - q.read_idx

-- The queue with what its users are doing. A producer is known by the index that it reserved: `value`
-- is what it pushes there, and `stored` whether it has written it. `copied` is what the consumer
-- holds between its copy and its store, and `popped` what it was given, in order.
pub record World (A : Type 0) : Type 0 where
  pub queue : Queue A
  pub value : ℕ → A
  pub stored : ℕ → Bool
  pub copied : Option A
  pub popped : List A

-- One access. `r` is a `read` that a producer loaded at some time before: `_read_idx` only grows.
-- Calls that return false leave everything as it is.
pub data Step {A : Type 0} : World A → World A → Type 0 where
  reserves :
      (s : World A) (r : ℕ) (v : A) (q : Queue A)
      → r ≤ s.queue.read_idx
      → full s.queue r s.queue.write_prepare_idx ≡ false
      → reserve s.queue s.queue.write_prepare_idx ≡ (true, q)
      → Step s (record s {
        queue = q;
        value = λ i. if i == s.queue.write_prepare_idx then v else s.value i;
      })
  stores :
      (s : World A) (w : ℕ)
      → s.queue.write_idx ≤ w
      → w < s.queue.write_prepare_idx
      → s.stored w ≡ false
      → Step s (record s {
        queue = put_cell s.queue w (s.value w);
        stored = λ i. if i == w then true else s.stored i;
      })
  commits :
      (s : World A) (w : ℕ) (q : Queue A)
      → s.stored w ≡ true
      → commit s.queue w ≡ (true, q)
      → Step s (record s { queue = q })
  copies :
      (s : World A) (v : A)
      → s.copied ≡ none
      → copy_front s.queue ≡ some v
      → Step s (record s { copied = some v })
  advances :
      (s : World A) (v : A)
      → s.copied ≡ some v
      → Step s (record s { queue = advance s.queue; copied = none; popped = s.popped ++ (v ∷ []) })

-- What steps reach from a queue just made.
pub data Reachable {A : Type 0} : World A → Type 0 where
  start :
      (capacity : ℕ) (buffer value : ℕ → A)
      → 0 < capacity
      → Reachable (record {
        queue = record {
          capacity = capacity;
          buffer = buffer;
          read_idx = 0;
          write_prepare_idx = 0;
          write_idx = 0;
        };
        value = value;
        stored = λ _. false;
        copied = none;
        popped = [];
      })
  next : (s s' : World A) → Reachable s → Step s s' → Reachable s'
