-- ===== src/SpscQueue.antt =====
-- `SPSCQueue` of include/common/lockfree_queue.h: a queue of fixed capacity for one producer and one
-- consumer. A cell holds `none` where no object lives. The two indices only grow; that they wrap
-- after 2^64 pushes is left out.
pub mod Calls
pub mod Fifo
pub mod Cells
pub mod Tests
use sofa_bolt_cpp.Base.{
  ℕ, zero, suc, ◌+◌, ◌-◌, ◌%◌, ◌≤◌, ◌<◌, ◌≡◌, Bool, true, false, Option, none, some, List, [], ◌∷◌,
  ◌++◌, if◌then◌else◌, leb, ◌==◌,
}

-- The capacity is a power of two, so `i & _mask` is the remainder.
pub record Queue (A : Type 0) : Type 0 where
  pub capacity : ℕ
  pub buffer : ℕ → Option A
  pub read_idx : ℕ
  pub write_idx : ℕ

abbrev pub cell : {A : Type 0} → Queue A → ℕ → Option A
cell q i = q.buffer (i % q.capacity)

abbrev pub set_cell : {A : Type 0} → Queue A → ℕ → Option A → Queue A
set_cell q i c = record q { buffer = λ j. if j == i % q.capacity then c else q.buffer j }

-- `push`: the test for a full queue, from the `_read_idx` that was loaded; the object made in the
-- cell; the store of the index.
pub full : {A : Type 0} → Queue A → ℕ → Bool
full q read = leb (read + q.capacity) q.write_idx

pub construct : {A : Type 0} → Queue A → A → Queue A
construct q val = set_cell q q.write_idx (some val)

pub publish : {A : Type 0} → Queue A → Queue A
publish q = record q { write_idx = suc q.write_idx }

pub push : {A : Type 0} → A → Queue A → Bool × Queue A
unfolding full construct publish
push val q = if full q q.read_idx then (false, q) else (true, publish (construct q val))

-- `pop`: the test for an empty queue, from the `_write_idx` that was loaded; the move out of the
-- cell and the end of its object; the store of the index.
pub nothing_new : {A : Type 0} → Queue A → ℕ → Bool
nothing_new q write = q.read_idx == write

pub take_out : {A : Type 0} → Queue A → Option A × Queue A
take_out q = (cell q q.read_idx, set_cell q q.read_idx none)

pub release : {A : Type 0} → Queue A → Queue A
release q = record q { read_idx = suc q.read_idx }

pub pop : {A : Type 0} → Queue A → Option A × Queue A
unfolding nothing_new take_out release
pop q =
    if nothing_new q q.write_idx then (none, q) else let (val, q') = take_out q in (val, release q')

pub front : {A : Type 0} → Queue A → Option A
front q = cell q q.read_idx

pub size : {A : Type 0} → Queue A → ℕ
size q = if leb q.write_idx q.read_idx then 0 else q.write_idx - q.read_idx

-- The destructor's loop, on fuel; `size q` rounds are enough. It ends the objects of the cells
-- between the indices, where `T` has something to do there.
pub destroy_loop : {A : Type 0} → ℕ → ℕ → Queue A → Queue A
destroy_loop zero read q = q
destroy_loop (suc fuel) read q =
    let rest = destroy_loop fuel (suc read) (set_cell q read none) in
    if read == q.write_idx then q else rest

pub destroy : {A : Type 0} → Queue A → Queue A
unfolding destroy_loop
destroy q = destroy_loop (q.write_idx - q.read_idx) q.read_idx q

-- The queue with its two users. `made` is what the producer has put in a cell and not published,
-- `taken` what the consumer has moved out of one and not released; `pushed` and `popped` are the
-- values of the calls that returned true.
pub record World (A : Type 0) : Type 0 where
  pub queue : Queue A
  pub made : Option A
  pub taken : Option A
  pub pushed : List A
  pub popped : List A

-- One access. `r` and `w` are an index of the other side that was loaded at some time before.
-- Calls that return false leave everything as it is.
pub data Step {A : Type 0} : World A → World A → Type 0 where
  constructs :
      (s : World A) (r : ℕ) (v : A)
      → s.made ≡ none
      → r ≤ s.queue.read_idx
      → full s.queue r ≡ false
      → Step s (record s { queue = construct s.queue v; made = some v })
  publishes :
      (s : World A) (v : A)
      → s.made ≡ some v
      → Step s (record s { queue = publish s.queue; made = none; pushed = s.pushed ++ (v ∷ []) })
  takes :
      (s : World A) (w : ℕ) (v : A) (q : Queue A)
      → s.taken ≡ none
      → s.queue.read_idx ≤ w
      → w ≤ s.queue.write_idx
      → nothing_new s.queue w ≡ false
      → take_out s.queue ≡ (some v, q)
      → Step s (record s { queue = q; taken = some v })
  releases :
      (s : World A) (v : A)
      → s.taken ≡ some v
      → Step s (record s { queue = release s.queue; taken = none; popped = s.popped ++ (v ∷ []) })

-- What steps reach from a queue just made.
pub data Reachable {A : Type 0} : World A → Type 0 where
  start :
      (capacity : ℕ)
      → 0 < capacity
      → Reachable (record {
        queue = record { capacity = capacity; buffer = λ _. none; read_idx = 0; write_idx = 0 };
        made = none;
        taken = none;
        pushed = [];
        popped = [];
      })
  next : (s s' : World A) → Reachable s → Step s s' → Reachable s'
