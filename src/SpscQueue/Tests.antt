-- ===== src/SpscQueue/Tests.antt =====
-- Runs of `SPSCQueue` of include/common/lockfree_queue.h with two cells.
use sofa_bolt_cpp.Base.{
  ℕ, ◌+◌, ◌≡◌, ◌≤◌, ◌<◌, ◌⊎◌, refl, true, false, none, [], arith, take, length,
}
use sofa_bolt_cpp.SpscQueue.{World, full, push, Reachable, start, next, constructs, publishes}
use sofa_bolt_cpp.SpscQueue.Fifo.{popped-take}
use sofa_bolt_cpp.SpscQueue.Calls.{after_push, push-after_push}

abbrev empty : World ℕ
empty = record {
  queue = record { capacity = 2; buffer = λ _. none; read_idx = 0; write_idx = 0 };
  made = none;
  taken = none;
  pushed = [];
  popped = [];
}

abbrev one : World ℕ
one = after_push empty 7

one-Reachable : Reachable one
unfolding full
one-Reachable =
    next _ _ (next _ _ (start 2 (omega arith)) (constructs empty 0 7 refl (omega arith) refl))
      (publishes _ 7 refl)

popped-take_example :
    (one.popped ≡ take one.queue.read_idx one.pushed)
    × (length one.pushed ≡ one.queue.write_idx)
    × (one.queue.read_idx ≤ one.queue.write_idx)
    × (one.queue.write_idx ≤ one.queue.read_idx + one.queue.capacity)
popped-take_example = popped-take one one-Reachable

push-after_push_example :
    ((length one.pushed ≡ length one.popped + one.queue.capacity)
      × (push 8 one.queue ≡ (false, one.queue)))
    ⊎ ((length one.pushed < length one.popped + one.queue.capacity)
        × (push 8 one.queue ≡ (true, (after_push one 8).queue))
        × Reachable (after_push one 8))
push-after_push_example = push-after_push one one-Reachable 8 refl
