-- ===== src/SpmcQueue/Tests.antt =====
-- Runs of `SPMCQueue` of include/common/lockfree_queue.h with two cells.
use sofa_bolt_cpp.Base.{ℕ, ◌+◌, ◌≡◌, ◌≤◌, refl, none, some, [], ◌∷◌, arith, take, length}
use sofa_bolt_cpp.SpmcQueue.{
  World, full, construct, publish, copy_at, claim, set_held, Reachable, start, next, constructs,
  publishes, copies, claims,
}
use sofa_bolt_cpp.SpmcQueue.Fifo.{popped-pushed}

abbrev empty : World ℕ
empty = record {
  queue = record { capacity = 2; buffer = λ _. 0; read_idx = 0; write_idx = 0 };
  made = none;
  held = λ _. none;
  pushed = [];
  popped = [];
}

abbrev one : World ℕ
one = record empty { queue = publish (construct empty.queue 7); pushed = 7 ∷ [] }

-- Consumers 3 and 5 both copy the value, and 5 takes the index.
abbrev both : World ℕ
both = record one { held = set_held (set_held empty.held 3 (some (0, 7))) 5 (some (0, 7)) }

abbrev taken : World ℕ
taken = record both {
  queue = (claim one.queue 0).1;
  held = set_held both.held 5 none;
  popped = 7 ∷ [];
}

taken-Reachable : Reachable taken
unfolding full construct publish copy_at claim
taken-Reachable =
    next _ _
      (next _ _
        (next _ _
          (next _ _
            (next _ _ (start 2 (λ _. 0) (omega arith))
              (constructs empty 0 7 refl (omega arith) refl))
            (publishes _ 7 refl))
          (copies one 3 0 7 (omega arith) refl))
        (copies _ 5 0 7 (omega arith) refl))
      (claims both 5 0 7 _ refl refl)

popped-pushed_example :
    (taken.popped ≡ take taken.queue.read_idx taken.pushed)
    × (length taken.pushed ≡ taken.queue.write_idx)
    × (taken.queue.read_idx ≤ taken.queue.write_idx)
    × (taken.queue.write_idx ≤ taken.queue.read_idx + taken.queue.capacity)
popped-pushed_example = popped-pushed taken taken-Reachable
