-- ===== src/MpscQueue/Tests.antt =====
-- The queue of include/common/lockfree_queue.h with two cells.
use sofa_bolt_cpp.Base.{
  ℕ, ◌≡◌, ◌≤◌, refl, Bool, true, false, none, some, [], ◌∷◌, arith, ◌==◌, if◌then◌else◌,
}
use sofa_bolt_cpp.MpscQueue.{
  Queue, World, reserves, stores, commits, copies, advances, Reachable, start, next, full, reserve,
  put_cell, commit, copy_front, advance,
}
use sofa_bolt_cpp.MpscQueue.Fifo.{popped-first}
use sofa_bolt_cpp.MpscQueue.Inv.{first}

abbrev empty : Queue ℕ
empty = record { capacity = 2; buffer = λ _. 0; read_idx = 0; write_prepare_idx = 0; write_idx = 0 }

-- The value 7 is pushed and popped.
abbrev value : ℕ → ℕ
value i = if i == 0 then 7 else 0

abbrev stored : ℕ → Bool
stored i = if i == 0 then true else false

abbrev cells : ℕ → ℕ
cells j = if j == 0 then 7 else 0

abbrev reserved : World ℕ
reserved = record {
  queue = record empty { write_prepare_idx = 1 };
  value = value;
  stored = λ _. false;
  copied = none;
  popped = [];
}

abbrev pushed : World ℕ
pushed = record reserved {
  queue = record empty { buffer = cells; write_prepare_idx = 1; write_idx = 1 };
  stored = stored;
}

abbrev done : World ℕ
done = record pushed {
  queue = record empty { buffer = cells; write_prepare_idx = 1; write_idx = 1; read_idx = 1 };
  popped = 7 ∷ [];
}

pushed-Reachable : Reachable pushed
unfolding full reserve put_cell commit
pushed-Reachable =
    next _ _
      (next _ _
        (next _ _ (start 2 (λ _. 0) (λ _. 0) (omega arith))
          (reserves _ 0 7 (record empty { write_prepare_idx = 1 }) (omega arith) refl refl))
        (stores reserved 0 (omega arith) (omega arith) refl))
      (commits _ 0 (record empty { buffer = cells; write_prepare_idx = 1; write_idx = 1 }) refl
        refl)

done-Reachable : Reachable done
unfolding copy_front advance
done-Reachable =
    next _ _ (next _ _ pushed-Reachable (copies pushed 7 refl refl))
      (advances (record pushed { copied = some 7 }) 7 refl)

popped-first_example : (done.popped ≡ first value 1) × (1 ≤ 1) × (1 ≤ 1) × (1 ≤ 3)
popped-first_example = popped-first done done-Reachable
