-- ===== src/SpscQueue/Fifo.antt =====
-- `SPSCQueue` of include/common/lockfree_queue.h, its two sides interleaved and each call whole.
use sofa_bolt_cpp.Base.{
  ℕ, ◌+◌, ◌≤◌, ◌<◌, ◌≡◌, refl, ap, ◌∙◌, inl, inr, false, none, some, arith, length, get_elem?, take,
  get_elem?-past, Option-cases, get_elem?-append_left, get_elem?-ne_none, length-append,
}
use sofa_bolt_cpp.SpscQueue.{
  cell, full, nothing_new, take_out, World, Step, constructs, publishes, takes, releases, Reachable,
  start, next,
}
use sofa_bolt_cpp.SpscQueue.Cells.{
  opt_list, all, Inv, constructs-Inv, publishes-Inv, takes-Inv, releases-Inv,
}

Step-Inv : {A : Type 0} {s s' : World A} → Step s s' → Inv s → Inv s'
Step-Inv (constructs s r v e old free) inv = constructs-Inv s inv r v e old free
Step-Inv (publishes s v e) inv = publishes-Inv s inv v e
Step-Inv (takes s w v q e from to new out) inv = takes-Inv s inv w v q e from to new out
Step-Inv (releases s v e) inv = releases-Inv s inv v e

pub Reachable-Inv : {A : Type 0} {s : World A} → Reachable s → Inv s
Reachable-Inv (start capacity room) = record {
  room = room;
  count = omega arith;
  behind = omega arith;
  bounded = omega arith;
  cells = λ i from to. refl;
  held = λ v e. absurd (cc e);
  given = refl;
}
Reachable-Inv (next s s' reached st) = Step-Inv st (Reachable-Inv reached)

module _ {A : Type 0} (s : World A) (reached : Reachable s) where
  -- However the accesses of the two sides are interleaved, the values that the consumer was given
  -- are the first `read_idx` of those that the producer pushed, in their order; as many were pushed
  -- as `write_idx` says, and never more than `capacity` of them are not popped yet.
  pub popped-take :
      (s.popped ≡ take s.queue.read_idx s.pushed)
      × (length s.pushed ≡ s.queue.write_idx)
      × (s.queue.read_idx ≤ s.queue.write_idx)
      × (s.queue.write_idx ≤ s.queue.read_idx + s.queue.capacity)
  popped-take =
      let inv = Reachable-Inv reached in
      (
        inv.given,
        inv.count,
        omega (arith, inv.behind),
        omega (arith, inv.bounded, inv.count, length-append s.pushed (opt_list s.made)),
      )

  -- Between two pushes, a cell that the test for a full queue lets the producer use holds no object,
  -- whichever `_read_idx` it had loaded: nothing is overwritten and no destructor is left out.
  pub construct-empty :
      (r : ℕ)
      → s.made ≡ none
      → r ≤ s.queue.read_idx
      → full s.queue r ≡ false
      → cell s.queue s.queue.write_idx ≡ none
  unfolding full
  construct-empty r e old free =
      let inv = Reachable-Inv reached in
      inv.cells s.queue.write_idx (omega (arith, inv.behind)) (ground (arith, free, old))
      ∙ get_elem?-past (all s) s.queue.write_idx
          (omega (arith, inv.count, length-append s.pushed (opt_list s.made), none_made))
    where
      none_made : length (opt_list s.made) ≡ 0
      none_made = ap (λ o. length (opt_list o)) e

  -- Between two pops, the cell that the test for an empty queue lets the consumer move from holds
  -- the oldest value that is not popped, whichever `_write_idx` it had loaded.
  pub take_out-oldest :
      (w : ℕ)
      → s.taken ≡ none
      → s.queue.read_idx ≤ w
      → w ≤ s.queue.write_idx
      → nothing_new s.queue w ≡ false
      → (v : A) × ((take_out s.queue).0 ≡ some v) × (get_elem? s.pushed s.queue.read_idx ≡ some v)
  unfolding nothing_new take_out
  take_out-oldest w e from to new = elim (Option-cases (get_elem? s.pushed s.queue.read_idx)) [
    | inl p ↦
        absurd (get_elem?-ne_none s.pushed s.queue.read_idx (omega (arith, less, inv.count)) p)
    | inr (v, p) ↦ (
      v,
      inv.cells s.queue.read_idx (omega (arith, none_taken)) (omega (arith, none_taken, inv.room))
          ∙ get_elem?-append_left s.pushed (opt_list s.made) s.queue.read_idx
              (omega (arith, less, inv.count))
          ∙ p,
      p,
    )
  ]
    where
      inv : Inv s
      inv = Reachable-Inv reached

      less : s.queue.read_idx < s.queue.write_idx
      less = ground arith

      none_taken : length (opt_list s.taken) ≡ 0
      none_taken = ap (λ o. length (opt_list o)) e
