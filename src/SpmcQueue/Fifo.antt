-- ===== src/SpmcQueue/Fifo.antt =====
-- `SPMCQueue` of include/common/lockfree_queue.h, its producer and its consumers interleaved.
use sofa_bolt_cpp.Base.{
  ℕ, ◌+◌, ◌≤◌, ◌≡◌, refl, ap, inl, inr, Bool-cases, none, arith, ◌==◌, length, take, length-take,
  length-append,
}
use sofa_bolt_cpp.SpscQueue.Cells.{opt_list}
use sofa_bolt_cpp.SpmcQueue.{
  copy_at, World, Step, constructs, publishes, copies, claims, fails, Reachable, start, next,
}
use sofa_bolt_cpp.SpmcQueue.Inv.{
  Inv, constructs-Inv, publishes-Inv, copies-Inv, claims-Inv, fails-Inv,
}

Step-Inv : {A : Type 0} {s s' : World A} → Step s s' → Inv s → Inv s'
Step-Inv (constructs s r v e old free) inv = constructs-Inv s inv r v e old free
Step-Inv (publishes s v e) inv = publishes-Inv s inv v e
Step-Inv (copies s c r v old found) inv = copies-Inv s inv c r v old found
Step-Inv (claims s c r v q there done) inv = claims-Inv s inv c r v q there done
Step-Inv (fails s c r v q there done) inv = fails-Inv s inv c r q done

Reachable-Inv : {A : Type 0} {s : World A} → Reachable s → Inv s
Reachable-Inv (start capacity buffer room) = record {
  room = room;
  count = omega arith;
  behind = omega arith;
  bounded = omega arith;
  cells = λ i from to. absurd (omega (arith, to));
  held = λ c r v e. absurd (cc e);
  given = refl;
}
Reachable-Inv (next s s' reached st) = Step-Inv st (Reachable-Inv reached)

module _ {A : Type 0} (s : World A) (reached : Reachable s) where
  -- However the producer and the consumers are interleaved, a consumer that copied from a cell used
  -- again in the meantime included, the values that the consumers were given, in the order in which
  -- they took the indices, are the first `read_idx` of those that were pushed, in their order: none
  -- is given twice and none is left out. As many were pushed as `write_idx` says, and never more than
  -- `capacity` of them are not popped yet.
  pub popped-pushed :
      (s.popped ≡ take s.queue.read_idx s.pushed)
      × (length s.pushed ≡ s.queue.write_idx)
      × (s.queue.read_idx ≤ s.queue.write_idx)
      × (s.queue.write_idx ≤ s.queue.read_idx + s.queue.capacity)
  popped-pushed =
      let inv = Reachable-Inv reached in
      (
        inv.given,
        inv.count,
        inv.behind,
        omega (arith, inv.bounded, inv.count, length-append s.pushed (opt_list s.made)),
      )

  -- A consumer whose `pop` returns false, whatever index it had loaded before, found all that was
  -- pushed taken already.
  pub copy_at-empty :
      (r : ℕ) → r ≤ s.queue.read_idx → copy_at s.queue r ≡ none → length s.popped ≡ length s.pushed
  unfolding copy_at
  copy_at-empty r old e = elim (Bool-cases (r == s.queue.write_idx)) [
    | inl f ↦
        let inv = Reachable-Inv reached in
        ground
          (arith, ap length inv.given, length-take s.queue.read_idx s.pushed, inv.count, inv.behind)
    | inr f ↦ absurd (cc (rw f at e))
  ]
