-- ===== src/MpscQueue/Fifo.antt =====
-- The queue of include/common/lockfree_queue.h gives out what was pushed, in the order of the indices.
use sofa_bolt_cpp.Base.{
  suc, ◌+◌, ◌≤◌, ◌<◌, ◌≡◌, refl, ap, ◌∙◌, subst, ◌⊎◌, inl, inr, Bool-cases, none, some, arith, ◌==◌,
  ==→eq, if◌then◌else◌,
}
use sofa_bolt_cpp.MpscQueue.{
  copy_front, World, Step, reserves, stores, commits, copies, advances, Reachable, start, next,
}
use sofa_bolt_cpp.MpscQueue.Inv.{first, Inv, reserve_lem, commit_lem}
use sofa_bolt_cpp.MpscQueue.Steps.{reserves-Inv, stores-Inv, commits-Inv, copies-Inv, advances-Inv}

Step-Inv : {A : Type 0} {s s' : World A} → Step s s' → Inv s → Inv s'
Step-Inv (reserves s r v q old free done) inv =
    subst
      (λ q. Inv (record s {
        queue = q;
        value = λ i. if i == s.queue.write_prepare_idx then v else s.value i;
      }))
      (reserve_lem s.queue q done) (reserves-Inv s r v old free inv)
Step-Inv (stores s w low high new) inv = stores-Inv s w low high inv
Step-Inv (commits s w q there done) inv =
    let (mine, next_queue) = commit_lem s.queue q w done in
    subst (λ q. Inv (record s { queue = q }))
      (ap (λ i. record (s.queue) { write_idx = suc i }) mine ∙ next_queue)
      (commits-Inv s (ap s.stored mine ∙ there) inv)
Step-Inv (copies s v none_yet found) inv = copies-Inv s v found inv
Step-Inv (advances s v there) inv = advances-Inv s v there inv

pub Reachable-Inv : {A : Type 0} {s : World A} → Reachable s → Inv s
Reachable-Inv (start capacity buffer value room) = record {
  room = room;
  behind = omega arith;
  within = omega arith;
  bounded = omega arith;
  present = λ i low high done. absurd (omega arith);
  unborn = λ i h. refl;
  held = λ x e. absurd (cc e);
  given = refl;
}
Reachable-Inv (next s s' reached st) = Step-Inv st (Reachable-Inv reached)

-- However pushes and pops are interleaved, the consumer has been given the values of the reserved
-- indices in their order, none of them twice and none left out, and never are more values in the
-- queue than it has cells.
pub popped-first :
    {A : Type 0} (s : World A)
    → Reachable s
    → (s.popped ≡ first s.value s.queue.read_idx)
      × (s.queue.read_idx ≤ s.queue.write_idx)
      × (s.queue.write_idx ≤ s.queue.write_prepare_idx)
      × (s.queue.write_prepare_idx ≤ s.queue.read_idx + s.queue.capacity)
popped-first s reached =
    let inv = Reachable-Inv reached in (inv.given, inv.behind, inv.within, inv.bounded)

-- What `pop` copies is the value of the oldest index that is not popped, if any is committed.
pub copy_front-value :
    {A : Type 0} (s : World A)
    → Reachable s
    → ((s.queue.read_idx ≡ s.queue.write_idx) × (copy_front s.queue ≡ none))
      ⊎ ((s.queue.read_idx < s.queue.write_idx)
          × (copy_front s.queue ≡ some (s.value s.queue.read_idx)))
unfolding copy_front
copy_front-value s reached =
    let inv = Reachable-Inv reached in
    elim (Bool-cases (s.queue.read_idx == s.queue.write_idx)) [
      | inl e ↦ inl (==→eq _ _ e, rw e refl)
      | inr e ↦
          let less : s.queue.read_idx < s.queue.write_idx = ground (arith, inv.behind) in
          inr (
            less,
            rw e (
                ap some (
                  inv.present s.queue.read_idx (omega arith) (omega (arith, less, inv.within))
                    (inl less))),
          )
    ]
