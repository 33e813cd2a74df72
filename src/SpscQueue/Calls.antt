-- ===== src/SpscQueue/Calls.antt =====
-- Whole calls of `SPSCQueue` of include/common/lockfree_queue.h: `push` and `pop` as a bounded queue,
-- and the destructor.
use sofa_bolt_cpp.Base.{
  ℕ, zero, suc, ◌+◌, ◌%◌, ◌≤◌, ◌<◌, ◌≡◌, refl, ap, ◌∙◌, ◌⊎◌, inl, inr, true, false, Bool-cases,
  none, some, [], ◌∷◌, ◌++◌, arith, leb, ◌==◌, eq→==, ne→==, length, get_elem?, length-take,
  get_elem?-past, length-append,
}
use sofa_bolt_cpp.SpscQueue.{
  Queue, set_cell, full, construct, publish, push, nothing_new, take_out, release, pop, World,
  destroy_loop, destroy, constructs, publishes, takes, releases, Reachable, next,
}
use sofa_bolt_cpp.SpscQueue.Cells.{opt_list, all, Inv}
use sofa_bolt_cpp.SpscQueue.Fifo.{Reachable-Inv, take_out-oldest}

abbrev pub after_push : {A : Type 0} → World A → A → World A
after_push s v = record s {
  queue = publish (construct s.queue v);
  made = none;
  pushed = s.pushed ++ (v ∷ []);
}

abbrev pub after_pop : {A : Type 0} → World A → A → World A
after_pop s v = record s {
  queue = release (take_out s.queue).1;
  taken = none;
  popped = s.popped ++ (v ∷ []);
}

module _ {A : Type 0} (s : World A) (reached : Reachable s) where
  inv : Inv s
  inv = Reachable-Inv reached

  popped_lem : length s.popped ≡ s.queue.read_idx
  popped_lem =
      omega
        (arith, ap length inv.given, length-take s.queue.read_idx s.pushed, inv.count, inv.behind)

  -- A `push` that no other push interrupts refuses exactly when `capacity` values are pushed and not
  -- popped, and then changes nothing; otherwise it adds its value to the end of what was pushed.
  pub push-after_push :
      (v : A)
      → s.made ≡ none
      → ((length s.pushed ≡ length s.popped + s.queue.capacity)
          × (push v s.queue ≡ (false, s.queue)))
        ⊎ ((length s.pushed < length s.popped + s.queue.capacity)
            × (push v s.queue ≡ (true, (after_push s v).queue))
            × Reachable (after_push s v))
  unfolding push full
  push-after_push v e =
      elim (Bool-cases (leb (s.queue.read_idx + s.queue.capacity) s.queue.write_idx)) [
        | inl f ↦ inl (
          ground (
            arith,
            f,
            inv.count,
            popped_lem,
            inv.bounded,
            length-append s.pushed (opt_list s.made),
          ),
          rw f refl,
        )
        | inr f ↦ inr (
          ground (arith, f, inv.count, popped_lem),
          rw f refl,
          next _ _ (next _ _ reached (constructs s s.queue.read_idx v e (omega arith) f))
              (publishes _ v refl),
        )
      ]

  -- A `pop` that no other pop interrupts fails exactly when all that was pushed is popped, and then
  -- changes nothing; otherwise it returns the oldest value that is pushed and not popped.
  pub pop-after_pop :
      s.taken ≡ none
      → ((length s.pushed ≡ length s.popped) × (pop s.queue ≡ (none, s.queue)))
        ⊎ ((v : A) × (get_elem? s.pushed (length s.popped) ≡ some v)
            × (pop s.queue ≡ (some v, (after_pop s v).queue))
            × Reachable (after_pop s v))
  unfolding pop nothing_new take_out
  pop-after_pop e = elim (Bool-cases (s.queue.read_idx == s.queue.write_idx)) [
    | inl f ↦ inl (ground (arith, f, inv.count, popped_lem), rw f refl)
    | inr f ↦
        let (v, here, oldest) =
          take_out-oldest s reached s.queue.write_idx e (omega (arith, inv.behind)) (omega arith)
            f in
        inr (
          v,
          ap (get_elem? s.pushed) popped_lem ∙ oldest,
          rw f (ap (λ o. (o, release (take_out s.queue).1)) here),
          next _ _
              (next _ _ reached (
                takes s s.queue.write_idx v _ e (omega (arith, inv.behind)) (omega arith) f
                  (ap (λ o. (o, (take_out s.queue).1)) here)))
              (releases _ v refl),
        )
  ]

destroy_loop-keeps :
    {A : Type 0} (fuel read : ℕ) (q : Queue A) (j : ℕ)
    → q.buffer j ≡ none
    → (destroy_loop fuel read q).buffer j ≡ none
unfolding destroy_loop
destroy_loop-keeps zero read q j e = e
destroy_loop-keeps (suc fuel) read q j e = elim (Bool-cases (read == q.write_idx)) [
  | inl f ↦ rw f e
  | inr f ↦ rw f (destroy_loop-keeps fuel (suc read) (set_cell q read none) j (ground arith))
]

destroy_loop-ends :
    {A : Type 0} (fuel read : ℕ) (q : Queue A) (i : ℕ)
    → read + fuel ≡ q.write_idx
    → read ≤ i
    → i < q.write_idx
    → (destroy_loop fuel read q).buffer (i % q.capacity) ≡ none
unfolding destroy_loop
destroy_loop-ends zero read q i e from to = absurd (omega (arith, e, from, to))
destroy_loop-ends (suc fuel) read q i e from to =
    rw (ne→== read q.write_idx (λ h. omega (arith, e, h))) (elim (Bool-cases (i == read)) [
      | inl f ↦ destroy_loop-keeps fuel (suc read) (set_cell q read none) (i % q.capacity) (
          let same : i ≡ read = ground arith in
          rw same (rw (eq→== (read % q.capacity) _ refl) refl))
      | inr f ↦
          destroy_loop-ends fuel (suc read) (set_cell q read none) i (omega (arith, e))
            (ground (arith, from)) to
    ])

-- When neither side is inside a call, the destructor's loop runs to its end and leaves no object in
-- any of the `capacity` cells.
pub destroy-empty :
    {A : Type 0} (s : World A) (i : ℕ)
    → Reachable s
    → s.made ≡ none
    → s.taken ≡ none
    → s.queue.read_idx ≤ i
    → i < s.queue.read_idx + s.queue.capacity
    → (destroy s.queue).buffer (i % s.queue.capacity) ≡ none
unfolding destroy
destroy-empty s i reached e e' from to = elim (Bool-cases (leb s.queue.write_idx i)) [
  | inl f ↦ destroy_loop-keeps _ _ s.queue (i % s.queue.capacity) (
      inv.cells i (omega (arith, none_taken, from)) (omega (arith, none_taken, to))
      ∙ get_elem?-past (all s) i
          (ground (arith, f, inv.count, none_made, length-append s.pushed (opt_list s.made))))
  | inr f ↦ destroy_loop-ends _ _ s.queue i (omega (arith, inv.behind)) from (ground arith)
]
  where
    inv : Inv s
    inv = Reachable-Inv reached

    none_made : length (opt_list s.made) ≡ 0
    none_made = ap (λ o. length (opt_list o)) e

    none_taken : length (opt_list s.taken) ≡ 0
    none_taken = ap (λ o. length (opt_list o)) e'
