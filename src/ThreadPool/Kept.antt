-- ===== src/ThreadPool/Kept.antt =====
-- What stays true of the pool of include/common/thread_pool.h and the threads that submit to it.
use sofa_bolt_cpp.Base.{
  ℕ, zero, suc, ◌+◌, ◌≡◌, refl, sym, ◌∙◌, inl, inr, Bool, true, false, Bool-cases, some, List, [],
  ◌∷◌, if◌then◌else◌, ◌==◌, ==→eq, arith, is, count,
}
use sofa_bolt_cpp.ThreadPool.{
  active, standby, SingleThread, new_threads, init, find_standby, pair_new, submit_to, drop_first,
}
use sofa_bolt_cpp.ThreadPool.Places.{
  in_queue, queued, drop_first-queued, submit_to-queued, pair_new-queued,
}
use sofa_bolt_cpp.ThreadPool.Pairs.{
  StatusAt, StatusAt-kept, Paired, pair_new-Paired, submit_to-StatusAt,
}
use sofa_bolt_cpp.ThreadPool.Runs.{
  World, set_paired, Step, pairs, places, takes, exits, Reachable, start, next,
}

record Inv (s : World) : Type 0 where
  tasks : (x : ℕ) → count (is x) s.ran + queued x s.pool ≡ count (is x) s.submitted
  own : (c i : ℕ) → s.paired c ≡ some i → StatusAt active i s.pool.tds
  alone : (c d i : ℕ) → s.paired c ≡ some i → s.paired d ≡ some i → c ≡ d

pairs-Inv :
    (s : World) (c : ℕ)
    → Inv s
    → Inv (record s {
      pool = (pair_new (find_standby 0 s.pool.tds) s.pool).1;
      paired = set_paired s.paired c (pair_new (find_standby 0 s.pool.tds) s.pool).0;
    })
pairs-Inv s c inv = record {
  tasks = λ x. omega (arith, inv.tasks x, pair_new-queued x (find_standby 0 s.pool.tds) s.pool);
  own = λ d i e. elim (Bool-cases (d == c)) [
    | inl f ↦ (found.mine i (rw f at e)).0
    | inr f ↦ found.stay i (inv.own d i (rw f at e))
  ];
  alone = λ d d' i e e'. elim (Bool-cases (d == c)) [
    | inl f ↦ elim (Bool-cases (d' == c)) [
      | inl f' ↦ ==→eq d c f ∙ sym (==→eq d' c f')
      | inr f' ↦ other d d' i (rw f at e) (rw f' at e')
    ]
    | inr f ↦ elim (Bool-cases (d' == c)) [
      | inl f' ↦ other d d' i (rw f' at e') (rw f at e)
      | inr f' ↦ inv.alone d d' i (rw f at e) (rw f' at e')
    ]
  ];
}
  where
    found :
        Paired s.pool
          (pair_new (find_standby 0 s.pool.tds) s.pool).0
          (pair_new (find_standby 0 s.pool.tds) s.pool).1
    found = pair_new-Paired (find_standby 0 s.pool.tds) s.pool refl

    -- What is found was active for nobody.
    other :
        (d d' : ℕ) {e : ℕ} (i : ℕ)
        → (pair_new (find_standby 0 s.pool.tds) s.pool).0 ≡ some i
        → s.paired e ≡ some i
        → d ≡ d'
    other d d' {e} i f g =
        let self : (i == i) ≡ true = ground arith in
        absurd (cc (sym self ∙ (found.mine i f).1 i (inv.own e i g)))

ran_lem :
    (x task : ℕ) (b : Bool) (ran : List ℕ)
    → count (is x) (if b then task ∷ ran else ran) ≡ (if b then is x task else 0) + count (is x) ran
ran_lem x task true ran = refl
ran_lem x task false ran = omega arith

Step-Inv : {s s' : World} → Step s s' → Inv s → Inv s'
unfolding drop_first
Step-Inv (pairs s c e) inv = pairs-Inv s c inv
Step-Inv (places s c task td e) inv = record {
  tasks = λ x. omega (
    arith,
    inv.tasks x,
    submit_to-queued x task (s.paired c) td s.pool,
    ran_lem x task (submit_to task (s.paired c) td s.pool).by_caller s.ran,
  );
  own = λ d i f. submit_to-StatusAt task (s.paired c) td s.pool i (inv.own d i f);
  alone = inv.alone;
}
Step-Inv (takes s i task e) inv = record {
  tasks = λ x. omega (arith, inv.tasks x, drop_first-queued x i s.pool task e);
  own = λ d k f. StatusAt-kept drop_first active i k s.pool.tds (λ t. refl) (inv.own d k f);
  alone = inv.alone;
}
Step-Inv (exits s) inv = record { tasks = inv.tasks; own = inv.own; alone = inv.alone }

new_threads-count :
    (f : SingleThread → ℕ) (n : ℕ)
    → f (record { status = standby; made = false; tasks = [] }) ≡ 0
    → count f (new_threads n) ≡ 0
unfolding new_threads
new_threads-count f zero e = refl
new_threads-count f (suc n) e = omega (arith, e, new_threads-count f n e)

Reachable-Inv : {s : World} → Reachable s → Inv s
unfolding init
Reachable-Inv (start capacity queue_size) = record {
  tasks = λ x. omega (arith, new_threads-count (in_queue x) capacity refl);
  own = λ c i e. absurd (cc e);
  alone = λ c d i e. absurd (cc e);
}
Reachable-Inv (next s s' reached st) = Step-Inv st (Reachable-Inv reached)

-- As long as no thread that has submitted a task ends, two of them are never paired with one thread of the
-- pool, so that its queue has a single producer, and a thread that is paired is active.
pub Reachable-alone :
    (s : World) (c d i : ℕ)
    → Reachable s
    → s.paired c ≡ some i
    → s.paired d ≡ some i
    → (c ≡ d) × StatusAt active i s.pool.tds
Reachable-alone s c d i reached e e' =
    let inv = Reachable-Inv reached in (inv.alone c d i e e', inv.own c i e)
