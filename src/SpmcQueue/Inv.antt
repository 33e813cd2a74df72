-- ===== src/SpmcQueue/Inv.antt =====
-- What stays true of `SPMCQueue` of include/common/lockfree_queue.h under every access to it.
use sofa_bolt_cpp.Base.{
  ℕ, suc, ◌+◌, ◌%◌, ◌≤◌, ◌<◌, ◌≡◌, refl, ap, subst, sym, ◌∙◌, inl, inr, true, false, Bool-cases,
  Option, none, some, List, [], ◌∷◌, ◌++◌, append-nil, arith, ◌==◌, eq→==, ==→eq, length, get_elem?,
  take, length-append, get_elem?-append_left, get_elem?-last, get_elem?-within, take-suc,
  take-append_le,
}
use sofa_bolt_cpp.SpscQueue.Cells.{opt_list, apart}
use sofa_bolt_cpp.SpmcQueue.{Queue, full, construct, publish, copy_at, claim, World, set_held}

abbrev pub all : {A : Type 0} → World A → List A
all s = s.pushed ++ opt_list s.made

-- What a consumer holds was copied from an index not past the oldest, and is the value pushed there
-- where it still is the oldest.
pub record Held {A : Type 0} (s : World A) (r : ℕ) (v : A) : Type 0 where
  pub loaded : r ≤ s.queue.read_idx
  pub oldest : r ≡ s.queue.read_idx → get_elem? s.pushed r ≡ some v

pub record Inv {A : Type 0} (s : World A) : Type 0 where
  pub room : 0 < s.queue.capacity
  pub count : length s.pushed ≡ s.queue.write_idx
  pub behind : s.queue.read_idx ≤ s.queue.write_idx
  pub bounded : length (all s) ≤ s.queue.read_idx + s.queue.capacity
  pub cells :
      (i : ℕ)
      → s.queue.read_idx ≤ i
      → i < length (all s)
      → some (s.queue.buffer (i % s.queue.capacity)) ≡ get_elem? (all s) i
  pub held : (c r : ℕ) (v : A) → s.held c ≡ some (r, v) → Held s r v
  pub given : s.popped ≡ take s.queue.read_idx s.pushed

claim-true :
    {A : Type 0} (q q' : Queue A) (r : ℕ)
    → claim q r ≡ (true, q')
    → (q.read_idx ≡ r) × (record q { read_idx = suc r } ≡ q')
unfolding claim
claim-true q q' r e = elim (Bool-cases (q.read_idx == r)) [
  | inl f ↦ (==→eq _ _ f, ap (λ p. p.1) (rw f at e))
  | inr f ↦ absurd (cc (ap (λ p. p.0) (rw f at e)))
]

claim-false : {A : Type 0} (q q' : Queue A) (r : ℕ) → claim q r ≡ (false, q') → q ≡ q'
unfolding claim
claim-false q q' r e = elim (Bool-cases (q.read_idx == r)) [
  | inl f ↦ absurd (cc (ap (λ p. p.0) (rw f at e)))
  | inr f ↦ ap (λ p. p.1) (rw f at e)
]

pub copy_at_lem :
    {A : Type 0} (q : Queue A) (r : ℕ) (v : A)
    → copy_at q r ≡ some v
    → ((r == q.write_idx) ≡ false) × (some (q.buffer (r % q.capacity)) ≡ some v)
unfolding copy_at
copy_at_lem q r v e = elim (Bool-cases (r == q.write_idx)) [
  | inl f ↦ absurd (cc (rw f at e))
  | inr f ↦ (f, rw f at e)
]

module _ {A : Type 0} (s : World A) (inv : Inv s) where
  pub constructs-Inv :
      (r : ℕ) (v : A)
      → s.made ≡ none
      → r ≤ s.queue.read_idx
      → full s.queue r ≡ false
      → Inv (record s { queue = construct s.queue v; made = some v })
  unfolding full construct
  constructs-Inv r v e old free = record {
    room = inv.room;
    count = inv.count;
    behind = inv.behind;
    bounded = ground (arith, free, old, inv.count, length-append s.pushed (v ∷ []));
    cells = λ i from to. elim (Bool-cases (i == s.queue.write_idx)) [
      | inl f ↦
          let same : i ≡ s.queue.write_idx = ground arith in
          rw same (
            rw (eq→== (s.queue.write_idx % s.queue.capacity) _ refl) (
              sym (
                ap (get_elem? (s.pushed ++ (v ∷ []))) (sym inv.count) ∙ get_elem?-last s.pushed v)))
      | inr f ↦
          let less : i < length s.pushed =
            ground (arith, f, to, inv.count, length-append s.pushed (v ∷ [])) in
          rw
            (apart s.queue.capacity i s.queue.write_idx inv.room f (omega (arith, less, inv.count))
              (ground (arith, free, old, from)))
            (inv.cells i from (omega (arith, less, length-append s.pushed (opt_list s.made)))
              ∙ get_elem?-append_left s.pushed (opt_list s.made) i less
              ∙ sym (get_elem?-append_left s.pushed (v ∷ []) i less))
    ];
    held = λ c x y there.
        let h = inv.held c x y there in record { loaded = h.loaded; oldest = h.oldest };
    given = inv.given;
  }

  pub publishes-Inv :
      (v : A)
      → s.made ≡ some v
      → Inv (record s { queue = publish s.queue; made = none; pushed = s.pushed ++ (v ∷ []) })
  unfolding publish
  publishes-Inv v e = record {
    room = inv.room;
    count = omega (arith, inv.count, length-append s.pushed (v ∷ []));
    behind = omega (arith, inv.behind);
    bounded = rw one (rw all_lem at (inv.bounded));
    cells = λ i from to.
        inv.cells i from (omega (arith, to, ap length all_lem, ap length one))
        ∙ ap (λ l. get_elem? l i) (all_lem ∙ sym one);
    held = λ c x y there.
        let h = inv.held c x y there in
        record {
          loaded = h.loaded;
          oldest = λ same.
              let here = h.oldest same in
              get_elem?-append_left s.pushed (v ∷ []) x (get_elem?-within s.pushed _ y here) ∙ here;
        };
    given =
        inv.given
        ∙ sym (
            take-append_le s.queue.read_idx s.pushed (v ∷ [])
              (omega (arith, inv.count, inv.behind)));
  }
    where
      all_lem : all s ≡ s.pushed ++ (v ∷ [])
      all_lem = ap (λ o. s.pushed ++ opt_list o) e

      one : (s.pushed ++ (v ∷ [])) ++ [] ≡ s.pushed ++ (v ∷ [])
      one = append-nil (s.pushed ++ (v ∷ []))

  pub copies-Inv :
      (c r : ℕ) (v : A)
      → r ≤ s.queue.read_idx
      → copy_at s.queue r ≡ some v
      → Inv (record s { held = set_held s.held c (some (r, v)) })
  copies-Inv c r v old found = record {
    room = inv.room;
    count = inv.count;
    behind = inv.behind;
    bounded = inv.bounded;
    cells = inv.cells;
    held = λ d x y there. elim (Bool-cases (d == c)) [
      | inl f ↦
          let (e, e') = pair_lem (rw f at there) in
          record {
            loaded = rw (← e) old;
            oldest = λ same. rw (← e') (rw (← e) (copied (e ∙ same)));
          }
      | inr f ↦
          let h = inv.held d x y (rw f at there) in record { loaded = h.loaded; oldest = h.oldest }
    ];
    given = inv.given;
  }
    where
      pair_lem :
          {x : ℕ} {y : A} → ◌≡◌ {A = Option (ℕ × A)} (some (r, v)) (some (x, y)) → (r ≡ x) × (v ≡ y)
      pair_lem e = (
        ap (λ o. elim o [ none ↦ r | some p ↦ p.0 ]) e,
        ap (λ o. elim o [ none ↦ v | some p ↦ p.1 ]) e,
      )

      copied : r ≡ s.queue.read_idx → get_elem? s.pushed r ≡ some v
      copied same =
          let (new, cell) = copy_at_lem s.queue r v found in
          let less : r < length s.pushed = ground (arith, inv.count, inv.behind) in
          sym (get_elem?-append_left s.pushed (opt_list s.made) r less)
          ∙ sym (
              inv.cells r (omega (arith, same))
                (omega (arith, less, length-append s.pushed (opt_list s.made))))
          ∙ cell

  pub claims-Inv :
      (c r : ℕ) (v : A) (q : Queue A)
      → s.held c ≡ some (r, v)
      → claim s.queue r ≡ (true, q)
      → Inv (record s { queue = q; held = set_held s.held c none; popped = s.popped ++ (v ∷ []) })
  claims-Inv c r v q there done =
      let (mine, next_queue) = claim-true s.queue q r done in
      let here : get_elem? s.pushed s.queue.read_idx ≡ some v =
        ap (get_elem? s.pushed) mine ∙ Held.oldest (inv.held c r v there) (sym mine) in
      subst
        (λ q.
          Inv
            (record s { queue = q; held = set_held s.held c none; popped = s.popped ++ (v ∷ []) }))
        (ap (λ i. record (s.queue) { read_idx = suc i }) mine ∙ next_queue)
        (record {
          room = inv.room;
          count = inv.count;
          behind = omega (arith, inv.count, get_elem?-within s.pushed _ v here);
          bounded = omega (arith, inv.bounded);
          cells = λ i from to. inv.cells i (omega (arith, from)) to;
          held = λ d x y hold. elim (Bool-cases (d == c)) [
            | inl f ↦ absurd (cc (rw f at hold))
            | inr f ↦
                let h = inv.held d x y (rw f at hold) in
                record {
                  loaded = omega (arith, h.loaded);
                  oldest = λ same. absurd (omega (arith, same, h.loaded));
                }
          ];
          given =
              ap (λ l. l ++ (v ∷ [])) inv.given ∙ sym (take-suc s.pushed s.queue.read_idx v here);
        })

  pub fails-Inv :
      (c r : ℕ) (q : Queue A)
      → claim s.queue r ≡ (false, q)
      → Inv (record s { queue = q; held = set_held s.held c none })
  fails-Inv c r q done =
      subst (λ q. Inv (record s { queue = q; held = set_held s.held c none }))
        (claim-false s.queue q r done)
        (record {
          room = inv.room;
          count = inv.count;
          behind = inv.behind;
          bounded = inv.bounded;
          cells = inv.cells;
          held = λ d x y hold. elim (Bool-cases (d == c)) [
            | inl f ↦ absurd (cc (rw f at hold))
            | inr f ↦
                let h = inv.held d x y (rw f at hold) in
                record { loaded = h.loaded; oldest = h.oldest }
          ];
          given = inv.given;
        })
