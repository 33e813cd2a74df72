-- ===== src/SpscQueue/Cells.antt =====
-- What the cells of `SPSCQueue` of include/common/lockfree_queue.h hold, and that each access of the
-- two sides keeps it so.
use native.Mathlib.Nat.{add-mod_right}
use sofa_bolt_cpp.Base.{
  ℕ, ◌+◌, ◌%◌, ◌≤◌, ◌<◌, ◌≡◌, refl, ap, subst, sym, ◌∙◌, inl, inr, false, Bool-cases, Option, none,
  some, List, [], ◌∷◌, ◌++◌, append-nil, arith, leb, ◌==◌, eq→==, ne→==, length, get_elem?, take,
  length-append, get_elem?-append_left, get_elem?-past, get_elem?-last, get_elem?-within, take-suc,
  take-append_le,
}
use sofa_bolt_cpp.MpscQueue.Inv.{cells-apart}
use sofa_bolt_cpp.SpscQueue.{
  Queue, cell, full, construct, publish, nothing_new, take_out, release, World,
}

abbrev pub opt_list : {A : Type 0} → Option A → List A
opt_list none = []
opt_list (some a) = a ∷ []

-- Two indices that are less than the capacity apart.
pub apart :
    (c i w : ℕ) → 0 < c → (i == w) ≡ false → i < w + c → w < i + c → ((i % c) == (w % c)) ≡ false
apart c i w room ne near near' = elim (Bool-cases (leb i w)) [
  | inl g ↦ ne→== (i % c) (w % c) (cells-apart c i w room (ground arith) near')
  | inr g ↦ ne→== (i % c) (w % c) λ e. cells-apart c w i room (ground arith) near (sym e)
]

-- All that was put into cells, and the first index whose cell is not taken out yet.
abbrev pub all : {A : Type 0} → World A → List A
all s = s.pushed ++ opt_list s.made

abbrev pub low : {A : Type 0} → World A → ℕ
low s = s.queue.read_idx + length (opt_list s.taken)

pub record Inv {A : Type 0} (s : World A) : Type 0 where
  pub room : 0 < s.queue.capacity
  pub count : length s.pushed ≡ s.queue.write_idx
  pub behind : low s ≤ s.queue.write_idx
  pub bounded : length (all s) ≤ s.queue.read_idx + s.queue.capacity
  pub cells :
      (i : ℕ) → low s ≤ i → i < low s + s.queue.capacity → cell s.queue i ≡ get_elem? (all s) i
  pub held : (v : A) → s.taken ≡ some v → get_elem? s.pushed s.queue.read_idx ≡ some v
  pub given : s.popped ≡ take s.queue.read_idx s.pushed

module _ {A : Type 0} (s : World A) (inv : Inv s) where
  all-none : s.made ≡ none → all s ≡ s.pushed
  all-none e = ap (λ o. s.pushed ++ opt_list o) e ∙ append-nil s.pushed

  pub constructs-Inv :
      (r : ℕ) (v : A)
      → s.made ≡ none
      → r ≤ s.queue.read_idx
      → full s.queue r ≡ false
      → Inv (record s { queue = construct s.queue v; made = some v })
  unfolding full construct
  constructs-Inv r v e old free = record {
    room = inv.room;
    count = inv.count;
    behind = inv.behind;
    bounded = ground (arith, free, old, inv.count, length-append s.pushed (v ∷ []));
    cells = λ i from to. elim (Bool-cases (i == s.queue.write_idx)) [
      | inl f ↦
          let same : i ≡ s.queue.write_idx = ground arith in
          rw same (
            rw (eq→== (s.queue.write_idx % s.queue.capacity) _ refl) (
              sym (
                ap (get_elem? (s.pushed ++ (v ∷ []))) (sym inv.count) ∙ get_elem?-last s.pushed v)))
      | inr f ↦
          rw
            (apart s.queue.capacity i s.queue.write_idx inv.room f (omega (arith, inv.behind))
              (ground (arith, free, old, from)))
            (inv.cells i from to ∙ ap (λ l. get_elem? l i) (all-none e) ∙ elsewhere i f)
    ];
    held = inv.held;
    given = inv.given;
  }
    where
      elsewhere :
          (i : ℕ)
          → (i == s.queue.write_idx) ≡ false
          → get_elem? s.pushed i ≡ get_elem? (s.pushed ++ (v ∷ [])) i
      elsewhere i f = elim (Bool-cases (leb s.queue.write_idx i)) [
        | inl g ↦
            get_elem?-past s.pushed i (ground (arith, inv.count))
            ∙ sym (
                get_elem?-past (s.pushed ++ (v ∷ [])) i
                  (ground (arith, inv.count, length-append s.pushed (v ∷ []))))
        | inr g ↦ sym (get_elem?-append_left s.pushed (v ∷ []) i (ground (arith, inv.count)))
      ]

  pub publishes-Inv :
      (v : A)
      → s.made ≡ some v
      → Inv (record s { queue = publish s.queue; made = none; pushed = s.pushed ++ (v ∷ []) })
  unfolding publish
  publishes-Inv v e = record {
    room = inv.room;
    count = omega (arith, inv.count, length-append s.pushed (v ∷ []));
    behind = omega (arith, inv.behind);
    bounded = rw one (rw all_lem at (inv.bounded));
    cells = λ i from to. inv.cells i from to ∙ ap (λ l. get_elem? l i) (all_lem ∙ sym one);
    held = λ x there.
        let here = inv.held x there in
        get_elem?-append_left s.pushed (v ∷ []) s.queue.read_idx
          (get_elem?-within s.pushed _ x here)
        ∙ here;
    given =
        inv.given
        ∙ sym (
            take-append_le s.queue.read_idx s.pushed (v ∷ [])
              (omega (arith, inv.count, inv.behind)));
  }
    where
      all_lem : all s ≡ s.pushed ++ (v ∷ [])
      all_lem = ap (λ o. s.pushed ++ opt_list o) e

      one : (s.pushed ++ (v ∷ [])) ++ [] ≡ s.pushed ++ (v ∷ [])
      one = append-nil (s.pushed ++ (v ∷ []))

  pub takes-Inv :
      (w : ℕ) (v : A) (q : Queue A)
      → s.taken ≡ none
      → s.queue.read_idx ≤ w
      → w ≤ s.queue.write_idx
      → nothing_new s.queue w ≡ false
      → take_out s.queue ≡ (some v, q)
      → Inv (record s { queue = q; taken = some v })
  unfolding nothing_new take_out
  takes-Inv w v q e from_w to_w some_new out =
      subst (λ q. Inv (record s { queue = q; taken = some v })) (ap (λ p. p.1) out)
        (record {
          room = inv.room;
          count = inv.count;
          behind = omega (arith, less);
          bounded = inv.bounded;
          cells = λ i from to. elim (Bool-cases (i == s.queue.read_idx + s.queue.capacity)) [
            | inl f ↦
                let same : i ≡ s.queue.read_idx + s.queue.capacity = ground arith in
                rw same (
                  rw (add-mod_right s.queue.read_idx s.queue.capacity) (
                    rw (eq→== (s.queue.read_idx % s.queue.capacity) _ refl)
                      (sym (get_elem?-past (all s) _ inv.bounded))))
            | inr f ↦
                rw
                  (apart s.queue.capacity i s.queue.read_idx inv.room (ground (arith, from))
                    (ground (arith, to)) (omega (arith, from, inv.room)))
                  (inv.cells i (omega (arith, none_taken, from)) (ground (arith, none_taken, to)))
          ];
          held = λ x there. front_lem ∙ there;
          given = inv.given;
        })
    where
      none_taken : length (opt_list s.taken) ≡ 0
      none_taken = ap (λ o. length (opt_list o)) e

      less : s.queue.read_idx < s.queue.write_idx
      less = ground arith

      front_lem : get_elem? s.pushed s.queue.read_idx ≡ some v
      front_lem =
          sym (
            get_elem?-append_left s.pushed (opt_list s.made) s.queue.read_idx
              (omega (arith, less, inv.count)))
          ∙ sym (
              inv.cells s.queue.read_idx (omega (arith, none_taken))
                (omega (arith, none_taken, inv.room)))
          ∙ ap (λ p. p.0) out

  pub releases-Inv :
      (v : A)
      → s.taken ≡ some v
      → Inv (record s { queue = release s.queue; taken = none; popped = s.popped ++ (v ∷ []) })
  unfolding release
  releases-Inv v e = record {
    room = inv.room;
    count = inv.count;
    behind = omega (arith, one, inv.behind);
    bounded = omega (arith, inv.bounded);
    cells = λ i from to. inv.cells i (omega (arith, one, from)) (omega (arith, one, to));
    held = λ x there. absurd (cc there);
    given =
        ap (λ l. l ++ (v ∷ [])) inv.given
        ∙ sym (take-suc s.pushed s.queue.read_idx v (inv.held v e));
  }
    where
      one : length (opt_list s.taken) ≡ 1
      one = ap (λ o. length (opt_list o)) e
