-- ===== src/MpscQueue/Steps.antt =====
-- Each access to the queue of include/common/lockfree_queue.h keeps what stays true of it.
use sofa_bolt_cpp.Base.{
  ℕ, suc, ◌%◌, ◌≤◌, ◌<◌, ◌≡◌, ◌≢◌, refl, ap, ap₂, ◌∙◌, sym, ◌⊎◌, inl, inr, true, false, Bool-cases,
  none, some, [], ◌∷◌, ◌++◌, arith, leb, ◌==◌, eq→==, ne→==, if◌then◌else◌,
}
use sofa_bolt_cpp.MpscQueue.{full, put_cell, copy_front, advance, World}
use sofa_bolt_cpp.MpscQueue.Inv.{cells-apart, first-agree, Inv, copy_front_lem}

pub reserves-Inv :
    {A : Type 0} (s : World A) (r : ℕ) (v : A)
    → r ≤ s.queue.read_idx
    → full s.queue r s.queue.write_prepare_idx ≡ false
    → Inv s
    → Inv (record s {
      queue = record (s.queue) { write_prepare_idx = suc s.queue.write_prepare_idx };
      value = λ i. if i == s.queue.write_prepare_idx then v else s.value i;
    })
unfolding full
reserves-Inv s r v old free inv = record {
  room = inv.room;
  behind = inv.behind;
  within = omega (arith, inv.within);
  bounded = ground (arith, free, old);
  present = λ i low high done. elim (Bool-cases (i == s.queue.write_prepare_idx)) [
    | inl f ↦ absurd (not_yet i (ground arith) done)
    | inr f ↦ rw f (inv.present i low (ground arith) done)
  ];
  unborn = λ i h. inv.unborn i (omega arith);
  held = λ x e.
      let (same, less) = inv.held x e in
      (same ∙ sym (old_value s.queue.read_idx (omega (arith, less, inv.within))), less);
  given =
      inv.given
      ∙ first-agree s.value _ s.queue.read_idx
          (λ i l. sym (old_value i (omega (arith, l, inv.behind, inv.within))));
}
  where
    old_value :
        (i : ℕ)
        → i < s.queue.write_prepare_idx
        → (if i == s.queue.write_prepare_idx then v else s.value i) ≡ s.value i
    old_value i l = rw (ne→== i s.queue.write_prepare_idx (λ e. omega (arith, e, l))) refl

    not_yet :
        (i : ℕ) → s.queue.write_prepare_idx ≤ i → (i < s.queue.write_idx) ⊎ (s.stored i ≡ true) → ⊥
    not_yet i h (inl l) = omega (arith, inv.within)
    not_yet i h (inr t) = cc (inv.unborn i h, t)

pub stores-Inv :
    {A : Type 0} (s : World A) (w : ℕ)
    → s.queue.write_idx ≤ w
    → w < s.queue.write_prepare_idx
    → Inv s
    → Inv (record s {
      queue = put_cell s.queue w (s.value w);
      stored = λ i. if i == w then true else s.stored i;
    })
unfolding put_cell
stores-Inv s w low high inv = record {
  room = inv.room;
  behind = inv.behind;
  within = inv.within;
  bounded = inv.bounded;
  present = λ i from to done. elim (Bool-cases (i == w)) [
    | inl f ↦
        let same : i ≡ w = ground arith in
        rw
          (eq→== (i % s.queue.capacity) (w % s.queue.capacity)
            (ap (λ x. x % s.queue.capacity) same))
          (ap s.value (sym same))
    | inr f ↦
        rw (ne→== (i % s.queue.capacity) (w % s.queue.capacity) (apart i f from to))
          (inv.present i from to (before i f done))
  ];
  unborn = λ i h. rw (ne→== i w (λ e. omega (arith, e, h, high))) (inv.unborn i h);
  held = inv.held;
  given = inv.given;
}
  where
    apart :
        (i : ℕ)
        → (i == w) ≡ false
        → s.queue.read_idx ≤ i
        → i < s.queue.write_prepare_idx
        → (i % s.queue.capacity) ≢ (w % s.queue.capacity)
    apart i f from to = elim (Bool-cases (leb i w)) [
      | inl g ↦
          cells-apart s.queue.capacity i w inv.room (ground arith) (omega (arith, inv.bounded))
      | inr g ↦ λ e.
          cells-apart s.queue.capacity w i inv.room (ground arith)
            (omega (arith, inv.bounded, inv.behind)) (sym e)
    ]

    before :
        (i : ℕ)
        → (i == w) ≡ false
        → (i < s.queue.write_idx) ⊎ ((if i == w then true else s.stored i) ≡ true)
        → (i < s.queue.write_idx) ⊎ (s.stored i ≡ true)
    before i f (inl h) = inl h
    before i f (inr h) = inr (rw f at h)

pub commits-Inv :
    {A : Type 0} (s : World A)
    → s.stored s.queue.write_idx ≡ true
    → Inv s
    → Inv (record s { queue = record (s.queue) { write_idx = suc s.queue.write_idx } })
commits-Inv s there inv = record {
  room = inv.room;
  behind = omega (arith, inv.behind);
  within = elim (Bool-cases (leb s.queue.write_prepare_idx s.queue.write_idx)) [
    | inl f ↦ absurd (cc (inv.unborn s.queue.write_idx (ground arith), there))
    | inr f ↦ ground arith
  ];
  bounded = inv.bounded;
  present = λ i low high done. elim (Bool-cases (i == s.queue.write_idx)) [
    | inl f ↦
        let same : i ≡ s.queue.write_idx = ground arith in
        inv.present i low high (inr (ap s.stored same ∙ there))
    | inr f ↦ inv.present i low high (earlier i f done)
  ];
  unborn = inv.unborn;
  held = λ x e. let (same, less) = inv.held x e in (same, omega (arith, less));
  given = inv.given;
}
  where
    earlier :
        (i : ℕ)
        → (i == s.queue.write_idx) ≡ false
        → (i < suc s.queue.write_idx) ⊎ (s.stored i ≡ true)
        → (i < s.queue.write_idx) ⊎ (s.stored i ≡ true)
    earlier i f (inl h) = inl (ground arith)
    earlier i f (inr h) = inr h

pub copies-Inv :
    {A : Type 0} (s : World A) (v : A)
    → copy_front s.queue ≡ some v
    → Inv s
    → Inv (record s { copied = some v })
copies-Inv {A = A} s v found inv = record {
  room = inv.room;
  behind = inv.behind;
  within = inv.within;
  bounded = inv.bounded;
  present = inv.present;
  unborn = inv.unborn;
  held = λ x e.
      let (apart, copy) = copy_front_lem s.queue v found in
      let less : s.queue.read_idx < s.queue.write_idx = ground (arith, inv.behind) in
      let there =
        inv.present s.queue.read_idx (omega arith) (omega (arith, less, inv.within)) (inl less) in
      (some_injective (sym e ∙ sym copy) ∙ there, less);
  given = inv.given;
}
  where
    some_injective : {x y : A} → some x ≡ some y → x ≡ y
    some_injective {x = x} e = ap (λ o. elim o [ none ↦ x | some z ↦ z ]) e

pub advances-Inv :
    {A : Type 0} (s : World A) (v : A)
    → s.copied ≡ some v
    → Inv s
    → Inv (record s { queue = advance s.queue; copied = none; popped = s.popped ++ (v ∷ []) })
unfolding advance
advances-Inv s v there inv =
    let (same, less) = inv.held v there in
    record {
      room = inv.room;
      behind = omega (arith, less);
      within = inv.within;
      bounded = omega (arith, inv.bounded);
      present = λ i low high done. inv.present i (omega arith) high done;
      unborn = inv.unborn;
      held = λ x e. absurd (cc e);
      given = ap₂ (λ xs x. xs ++ (x ∷ [])) inv.given same;
    }
