-- ===== src/IoBuffer/Cut/Loops.antt =====
-- What each loop of src/common/io_buffer.cpp computes: the count, the slices left, the bytes handed
-- over.
use sofa_bolt_cpp.Base.{
  ℕ, ◌+◌, ◌-◌, ◌≤◌, ◌<◌, min, ◌≡◌, refl, ap, ◌∙◌, sym, List, [], ◌∷◌, inl, inr, arith, length, take,
  drop, ltb, Bool-cases, ltb→lt, ltb→le, drop-of_length_le, take-of_length_le, append-nil,
}
use sofa_bolt_cpp.IoBuffer.{Memory, Slice, slices_bytes, slices_length}
use sofa_bolt_cpp.IoBuffer.Cut.{pop_front_loop, cut_slices_loop, cut_bytes_loop, copy_to_loop}
use sofa_bolt_cpp.IoBuffer.Cut.Slices.{drop-inside, drop-past, take-inside, take-past}

-- What `pop_front_loop` leaves, asked for `want` bytes of the slices `ss`.
pub record Popped (m : Memory) (ss : List Slice) (cur n : ℕ) (r : ℕ × List Slice × ℕ) : Type 0 where
  pub counted : r.0 ≡ cur + min (n - cur) (slices_length ss)
  pub within : r.2 ≤ length r.1
  pub rest : slices_bytes m (drop r.2 r.1) ≡ drop (n - cur) (slices_bytes m ss)

pub pop_front_loop-Popped :
    (m : Memory) (ss : List Slice) (cur n : ℕ)
    → cur ≤ n
    → Popped m ss cur n (pop_front_loop ss cur n)
unfolding pop_front_loop
pop_front_loop-Popped m [] cur n h = record {
  counted = omega arith;
  within = omega arith;
  rest = sym (drop-of_length_le (n - cur) [] (omega arith));
}
pop_front_loop-Popped m (s ∷ ss) cur n h = elim (Bool-cases (ltb cur n)) [
  | inr e ↦ rw e (record {
    counted = ground arith;
    within = omega arith;
    rest =
        let full : n - cur ≡ 0 = ground arith in
        ap (λ j. drop j (slices_bytes m (s ∷ ss))) (sym full);
  })
  | inl e ↦ rw e (elim (Bool-cases (ltb (n - cur) s.count)) [
    | inl f ↦ rw f (record {
      counted = ground arith;
      within = omega arith;
      rest = drop-inside m s ss (n - cur) (ground arith);
    })
    | inr f ↦
        let past : s.count ≤ n - cur = ltb→le (n - cur) s.count f in
        let more : cur < n = ltb→lt cur n e in
        let ih = pop_front_loop-Popped m ss (cur + s.count) n (omega arith) in
        rw f (record {
          counted = omega (arith, ih.counted);
          within = omega (arith, ih.within);
          rest =
              let left : n - (cur + s.count) ≡ n - cur - s.count = omega arith in
              ih.rest
              ∙ ap (λ j. drop j (slices_bytes m ss)) left
              ∙ sym (drop-past m s ss (n - cur) past);
        })
  ])
]

-- `cut(void*, n)` and `copy_to` walk the slices as `pop_front` does.
pub cut_bytes_loop-pop_front_loop :
    (m : Memory) (ss : List Slice) (cur n : ℕ)
    → let (c, out, ts, k) = cut_bytes_loop m ss cur n in (c, ts, k) ≡ pop_front_loop ss cur n
unfolding cut_bytes_loop pop_front_loop
cut_bytes_loop-pop_front_loop m [] cur n = refl
cut_bytes_loop-pop_front_loop m (s ∷ ss) cur n =
    ground (arith, cut_bytes_loop-pop_front_loop m ss (cur + s.count) n)

pub copy_to_loop-cut_bytes_loop :
    (m : Memory) (ss : List Slice) (cur n : ℕ)
    → let (c, out, ts, k) = cut_bytes_loop m ss cur n in copy_to_loop m ss cur n ≡ (c, out)
unfolding cut_bytes_loop copy_to_loop
copy_to_loop-cut_bytes_loop m [] cur n = refl
copy_to_loop-cut_bytes_loop m (s ∷ ss) cur n =
    ground (arith, copy_to_loop-cut_bytes_loop m ss (cur + s.count) n)

pub cut_slices_loop-pop_front_loop :
    (ss : List Slice) (cur n : ℕ)
    → let (c, out, ts, k) = cut_slices_loop ss cur n in (c, ts, k) ≡ pop_front_loop ss cur n
unfolding cut_slices_loop pop_front_loop
cut_slices_loop-pop_front_loop [] cur n = refl
cut_slices_loop-pop_front_loop (s ∷ ss) cur n =
    ground (arith, cut_slices_loop-pop_front_loop ss (cur + s.count) n)

pub take-nothing : (cur n : ℕ) (bs : List ℕ) → n ≤ cur → take (n - cur) bs ≡ []
take-nothing cur n bs h = let none_left : n - cur ≡ 0 = omega arith in ap (λ j. take j bs) none_left

pub cut_bytes_loop-take :
    (m : Memory) (ss : List Slice) (cur n : ℕ)
    → (cut_bytes_loop m ss cur n).1 ≡ take (n - cur) (slices_bytes m ss)
unfolding cut_bytes_loop
cut_bytes_loop-take m [] cur n = sym (take-of_length_le (n - cur) [] (omega arith))
cut_bytes_loop-take m (s ∷ ss) cur n = elim (Bool-cases (ltb cur n)) [
  | inr e ↦ rw e (sym (take-nothing cur n (slices_bytes m (s ∷ ss)) (ltb→le cur n e)))
  | inl e ↦ rw e (elim (Bool-cases (ltb (n - cur) s.count)) [
    | inl f ↦ rw f (sym (take-inside m s ss (n - cur) (ground arith)))
    | inr f ↦
        let left : n - (cur + s.count) ≡ n - cur - s.count = omega arith in
        rw (f, cut_bytes_loop-take m ss (cur + s.count) n, left)
          (sym (take-past m s ss (n - cur) (ltb→le (n - cur) s.count f)))
  ])
]

pub cut_slices_loop-take :
    (m : Memory) (ss : List Slice) (cur n : ℕ)
    → slices_bytes m (cut_slices_loop ss cur n).1 ≡ take (n - cur) (slices_bytes m ss)
unfolding cut_slices_loop
cut_slices_loop-take m [] cur n = sym (take-of_length_le (n - cur) [] (omega arith))
cut_slices_loop-take m (s ∷ ss) cur n = elim (Bool-cases (ltb cur n)) [
  | inr e ↦ rw e (sym (take-nothing cur n (slices_bytes m (s ∷ ss)) (ltb→le cur n e)))
  | inl e ↦ rw e (elim (Bool-cases (ltb (n - cur) s.count)) [
    | inl f ↦ rw f (append-nil _ ∙ sym (take-inside m s ss (n - cur) (ground arith)))
    | inr f ↦
        let left : n - (cur + s.count) ≡ n - cur - s.count = omega arith in
        rw (f, cut_slices_loop-take m ss (cur + s.count) n, left)
          (sym (take-past m s ss (n - cur) (ltb→le (n - cur) s.count f)))
  ])
]
