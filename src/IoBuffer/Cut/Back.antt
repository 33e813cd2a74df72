-- ===== src/IoBuffer/Cut/Back.antt =====
-- The loop of `IOBuffer::pop_back` in src/common/io_buffer.cpp, which runs down from the last slice.
use sofa_bolt_cpp.Base.{
  ℕ, ◌+◌, ◌-◌, ◌≤◌, ◌<◌, min, ◌≡◌, refl, ap, ◌∙◌, sym, List, [], ◌∷◌, ◌++◌, inl, inr, arith, length,
  take, ltb, Bool-cases, ltb→lt, ltb→le, take-append_le, take-append_ge, take-of_length_le,
  append-nil,
}
use sofa_bolt_cpp.IoBuffer.{Memory, Slice, slice_bytes, slices_bytes, slices_length}
use sofa_bolt_cpp.IoBuffer.Cut.{keep_bytes, pop_back_loop}
use mathlib.Core.List.{reverse, reverse-cons}
use sofa_bolt_cpp.IoBuffer.Cut.Slices.{length-slices_bytes, slices_bytes-append, take-read}

slices_length-append :
    (ss ts : List Slice) → slices_length (ss ++ ts) ≡ slices_length ss + slices_length ts
slices_length-append [] ts = omega arith
slices_length-append (s ∷ ss) ts = omega (arith, slices_length-append ss ts)

pub slices_length-reverse : (ss : List Slice) → slices_length (reverse ss) ≡ slices_length ss
slices_length-reverse [] = refl
slices_length-reverse (s ∷ ss) =
    ap slices_length (reverse-cons s ss)
    ∙ omega (arith, slices_length-append (reverse ss) (s ∷ []), slices_length-reverse ss)

-- The bytes of slices that stand last first, with one more slice at the end.
module _ (m : Memory) (s : Slice) (ss : List Slice) where
  back_bytes : slices_bytes m (reverse (s ∷ ss)) ≡ slices_bytes m (reverse ss) ++ slice_bytes m s
  back_bytes =
      ap (slices_bytes m) (reverse-cons s ss)
      ∙ slices_bytes-append m (reverse ss) (s ∷ [])
      ∙ ap (◌++◌ (slices_bytes m (reverse ss))) (append-nil (slice_bytes m s))

  length_back : length (slices_bytes m (reverse ss)) ≡ slices_length ss
  length_back = length-slices_bytes m (reverse ss) ∙ slices_length-reverse ss

-- Cutting `w` bytes off the end, inside the last slice and past it.
module _ (m : Memory) (s : Slice) (ss : List Slice) (w : ℕ) where
  front : List ℕ
  front = slices_bytes m (reverse ss)

  back_inside :
      w ≤ s.count
      → slices_bytes m (reverse (keep_bytes s (s.count - w) ∷ ss))
        ≡ take (slices_length (s ∷ ss) - w) (slices_bytes m (reverse (s ∷ ss)))
  unfolding front
  back_inside h =
      let left : slices_length (s ∷ ss) - w - length front ≡ s.count - w =
        omega (arith, length_back m s ss) in
      back_bytes m (keep_bytes s (s.count - w)) ss
      ∙ ap (◌++◌ front)
          (sym (take-read (m.blocks s.block).cells s.offset s.count (s.count - w) (omega arith)))
      ∙ ap (λ j. front ++ take j (slice_bytes m s)) (sym left)
      ∙ sym (
          take-append_ge (slices_length (s ∷ ss) - w) front (slice_bytes m s)
            (omega (arith, length_back m s ss)))
      ∙ ap (take (slices_length (s ∷ ss) - w)) (sym (back_bytes m s ss))

  back_past :
      s.count ≤ w
      → take (slices_length (s ∷ ss) - w) (slices_bytes m (reverse (s ∷ ss)))
        ≡ take (slices_length ss - (w - s.count)) (slices_bytes m (reverse ss))
  unfolding front
  back_past h =
      let left : slices_length (s ∷ ss) - w ≡ slices_length ss - (w - s.count) = omega arith in
      ap (take (slices_length (s ∷ ss) - w)) (back_bytes m s ss)
      ∙ take-append_le (slices_length (s ∷ ss) - w) front (slice_bytes m s)
          (omega (arith, length_back m s ss))
      ∙ ap (λ j. take j front) left

-- What `pop_back_loop` leaves of the slices `ss`, the last of which comes first.
pub record PoppedBack (m : Memory) (ss : List Slice) (cur n : ℕ) (r : ℕ × List Slice) : Type 0 where
  pub counted : r.0 ≡ cur + min (n - cur) (slices_length ss)
  pub rest :
      slices_bytes m (reverse r.1)
      ≡ take (slices_length ss - (n - cur)) (slices_bytes m (reverse ss))

pub pop_back_loop-PoppedBack :
    (m : Memory) (ss : List Slice) (cur n : ℕ)
    → cur ≤ n
    → PoppedBack m ss cur n (pop_back_loop ss cur n)
unfolding pop_back_loop
pop_back_loop-PoppedBack m [] cur n h = record {
  counted = omega arith;
  rest = sym (take-of_length_le (0 - (n - cur)) [] (omega arith));
}
pop_back_loop-PoppedBack m (s ∷ ss) cur n h = elim (Bool-cases (ltb cur n)) [
  | inr e ↦ rw e (record {
    counted = ground arith;
    rest = sym (
        take-of_length_le _ _ (
          omega (
            arith,
            ltb→le cur n e,
            length-slices_bytes m (reverse (s ∷ ss)),
            slices_length-reverse (s ∷ ss),
          )));
  })
  | inl e ↦ rw e (elim (Bool-cases (ltb (n - cur) s.count)) [
    | inl f ↦
        rw f (record { counted = ground arith; rest = back_inside m s ss (n - cur) (ground arith) })
    | inr f ↦
        let past : s.count ≤ n - cur = ltb→le (n - cur) s.count f in
        let more : cur < n = ltb→lt cur n e in
        let ih = pop_back_loop-PoppedBack m ss (cur + s.count) n (omega arith) in
        rw f (record {
          counted = omega (arith, ih.counted);
          rest =
              let left : n - (cur + s.count) ≡ n - cur - s.count = omega arith in
              ih.rest
              ∙ ap (λ j. take (slices_length ss - j) (slices_bytes m (reverse ss))) left
              ∙ sym (back_past m s ss (n - cur) past);
        })
  ])
]
