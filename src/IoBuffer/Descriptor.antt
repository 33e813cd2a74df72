-- ===== src/IoBuffer/Descriptor.antt =====
-- `cut_into_file_descriptor` of src/common/io_buffer.cpp: bytes from the front of a buffer to a file.
use sofa_bolt_cpp.Base.{
  ℕ, zero, suc, ◌+◌, ◌≤◌, ◌<◌, ◌≡◌, refl, ap, subst, sym, ◌∙◌, inl, inr, min, true, Bool-cases,
  Option, none, some, List, [], ◌∷◌, ◌++◌, arith, if◌then◌else◌, ltb, length, take, drop,
  length-append, take-append_le, append_assoc, append-nil,
}
use sofa_bolt_cpp.IoBuffer.{
  Memory, Slice, Buffer, slice_bytes, slices_bytes, slices_length, live, size, to_string,
}
use sofa_bolt_cpp.IoBuffer.Cut.{pop_front}
use sofa_bolt_cpp.IoBuffer.Cut.Full.{NoEmpty, pop_front-NoEmpty}
use sofa_bolt_cpp.IoBuffer.Cut.Slices.{length-slices_bytes}
use sofa_bolt_cpp.IoBuffer.Cut.Contents.{IsAligned, pop_front-TakesFront}

-- The loop that fills the `iovec`s, with `room` of them left: one slice at least, then slices until
-- their length comes up to `size_hint`.
pub gather : ℕ → ℕ → List Slice → ℕ → List Slice
gather zero size_hint ss cur = []
gather (suc room) size_hint [] cur = []
gather (suc room) size_hint (s ∷ ss) cur =
    let rest = gather room size_hint ss (cur + s.count) in
    s ∷ (if ltb (cur + s.count) size_hint then rest else [])

-- What `writev` answers: that it takes up to `n` bytes, EAGAIN, or another error.
pub data Answer : Type 0 where
  ready : (n : ℕ) → Answer
  again broken : Answer

abbrev pub vec_max : ℕ
vec_max = 256

abbrev pub vec : ℕ → Buffer → List Slice
vec size_hint b = gather vec_max size_hint (live b) 0

-- The number of bytes written, which `writev` returns, or `none` for -1.
abbrev pub written : Answer → ℕ → Option ℕ
written (ready n) total = some (min n total)
written again total = none
written broken total = none

-- `cut_into_file_descriptor`: what it returns, the bytes that are written and the buffer. Without a
-- slice it reads behind the end of `_ref`, which is `none`.
pub after_write : Memory → ℕ → Buffer → Option ℕ → Option ℕ × List ℕ × Buffer
unfolding gather
after_write m size_hint b none = (none, [], b)
after_write m size_hint b (some nw) = (
  some nw,
  take nw (slices_bytes m (vec size_hint b)),
  if ltb 0 nw then (pop_front b nw).1 else b,
)

pub cut_from : Memory → ℕ → Answer → Buffer → List Slice → Option (Option ℕ × List ℕ × Buffer)
unfolding gather after_write
cut_from m size_hint answer b [] = none
cut_from m size_hint answer b (s ∷ ss) =
    some (after_write m size_hint b (written answer (slices_length (vec size_hint b))))

pub cut_into_file_descriptor : Memory → ℕ → Answer → Buffer → Option (Option ℕ × List ℕ × Buffer)
unfolding cut_from
cut_into_file_descriptor m size_hint answer b = cut_from m size_hint answer b (live b)

-- The slices that are gathered are the first ones.
gather-prefix :
    (m : Memory) (room hint : ℕ) (ss : List Slice) (cur : ℕ)
    → (rest : List ℕ) × (slices_bytes m ss ≡ slices_bytes m (gather room hint ss cur) ++ rest)
unfolding gather
gather-prefix m zero hint ss cur = (slices_bytes m ss, refl)
gather-prefix m (suc room) hint [] cur = ([], refl)
gather-prefix m (suc room) hint (s ∷ ss) cur =
    let (rest, e) = gather-prefix m room hint ss (cur + s.count) in
    elim (Bool-cases (ltb (cur + s.count) hint)) [
      | inl f ↦
          (rest, rw f (ap (◌++◌ (slice_bytes m s)) e ∙ sym (append_assoc (slice_bytes m s) _ rest)))
      | inr f ↦ (
        slices_bytes m ss,
        rw f (ap (λ bs. bs ++ slices_bytes m ss) (sym (append-nil (slice_bytes m s)))),
      )
    ]

gather-some :
    (room hint : ℕ) (s : Slice) (ss : List Slice) (cur : ℕ)
    → 0 < s.count
    → 0 < slices_length (gather (suc room) hint (s ∷ ss) cur)
unfolding gather
gather-some room hint s ss cur h = omega (arith, h)

-- One call that writes: how many bytes, which, and what is left.
pub record Wrote (m : Memory) (b : Buffer) (nw : ℕ) (sent : List ℕ) (b' : Buffer) : Type 0 where
  pub some_bytes : (0 < nw) × (nw ≤ size b)
  pub sent_front : sent ≡ take nw (to_string m b)
  pub left : to_string m b' ≡ drop nw (to_string m b)
  pub aligned : IsAligned b'
  pub full : NoEmpty (live b')

-- A buffer with bytes has a slice.
pub live-cons :
    (ss : List Slice) → 0 < slices_length ss → (s : Slice) × (ts : List Slice) × (ss ≡ s ∷ ts)
live-cons [] h = absurd (omega (arith, h))
live-cons (s ∷ ss) h = (s, ss, refl)

module _ (m : Memory) (hint : ℕ) (b : Buffer) (a : IsAligned b) (f : NoEmpty (live b))
    (some_left : 0 < size b) where
  total-bounds : (0 < slices_length (vec hint b)) × (slices_length (vec hint b) ≤ size b)
  total-bounds =
      let (s, ss, e) = live-cons (live b) some_left in
      let (rest, prefix) = gather-prefix m vec_max hint (live b) 0 in
      let first : 0 < s.count = (subst NoEmpty e f).0 in
      (
        subst (λ l. 0 < slices_length (gather vec_max hint l 0)) (sym e)
            (gather-some 255 hint s ss 0 first),
        omega (
          arith,
          ap length prefix,
          length-slices_bytes m (live b),
          length-slices_bytes m (vec hint b),
          length-append (slices_bytes m (vec hint b)) rest,
        ),
      )

  after_write-Wrote :
      (nw : ℕ)
      → 0 < nw
      → nw ≤ slices_length (vec hint b)
      → Wrote m b nw
          (take nw (slices_bytes m (vec hint b)))
          (if ltb 0 nw then (pop_front b nw).1 else b)
  after_write-Wrote nw pos le =
      let test : ltb 0 nw ≡ true = ground arith in
      let (rest, prefix) = gather-prefix m vec_max hint (live b) 0 in
      let popped = pop_front-TakesFront m b nw a in
      rw test (record {
        some_bytes = (pos, omega (arith, le, total-bounds.1));
        sent_front = sym (
            ap (take nw) prefix
            ∙ take-append_le nw (slices_bytes m (vec hint b)) rest
                (omega (arith, le, length-slices_bytes m (vec hint b))));
        left = popped.rest;
        aligned = popped.aligned;
        full = pop_front-NoEmpty b nw a f;
      })

  -- A file that takes bytes is given some of the first bytes of the buffer, which lose them.
  pub cut_into_file_descriptor-Wrote :
      (n : ℕ)
      → 0 < n
      → (nw : ℕ) × (sent : List ℕ) × (b' : Buffer) × (cut_into_file_descriptor m hint (ready n) b
          ≡ some (some nw, sent, b'))
        × Wrote m b nw sent b'
  unfolding cut_into_file_descriptor cut_from after_write
  cut_into_file_descriptor-Wrote n pos =
      let (s, ss, e) = live-cons (live b) some_left in
      let total = slices_length (vec hint b) in
      let nw = min n total in
      (
        nw,
        take nw (slices_bytes m (vec hint b)),
        (if ltb 0 nw then (pop_front b nw).1 else b),
        ap (cut_from m hint (ready n) b) e,
        after_write-Wrote nw (omega (arith, total-bounds.0)) (omega arith),
      )

  pub cut_into_file_descriptor-failed :
      (answer : Answer)
      → ((total : ℕ) → written answer total ≡ none)
      → cut_into_file_descriptor m hint answer b ≡ some (none, [], b)
  unfolding cut_into_file_descriptor cut_from after_write
  cut_into_file_descriptor-failed answer h =
      let (s, ss, e) = live-cons (live b) some_left in
      ap (cut_from m hint answer b) e
      ∙ ap (λ w. some (after_write m hint b w)) (h (slices_length (vec hint b)))
