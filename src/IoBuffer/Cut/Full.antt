-- ===== src/IoBuffer/Cut/Full.antt =====
-- `pop_front` of src/common/io_buffer.cpp on a buffer without empty slices.
use sofa_bolt_cpp.Base.{
  ℕ, ◌+◌, ◌-◌, ◌<◌, ◌∙◌, inl, inr, Bool-cases, List, [], ◌∷◌, arith, ltb, drop,
}
use sofa_bolt_cpp.IoBuffer.{Slice, Buffer, live}
use sofa_bolt_cpp.IoBuffer.Cut.{advance, pop_front_loop, pop_front}
use sofa_bolt_cpp.IoBuffer.Cut.Contents.{IsAligned, try_release-live, live-advance}

-- What is left when none of the slices of a buffer is empty.
abbrev pub NoEmpty : List Slice → Type 0
NoEmpty [] = Unit {0}
NoEmpty (s ∷ ss) = (0 < s.count) × NoEmpty ss

pop_front_loop-NoEmpty :
    (ss : List Slice) (cur n : ℕ)
    → NoEmpty ss
    → NoEmpty (drop (pop_front_loop ss cur n).2 (pop_front_loop ss cur n).1)
unfolding pop_front_loop
pop_front_loop-NoEmpty [] cur n h = tt
pop_front_loop-NoEmpty (s ∷ ss) cur n h = elim (Bool-cases (ltb cur n)) [
  | inr e ↦ rw e h
  | inl e ↦ elim (Bool-cases (ltb (n - cur) s.count)) [
    | inl f ↦ rw (e, f) (ground arith, h.1)
    | inr f ↦ rw (e, f) (pop_front_loop-NoEmpty ss (cur + s.count) n h.1)
  ]
]

pub pop_front-NoEmpty :
    (b : Buffer) (n : ℕ) → IsAligned b → NoEmpty (live b) → NoEmpty (live (pop_front b n).1)
unfolding pop_front
pop_front-NoEmpty b n a h =
    let (cur, ss, k) = pop_front_loop (live b) 0 n in
    rw (try_release-live (advance b ss k) ∙ live-advance b ss k a)
      (pop_front_loop-NoEmpty (live b) 0 n h)
