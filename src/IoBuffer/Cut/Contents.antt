-- ===== src/IoBuffer/Cut/Contents.antt =====
-- What the cutting operations of src/common/io_buffer.cpp do to the bytes of a buffer.
use sofa_bolt_cpp.Base.{
  drop-min, take-min, ℕ, ◌+◌, ◌-◌, ◌≤◌, min, ◌≡◌, refl, ap, ◌∙◌, sym, List, ◌++◌, inl, inr, arith,
  length, take, drop, ltb, ◌==◌, Bool-cases, length-append, length-take, drop-append_le,
  drop-append_ge, drop-of_length_le, append-nil,
}
use sofa_bolt_cpp.IoBuffer.{
  Memory, Slice, Buffer, slices_bytes, slices_length, live, size, slice_num, to_string, try_release,
}
use sofa_bolt_cpp.IoBuffer.Cut.{
  advance, pop_front_loop, pop_front, pop_back_loop, pop_back, cut_slices_loop, cut_slices,
  cut_bytes, cut_string, copy_to,
}
use sofa_bolt_cpp.IoBuffer.Cut.Slices.{slices_bytes-append, sub-zero, size-length}
use sofa_bolt_cpp.IoBuffer.Cut.Loops.{
  Popped, pop_front_loop-Popped, cut_bytes_loop-pop_front_loop, copy_to_loop-cut_bytes_loop,
  cut_slices_loop-pop_front_loop, cut_bytes_loop-take, cut_slices_loop-take,
}
use mathlib.Core.List.{reverse, reverse-reverse}
use sofa_bolt_cpp.IoBuffer.Cut.Back.{pop_back_loop-PoppedBack, slices_length-reverse}

-- `_ref_offset` never passes the end of `_ref`.
abbrev pub IsAligned : Buffer → Type 0
IsAligned b = b.ref_offset ≤ length b.ref

pub live-advance :
    (b : Buffer) (ss : List Slice) (k : ℕ) → IsAligned b → live (advance b ss k) ≡ drop k ss
live-advance b ss k h =
    let front : length (take b.ref_offset b.ref) ≡ b.ref_offset =
      omega (arith, length-take b.ref_offset b.ref) in
    drop-append_ge (b.ref_offset + k) (take b.ref_offset b.ref) ss (omega arith)
    ∙ ap (λ j. drop j ss) (omega arith)

-- Moving the slices to the front changes no byte, and keeps the offset inside.
pub try_release-live : (b : Buffer) → live (try_release b) ≡ live b
unfolding try_release
try_release-live b = elim (Bool-cases (ltb 4 b.ref_offset)) [
  | inr e ↦ rw e refl
  | inl e ↦ rw e (elim (Bool-cases (slice_num b == 0)) [
    | inr f ↦ rw f refl
    | inl f ↦ rw f (sym (drop-of_length_le b.ref_offset b.ref (ground arith)))
  ])
]

try_release-IsAligned : (b : Buffer) → IsAligned b → IsAligned (try_release b)
unfolding try_release
try_release-IsAligned b h = ground arith

-- What an operation that takes `n` bytes off the front of `b` leaves in `b'`.
pub record TakesFront (m : Memory) (b : Buffer) (n cur : ℕ) (b' : Buffer) : Type 0 where
  pub counted : cur ≡ min n (size b)
  pub aligned : IsAligned b'
  pub rest : to_string m b' ≡ drop n (to_string m b)

-- `pop_front` drops the first `n` bytes, or all there are, and returns how many.
pub pop_front-TakesFront :
    (m : Memory) (b : Buffer) (n : ℕ)
    → IsAligned b
    → TakesFront m b n (pop_front b n).0 (pop_front b n).1
unfolding pop_front
pop_front-TakesFront m b n h = record {
  counted = omega (arith, done.counted);
  aligned = try_release-IsAligned (advance b ss k) (
      omega (
        arith,
        done.within,
        length-append (take b.ref_offset b.ref) ss,
        length-take b.ref_offset b.ref,
      ));
  rest =
      ap (slices_bytes m) (try_release-live (advance b ss k) ∙ live-advance b ss k h)
      ∙ done.rest
      ∙ ap (λ j. drop j (to_string m b)) (sub-zero n);
}
  where
    done : Popped m (live b) 0 n (pop_front_loop (live b) 0 n)
    done = pop_front_loop-Popped m (live b) 0 n (omega arith)

    ss : List Slice
    ss = (pop_front_loop (live b) 0 n).1

    k : ℕ
    k = (pop_front_loop (live b) 0 n).2

-- `cut(void*, n)` hands over the first `n` bytes, or all there are, and takes them off.
pub cut_bytes-TakesFront :
    (m : Memory) (b : Buffer) (n : ℕ)
    → IsAligned b
    → let (cur, out, b') = cut_bytes m b n in
      TakesFront m b n cur b' × (out ≡ take n (to_string m b))
unfolding cut_bytes pop_front
cut_bytes-TakesFront m b n h = (
  rw (← cut_bytes_loop-pop_front_loop m (live b) 0 n) at (pop_front-TakesFront m b n h),
  cut_bytes_loop-take m (live b) 0 n ∙ ap (λ j. take j (to_string m b)) (sub-zero n),
)

-- `copy_to` hands over the same bytes and the same count as `cut(void*, n)`.
pub copy_to_lem :
    (m : Memory) (b : Buffer) (n : ℕ)
    → IsAligned b
    → let (cur, out) = copy_to m b n in (cur ≡ min n (size b)) × (out ≡ take n (to_string m b))
unfolding copy_to cut_bytes
copy_to_lem m b n h =
    rw (copy_to_loop-cut_bytes_loop m (live b) 0 n)
      ((cut_bytes-TakesFront m b n h).0.counted, (cut_bytes-TakesFront m b n h).1)

-- Slices put behind a buffer put their bytes behind its bytes.
pub to_string-append :
    (m : Memory) (b : Buffer) (ss : List Slice)
    → IsAligned b
    → to_string m (record b { ref = b.ref ++ ss }) ≡ to_string m b ++ slices_bytes m ss
to_string-append m b ss h =
    ap (slices_bytes m) (drop-append_le b.ref_offset b.ref ss h) ∙ slices_bytes-append m (live b) ss

-- `cut(IOBuffer*, n)` moves the first `n` bytes, or all there are, to the end of `out`.
pub cut_slices-TakesFront :
    (m : Memory) (b out : Buffer) (n : ℕ)
    → IsAligned b
    → IsAligned out
    → let (cur, out', b') = cut_slices b out n in
      TakesFront m b n cur b'
      × (to_string m out' ≡ to_string m out ++ take n (to_string m b))
      × IsAligned out'
unfolding cut_slices pop_front
cut_slices-TakesFront m b out n h g = (
  rw (← cut_slices_loop-pop_front_loop (live b) 0 n) at (pop_front-TakesFront m b n h),
  to_string-append m out moved g
      ∙ ap (◌++◌ (to_string m out))
          (cut_slices_loop-take m (live b) 0 n ∙ ap (λ j. take j (to_string m b)) (sub-zero n)),
  omega (arith, length-append out.ref moved),
)
  where
    moved : List Slice
    moved = (cut_slices_loop (live b) 0 n).1

-- `cut(std::string&, n)` appends the first `n` bytes, or all there are, to the string.
pub cut_string-TakesFront :
    (m : Memory) (b : Buffer) (out : List ℕ) (n : ℕ)
    → IsAligned b
    → let (cur, out', b') = cut_string m b out n in
      TakesFront m b n cur b' × (out' ≡ out ++ take n (to_string m b))
unfolding cut_string
cut_string-TakesFront m b out n h = elim (Bool-cases (n == 0)) [
  | inl e ↦
      let nothing : n ≡ 0 = ground arith in
      rw e (
        record {
          counted = omega (arith, nothing);
          aligned = h;
          rest = ap (λ j. drop j (to_string m b)) (sym nothing);
        },
        sym (ap (λ j. out ++ take j (to_string m b)) nothing ∙ append-nil out),
      )
  | inr e ↦
      let done = cut_bytes-TakesFront m b (min n (size b)) h in
      let short : min n (size b) ≡ min n (length (to_string m b)) =
        omega (arith, size-length m b) in
      rw e (
        record {
          counted = omega (arith, done.0.counted);
          aligned = done.0.aligned;
          rest = done.0.rest ∙ ap (λ j. drop j (to_string m b)) short ∙ drop-min n (to_string m b);
        },
        ap (◌++◌ out)
            (done.1 ∙ ap (λ j. take j (to_string m b)) short ∙ take-min n (to_string m b)),
      )
]

-- `pop_back` drops the last `n` bytes, or all there are, and returns how many.
pub pop_back_lem :
    (m : Memory) (b : Buffer) (n : ℕ)
    → IsAligned b
    → let (cur, b') = pop_back b n in
      (cur ≡ min n (size b)) × (to_string m b' ≡ take (size b - n) (to_string m b)) × IsAligned b'
unfolding pop_back
pop_back_lem m b n h =
    let done = pop_back_loop-PoppedBack m (reverse (live b)) 0 n (omega arith) in
    let total = slices_length-reverse (live b) in
    let front : length (take b.ref_offset b.ref) ≡ b.ref_offset =
      omega (arith, length-take b.ref_offset b.ref) in
    let none_before : b.ref_offset - length (take b.ref_offset b.ref) ≡ 0 = omega arith in
    let left : slices_length (reverse (live b)) - (n - 0) ≡ size b - n = omega (arith, total) in
    let kept = reverse (pop_back_loop (reverse (live b)) 0 n).1 in
    (
      omega (arith, done.counted, total),
      ap (slices_bytes m) (
            drop-append_ge b.ref_offset (take b.ref_offset b.ref) kept (omega arith)
            ∙ ap (λ j. drop j kept) none_before)
          ∙ done.rest
          ∙ ap (λ j. take j (slices_bytes m (reverse (reverse (live b))))) left
          ∙ ap (λ ss. take (size b - n) (slices_bytes m ss)) (reverse-reverse (live b)),
      omega (arith, length-append (take b.ref_offset b.ref) kept),
    )
