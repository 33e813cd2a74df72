-- ===== src/IoBuffer/Cut/Slices.antt =====
-- Laws of slices: cutting their bytes at a place inside the first one, or past it.
use sofa_bolt_cpp.Base.{
  ℕ, zero, suc, ◌+◌, ◌-◌, ◌≤◌, ◌≡◌, refl, ap, ◌∙◌, sym, List, [], ◌∷◌, ◌++◌, arith, length, take,
  drop, length-append, drop-append_le, drop-append_ge, take-append_le, take-append_ge, append_assoc,
}
use sofa_bolt_cpp.IoBuffer.{
  Memory, Slice, Buffer, read, slice_bytes, slices_bytes, slices_length, live, size, to_string,
}
use sofa_bolt_cpp.IoBuffer.Cut.{skip_bytes}

pub length-read : (c : ℕ → ℕ) (o n : ℕ) → length (read c o n) ≡ n
length-read c o zero = refl
length-read c o (suc n) = ap suc (length-read c (suc o) n)

pub drop-read : (c : ℕ → ℕ) (o n k : ℕ) → k ≤ n → drop k (read c o n) ≡ read c (o + k) (n - k)
drop-read c o n zero h = ground arith
drop-read c o zero (suc k) h = absurd (omega arith)
drop-read c o (suc n) (suc k) h = ground (arith, drop-read c (suc o) n k)

pub take-read : (c : ℕ → ℕ) (o n k : ℕ) → k ≤ n → take k (read c o n) ≡ read c o k
take-read c o n zero h = refl
take-read c o zero (suc k) h = absurd (omega arith)
take-read c o (suc n) (suc k) h = ap (◌∷◌ (c o)) (take-read c (suc o) n k (omega arith))

pub length-slices_bytes :
    (m : Memory) (ss : List Slice) → length (slices_bytes m ss) ≡ slices_length ss
length-slices_bytes m [] = refl
length-slices_bytes m (s ∷ ss) = omega (
  arith,
  length-append (slice_bytes m s) (slices_bytes m ss),
  length-read (m.blocks s.block).cells s.offset s.count,
  length-slices_bytes m ss,
)

pub slices_bytes-append :
    (m : Memory) (ss ts : List Slice)
    → slices_bytes m (ss ++ ts) ≡ slices_bytes m ss ++ slices_bytes m ts
slices_bytes-append m [] ts = refl
slices_bytes-append m (s ∷ ss) ts = simp (slices_bytes-append m ss ts, append_assoc)

pub sub-zero : (n : ℕ) → n - 0 ≡ n
sub-zero n = omega arith

-- Cutting inside the first slice, and past it.
module _ (m : Memory) (s : Slice) (ss : List Slice) (k : ℕ) where
  pub length-slice_bytes : length (slice_bytes m s) ≡ s.count
  length-slice_bytes = length-read (m.blocks s.block).cells s.offset s.count

  pub drop-inside :
      k ≤ s.count → slices_bytes m (skip_bytes s k ∷ ss) ≡ drop k (slices_bytes m (s ∷ ss))
  drop-inside h = sym (
      drop-append_le k (slice_bytes m s) (slices_bytes m ss) (omega (arith, length-slice_bytes))
      ∙ ap (λ bs. bs ++ slices_bytes m ss)
          (drop-read (m.blocks s.block).cells s.offset s.count k h))

  pub drop-past :
      s.count ≤ k → drop k (slices_bytes m (s ∷ ss)) ≡ drop (k - s.count) (slices_bytes m ss)
  drop-past h =
      drop-append_ge k (slice_bytes m s) (slices_bytes m ss) (omega (arith, length-slice_bytes))
      ∙ ap (λ j. drop (k - j) (slices_bytes m ss)) length-slice_bytes

  pub take-inside :
      k ≤ s.count → take k (slices_bytes m (s ∷ ss)) ≡ read (m.blocks s.block).cells s.offset k
  take-inside h =
      take-append_le k (slice_bytes m s) (slices_bytes m ss) (omega (arith, length-slice_bytes))
      ∙ take-read (m.blocks s.block).cells s.offset s.count k h

  pub take-past :
      s.count ≤ k
      → take k (slices_bytes m (s ∷ ss)) ≡ slice_bytes m s ++ take (k - s.count) (slices_bytes m ss)
  take-past h =
      take-append_ge k (slice_bytes m s) (slices_bytes m ss) (omega (arith, length-slice_bytes))
      ∙ ap (λ j. slice_bytes m s ++ take (k - j) (slices_bytes m ss)) length-slice_bytes

pub size-length : (m : Memory) (b : Buffer) → size b ≡ length (to_string m b)
size-length m b = sym (length-slices_bytes m (live b))
