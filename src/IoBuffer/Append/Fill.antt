-- ===== src/IoBuffer/Append/Fill.antt =====
-- Writing behind the used part of a block, as `append` of src/common/io_buffer.cpp does, disturbs no
-- slice and is read back.
use sofa_bolt_cpp.Base.{
  ℕ, zero, suc, ◌+◌, ◌≤◌, ◌<◌, ◌≡◌, refl, ap, ap₂, ◌∙◌, sym, inl, inr, List, [], ◌∷◌, ◌++◌, arith,
  length, ◌==◌, ◌&&◌, Bool-cases, add32, append-nil, append_assoc, eq→==, ne→==,
}
use sofa_bolt_cpp.IoBuffer.{Memory, Slice, free_space, read, slice_bytes, slices_bytes}
use sofa_bolt_cpp.IoBuffer.Append.{write, fill_block, extend_last}
use sofa_bolt_cpp.IoBuffer.Append.Valid.{
  IsValid, Extends, InUse, AllInUse, read-agree, slices_bytes-Extends,
}

-- Bytes that are written are read back, and nothing before them changes.
write_before : (c : ℕ → ℕ) (o : ℕ) (xs : List ℕ) (i : ℕ) → i < o → write c o xs i ≡ c i
write_before c o [] i h = refl
write_before c o (x ∷ xs) i h = ground (arith, write_before c (suc o) xs i)

pub read-write : (c : ℕ → ℕ) (o : ℕ) (xs : List ℕ) → read (write c o xs) o (length xs) ≡ xs
read-write c o [] = refl
read-write c o (x ∷ xs) = ap₂ ◌∷◌ (rw (eq→== o o refl) refl) (
    read-agree (write c (suc o) xs) (write c o (x ∷ xs)) (suc o) (length xs)
      (λ i f g. rw (ne→== i o (λ e. omega arith)) refl)
    ∙ read-write c (suc o) xs)

-- Filling the head of the chain keeps the memory valid, and every slice in use.
pub fill_block-IsValid :
    (m : Memory) (k : ℕ) (bytes : List ℕ)
    → IsValid m
    → k < m.fresh
    → length bytes ≤ free_space (m.blocks k)
    → IsValid (fill_block m k bytes)
unfolding fill_block
fill_block-IsValid m k bytes v known fits = record {
  used = λ j h. ground (arith, v.used j, v.small j, v.used k, v.small k);
  small = λ j h. ground (arith, v.small j, v.small k);
  chained = elim v.chained [
    | inl e ↦ inl e
    | inr (j, e, there, last) ↦ inr (j, e, there, ground arith)
  ];
}

pub fill_block-Extends :
    (m : Memory) (k : ℕ) (bytes : List ℕ)
    → IsValid m
    → k < m.fresh
    → length bytes ≤ free_space (m.blocks k)
    → Extends m (fill_block m k bytes)
unfolding fill_block
fill_block-Extends m k bytes v known fits = record {
  more = omega arith;
  grown = λ j h. ground (arith, v.used k, v.small k);
  kept = λ j i h g. ground (arith, write_before (m.blocks k).cells (m.blocks k).size bytes i);
}

read-add : (c : ℕ → ℕ) (o a b : ℕ) → read c o (a + b) ≡ read c o a ++ read c (o + a) b
read-add c o zero b = ground arith
read-add c o (suc a) b =
    let next : suc a + b ≡ suc (a + b) = omega arith in
    let past : suc o + a ≡ o + suc a = omega arith in
    ap (read c o) next
    ∙ ap (◌∷◌ (c o)) (read-add c (suc o) a b ∙ ap (λ j. read c (suc o) a ++ read c j b) past)

-- The used part, and what is written behind it, read as one range.
read-write_behind :
    (c : ℕ → ℕ) (o n : ℕ) (bytes : List ℕ)
    → read (write c (o + n) bytes) o (n + length bytes) ≡ read c o n ++ bytes
read-write_behind c o n bytes =
    read-add (write c (o + n) bytes) o n (length bytes)
    ∙ ap₂ ◌++◌
        (read-agree c (write c (o + n) bytes) o n (λ i f g. write_before c (o + n) bytes i g))
        (read-write c (o + n) bytes)

-- Where bytes go behind the used part of block `k`, a slice for them is put into the buffer.
module _ (m : Memory) (k : ℕ) (bytes : List ℕ) (v : IsValid m) (known : k < m.fresh)
    (fits : length bytes ≤ free_space (m.blocks k)) where
  abbrev pub filled : Memory
  filled = fill_block m k bytes

  abbrev pub used_part : ℕ
  used_part = (m.blocks k).size

  filled_cells : (filled.blocks k).cells ≡ write (m.blocks k).cells used_part bytes
  unfolding fill_block
  filled_cells = rw (eq→== k k refl) refl

  filled_size : (filled.blocks k).size ≡ used_part + length bytes
  unfolding fill_block
  filled_size = rw (eq→== k k refl) (omega (arith, v.used k known, v.small k known))

  -- The bytes behind a range of block `k` that ends where its used part does.
  range_bytes :
      (o n : ℕ)
      → o + n ≡ used_part
      → read (filled.blocks k).cells o (n + length bytes) ≡ read (m.blocks k).cells o n ++ bytes
  range_bytes o n e =
      ap (λ c. read c o (n + length bytes))
        (filled_cells ∙ ap (λ j. write (m.blocks k).cells j bytes) (sym e))
      ∙ read-write_behind (m.blocks k).cells o n bytes

  abbrev new_slice : Slice
  new_slice = record { block = k; offset = used_part; count = length bytes }

  new_slice_bytes : slices_bytes filled (new_slice ∷ []) ≡ bytes
  new_slice_bytes =
      append-nil (slice_bytes filled new_slice)
      ∙ ap (λ c. read c used_part (length bytes)) filled_cells
      ∙ read-write (m.blocks k).cells used_part bytes

  known_filled : m.fresh ≡ filled.fresh
  unfolding fill_block
  known_filled = refl

  new_slice-InUse : InUse filled new_slice
  new_slice-InUse = (omega (arith, known_filled), omega (arith, filled_size))

  -- A slice that ends where the used part does is lengthened.
  longer_bytes :
      (s : Slice)
      → InUse m s
      → s.block ≡ k
      → s.offset + s.count ≡ used_part
      → (slice_bytes filled (record s { count = add32 s.count (length bytes) })
          ≡ slice_bytes m s ++ bytes)
        × InUse filled (record s { count = add32 s.count (length bytes) })
  longer_bytes s u e f =
      let no_wrap : add32 s.count (length bytes) ≡ s.count + length bytes =
        omega (arith, v.used k known, v.small k known) in
      (
        ap (λ j. read (filled.blocks j).cells s.offset (add32 s.count (length bytes))) e
            ∙ ap (read (filled.blocks k).cells s.offset) no_wrap
            ∙ range_bytes s.offset s.count f
            ∙ ap (λ j. read (m.blocks j).cells s.offset s.count ++ bytes) (sym e),
        (omega (arith, known_filled, u.0), rw e (omega (arith, filled_size))),
      )

  -- Any other slice keeps its bytes.
  other_bytes : (s : Slice) → InUse m s → (slice_bytes filled s ≡ slice_bytes m s) × InUse filled s
  other_bytes s u =
      let (same, used) =
        slices_bytes-Extends (s ∷ []) (fill_block-Extends m k bytes v known fits) (u, tt) in
      (sym (append-nil (slice_bytes filled s)) ∙ same ∙ append-nil (slice_bytes m s), used.0)

  pub extend_last_lem :
      (ss : List Slice)
      → AllInUse m ss
      → (slices_bytes filled (extend_last ss k used_part (length bytes))
          ≡ slices_bytes m ss ++ bytes)
        × AllInUse filled (extend_last ss k used_part (length bytes))
  extend_last_lem [] u = (new_slice_bytes, (new_slice-InUse, tt))
  extend_last_lem (s ∷ []) u =
      elim (Bool-cases (s.block == k && add32 s.offset s.count == used_part)) [
        | inl e ↦
            let here : s.block ≡ k = ground arith in
            let ends : s.offset + s.count ≡ used_part = ground (arith, v.used k, v.small k, u.0) in
            let (joined, used) = longer_bytes s u.0 here ends in
            rw e (
              append-nil _ ∙ joined ∙ ap (λ bs. bs ++ bytes) (sym (append-nil (slice_bytes m s))),
              (used, tt),
            )
        | inr e ↦
            let (same, used) = other_bytes s u.0 in
            rw e (
              ap₂ ◌++◌ (same ∙ sym (append-nil (slice_bytes m s))) new_slice_bytes,
              (used, (new_slice-InUse, tt)),
            )
      ]
  extend_last_lem (s ∷ t ∷ ss) u =
      let (same, kept) = other_bytes s u.0 in
      let (rest, used) = extend_last_lem (t ∷ ss) u.1 in
      (
        ap₂ ◌++◌ same rest ∙ sym (append_assoc (slice_bytes m s) (slices_bytes m (t ∷ ss)) bytes),
        (kept, used),
      )
