-- ===== src/IoBuffer/Append/Valid.antt =====
-- The memory that the appending operations of src/common/io_buffer.cpp keep: what a valid memory is,
-- what a buffer's slices may refer to, and what a step may change.
use sofa_bolt_cpp.Base.{
  ℕ, zero, suc, ◌+◌, ◌≤◌, ◌<◌, ◌≡◌, refl, ap₂, ◌∙◌, ◌⊎◌, none, some, List, [], ◌∷◌, ◌++◌, arith,
}
use sofa_bolt_cpp.IoBuffer.{Memory, Slice, read, slices_bytes}

-- The used part of every block lies inside the block, and the chain has at most one block.
pub record IsValid (m : Memory) : Type 0 where
  pub used : (k : ℕ) → k < m.fresh → (m.blocks k).size ≤ (m.blocks k).capacity
  pub small : (k : ℕ) → k < m.fresh → (m.blocks k).capacity ≤ 8168
  pub chained :
      (m.chain ≡ none) ⊎ ((k : ℕ) × (m.chain ≡ some k) × (k < m.fresh) × ((m.blocks k).next ≡ none))

-- A slice lies in the used part of a block that exists.
abbrev pub InUse : Memory → Slice → Type 0
InUse m s = (s.block < m.fresh) × (s.offset + s.count ≤ (m.blocks s.block).size)

abbrev pub AllInUse : Memory → List Slice → Type 0
AllInUse m [] = Unit {0}
AllInUse m (s ∷ ss) = InUse m s × AllInUse m ss

-- What a step to the memory `m'` may do: blocks keep their used parts, and grow.
pub record Extends (m m' : Memory) : Type 0 where
  pub more : m.fresh ≤ m'.fresh
  pub grown : (k : ℕ) → k < m.fresh → (m.blocks k).size ≤ (m'.blocks k).size
  pub kept :
      (k i : ℕ) → k < m.fresh → i < (m.blocks k).size → (m'.blocks k).cells i ≡ (m.blocks k).cells i

pub Extends-refl : (m : Memory) → Extends m m
Extends-refl m = record { more = omega arith; grown = λ k h. omega arith; kept = λ k i h g. refl }

pub Extends-trans : {m m' m'' : Memory} → Extends m m' → Extends m' m'' → Extends m m''
Extends-trans e f = record {
  more = omega (arith, e.more, f.more);
  grown = λ k h. omega (arith, e.grown k h, f.grown k (omega (arith, e.more)));
  kept =
      λ k i h g. f.kept k i (omega (arith, e.more)) (omega (arith, e.grown k h)) ∙ e.kept k i h g;
}

pub read-agree :
    (c d : ℕ → ℕ) (o n : ℕ) → ((i : ℕ) → o ≤ i → i < o + n → d i ≡ c i) → read d o n ≡ read c o n
read-agree c d o zero h = refl
read-agree c d o (suc n) h =
    ap₂ ◌∷◌ (h o (omega arith) (omega arith))
      (read-agree c d (suc o) n (λ i f g. h i (omega arith) (omega arith)))

-- Slices in use keep their bytes when the memory is extended.
pub slices_bytes-Extends :
    {m m' : Memory} (ss : List Slice)
    → Extends m m'
    → AllInUse m ss
    → (slices_bytes m' ss ≡ slices_bytes m ss) × AllInUse m' ss
slices_bytes-Extends [] e u = (refl, tt)
slices_bytes-Extends {m} {m'} (s ∷ ss) e u =
    let (same, used) = slices_bytes-Extends ss e u.1 in
    let known = u.0.0 in
    let inside = u.0.1 in
    (
      ap₂ ◌++◌
          (read-agree (m.blocks s.block).cells (m'.blocks s.block).cells s.offset s.count
            (λ i f g. e.kept s.block i known (omega arith)))
          same,
      ((omega (arith, e.more), omega (arith, e.grown s.block known)), used),
    )
