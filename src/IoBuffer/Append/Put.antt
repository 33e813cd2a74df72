-- ===== src/IoBuffer/Append/Put.antt =====
-- Putting a slice into a buffer of src/common/io_buffer.cpp for bytes that went behind the used part
-- of a block.
use sofa_bolt_cpp.Base.{
  ℕ, zero, suc, ◌≤◌, ◌<◌, ◌≡◌, refl, ap, ap₂, ◌∙◌, inl, inr, List, [], ◌∷◌, ◌++◌, arith, length,
  ltb, Bool-cases, drop, length-append,
}
use sofa_bolt_cpp.IoBuffer.{Memory, Slice, Buffer, free_space, slices_bytes, live, to_string}
use sofa_bolt_cpp.IoBuffer.Cut.Contents.{IsAligned, to_string-append}
use sofa_bolt_cpp.IoBuffer.Append.{fill_block, extend_last, put_slice}
use sofa_bolt_cpp.IoBuffer.Append.Valid.{IsValid, Extends, AllInUse, slices_bytes-Extends}
use sofa_bolt_cpp.IoBuffer.Append.Fill.{fill_block-Extends, extend_last_lem, used_part}

-- A buffer whose slices, consumed or not, all lie in used parts of blocks.
pub record Holds (m : Memory) (b : Buffer) : Type 0 where
  pub aligned : IsAligned b
  pub in_use : AllInUse m b.ref

pub drop-AllInUse : (m : Memory) (n : ℕ) (ss : List Slice) → AllInUse m ss → AllInUse m (drop n ss)
drop-AllInUse m zero ss u = u
drop-AllInUse m (suc n) [] u = tt
drop-AllInUse m (suc n) (s ∷ ss) u = drop-AllInUse m n ss u.1

pub append-AllInUse :
    (m : Memory) (ss ts : List Slice) → AllInUse m ss → AllInUse m ts → AllInUse m (ss ++ ts)
append-AllInUse m [] ts u w = w
append-AllInUse m (s ∷ ss) ts u w = (u.0, append-AllInUse m ss ts u.1 w)

-- A step that extends the memory leaves the bytes of every buffer as they are.
pub to_string-Extends :
    {m m' : Memory} (c : Buffer)
    → Extends m m'
    → Holds m c
    → (to_string m' c ≡ to_string m c) × Holds m' c
to_string-Extends {m} {m'} c e h = (
  (slices_bytes-Extends (live c) e (drop-AllInUse m c.ref_offset c.ref h.in_use)).0,
  record { aligned = h.aligned; in_use = (slices_bytes-Extends c.ref e h.in_use).1 },
)

pub length-extend_last : (ss : List Slice) (k o n : ℕ) → length ss ≤ length (extend_last ss k o n)
length-extend_last [] k o n = omega arith
length-extend_last (s ∷ []) k o n = ground arith
length-extend_last (s ∷ t ∷ ss) k o n = omega (arith, length-extend_last (t ∷ ss) k o n)

pub drop-extend_last :
    (i : ℕ) (ss : List Slice) (k o n : ℕ)
    → i < length ss
    → drop i (extend_last ss k o n) ≡ extend_last (drop i ss) k o n
drop-extend_last zero ss k o n h = refl
drop-extend_last (suc i) [] k o n h = absurd (omega arith)
drop-extend_last (suc i) (s ∷ []) k o n h = absurd (omega arith)
drop-extend_last (suc i) (s ∷ t ∷ ss) k o n h = drop-extend_last i (t ∷ ss) k o n (omega arith)

-- One round: block `k` takes the bytes, and the buffer a slice for them.
module _ (m : Memory) (b : Buffer) (k : ℕ) (bytes : List ℕ) (v : IsValid m) (known : k < m.fresh)
    (fits : length bytes ≤ free_space (m.blocks k)) (h : Holds m b) where
  abbrev pub put : Buffer
  put = put_slice b k (used_part m k bytes v known fits) (length bytes)

  pub put_slice_lem :
      (to_string (fill_block m k bytes) put ≡ to_string m b ++ bytes)
      × Holds (fill_block m k bytes) put
  put_slice_lem = elim (Bool-cases (ltb b.ref_offset (length b.ref))) [
    | inl e ↦ rw e (
      ap (slices_bytes (fill_block m k bytes))
            (drop-extend_last b.ref_offset b.ref k _ _ (ground arith))
          ∙ (extend_last_lem m k bytes v known fits (live b)
              (drop-AllInUse m b.ref_offset b.ref h.in_use)).0,
      record {
        aligned = omega (arith, h.aligned, length-extend_last b.ref k _ _);
        in_use = (extend_last_lem m k bytes v known fits b.ref h.in_use).1;
      },
    )
    | inr e ↦
        let grown = fill_block-Extends m k bytes v known fits in
        rw e (
          to_string-append (fill_block m k bytes) b _ h.aligned
              ∙ ap₂ ◌++◌ (to_string-Extends b grown h).0
                  (extend_last_lem m k bytes v known fits [] tt).0,
          record {
            aligned = omega (arith, h.aligned, length-append b.ref (new ∷ []));
            in_use =
                append-AllInUse (fill_block m k bytes) b.ref _
                  (to_string-Extends b grown h).1.in_use
                  (extend_last_lem m k bytes v known fits [] tt).1;
          },
        )
  ]
    where
      new : Slice
      new = record { block = k; offset = (m.blocks k).size; count = length bytes }
