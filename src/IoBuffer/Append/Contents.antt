-- ===== src/IoBuffer/Append/Contents.antt =====
-- What the appending operations of src/common/io_buffer.cpp do to the bytes of the buffer, and to
-- those of every other buffer that shares its blocks.
use sofa_bolt_cpp.Base.{
  ℕ, ◌+◌, ◌≤◌, ◌<◌, ◌≡◌, refl, ap, ◌∙◌, sym, Option, none, some, List, [], ◌∷◌, ◌++◌, arith, length,
  take, min, append_assoc, length-append, take-of_length_le, take-append-drop,
}
use sofa_bolt_cpp.IoBuffer.{Memory, Buffer, free_space, slices_bytes, live, to_string, new_buffer}
use sofa_bolt_cpp.IoBuffer.Cut.Slices.{slices_bytes-append}
use sofa_bolt_cpp.IoBuffer.Cut.Contents.{to_string-append}
use sofa_bolt_cpp.IoBuffer.Append.{
  share_block, fill_block, put_slice, append_char, append, append_buffer, append_moved,
}
use sofa_bolt_cpp.IoBuffer.Append.Valid.{IsValid, Extends, Extends-trans}
use sofa_bolt_cpp.IoBuffer.Append.Chain.{Shared, share_block-Shared}
use sofa_bolt_cpp.IoBuffer.Append.Put.{Holds, append-AllInUse, to_string-Extends}
use sofa_bolt_cpp.IoBuffer.Append.Rounds.{
  append_loop-Appended, round-IsValid, round-Extends, round_lem, round-spent, ref_offset-put_slice,
}

-- What appending all of `bytes` to `b` gives.
pub record Appends (m : Memory) (b : Buffer) (bytes : List ℕ) (r : Memory × Buffer) : Type 0 where
  pub valid : IsValid r.0
  pub extends : Extends m r.0
  pub holds : Holds r.0 r.1
  pub spent : m.room ≤ r.0.room + length bytes
  pub offset : r.1.ref_offset ≡ b.ref_offset
  pub same : to_string r.0 r.1 ≡ to_string m b ++ bytes

pub Appends-trans :
    {m : Memory} {b : Buffer} {xs ys : List ℕ} {r q : Memory × Buffer}
    → Appends m b xs r
    → Appends r.0 r.1 ys q
    → Appends m b (xs ++ ys) q
Appends-trans {m} {b} {xs} {ys} a c = record {
  valid = c.valid;
  extends = Extends-trans a.extends c.extends;
  holds = c.holds;
  spent = omega (arith, a.spent, c.spent, length-append xs ys);
  offset = c.offset ∙ a.offset;
  same = c.same ∙ ap (λ bs. bs ++ ys) a.same ∙ append_assoc (to_string m b) xs ys;
}

pub append-Appends :
    (m : Memory) (b : Buffer) (bytes : List ℕ)
    → IsValid m
    → Holds m b
    → length bytes ≤ m.room
    → Appends m b bytes (append m b bytes)
unfolding append
append-Appends m b bytes v h room =
    let done = append_loop-Appended (length bytes) m b bytes (omega arith) v h in
    let (n, same, all) = done.pushed in
    record {
      valid = done.valid;
      extends = done.extends;
      holds = done.holds;
      spent = done.spent;
      offset = done.offset;
      same = same ∙ ap (◌++◌ (to_string m b)) (take-of_length_le n bytes (all room));
    }

-- `append(const void*, n)`, where `malloc` grants what it asks for: the memory stays valid, the
-- buffer has the bytes behind its own, and every other buffer keeps its bytes, although buffers
-- share the blocks that are written to.
pub append_lem :
    (m : Memory) (b c : Buffer) (bytes : List ℕ)
    → IsValid m
    → Holds m b
    → Holds m c
    → length bytes ≤ m.room
    → let (m', b') = append m b bytes in
      (to_string m' b' ≡ to_string m b ++ bytes)
      × (to_string m' c ≡ to_string m c)
      × IsValid m'
      × Holds m' b'
      × Holds m' c
append_lem m b c bytes v h g room =
    let done = append-Appends m b bytes v h room in
    let kept = to_string-Extends c done.extends g in
    (done.same, kept.0, done.valid, done.holds, kept.1)

-- `append(char)` does what `append` of that one byte does.
pub append_char_lem :
    (m : Memory) (b : Buffer) (c : ℕ)
    → IsValid m
    → Holds m b
    → 0 < m.room
    → Appends m b (c ∷ []) (append_char m b c)
unfolding append_char
append_char_lem m b c v h room = go (share_block m).0 (share_block m).1 (share_block-Shared m v)
  where
    go :
        (k : Option ℕ) (m' : Memory)
        → Shared m (k, m')
        → Appends m b (c ∷ []) (elim k [
          | none ↦ (m', b)
          | some k ↦ (fill_block m' k (c ∷ []), put_slice b k (m'.blocks k).size 1)
        ])
    go none m' s = absurd (cc (s.granted room).1)
    go (some k) m' s =
        let one : 1 ≡ min (length (c ∷ [])) (free_space (m'.blocks k)) =
          omega (arith, (s.found k refl).1) in
        let (same, held) = round_lem m m' b k 1 (c ∷ []) s h one in
        record {
          valid = round-IsValid m m' b k 1 (c ∷ []) s h one;
          extends = round-Extends m m' b k 1 (c ∷ []) s h one;
          holds = held;
          offset = ref_offset-put_slice b k (m'.blocks k).size 1;
          spent = round-spent m m' b k 1 (c ∷ []) s h one;
          same = same;
        }

-- `append(const IOBuffer&)` puts the bytes of the other buffer behind, and before them the bytes
-- that the other buffer had consumed and still lists.
pub append_buffer_lem :
    (m : Memory) (b other : Buffer)
    → Holds m b
    → Holds m other
    → (to_string m (append_buffer b other)
        ≡ to_string m b ++ (slices_bytes m (take other.ref_offset other.ref) ++ to_string m other))
      × Holds m (append_buffer b other)
unfolding append_buffer
append_buffer_lem m b other h g = (
  to_string-append m b other.ref h.aligned
      ∙ ap (◌++◌ (to_string m b)) (
          ap (slices_bytes m) (sym (take-append-drop other.ref_offset other.ref))
          ∙ slices_bytes-append m (take other.ref_offset other.ref) (live other)),
  record {
    aligned = omega (arith, h.aligned, length-append b.ref other.ref);
    in_use = append-AllInUse m b.ref other.ref h.in_use g.in_use;
  },
)

-- `append(IOBuffer&&)` does what `append(const IOBuffer&)` does, and empties the other buffer.
pub append_moved_lem :
    (b other : Buffer) → append_moved b other ≡ (append_buffer b other, new_buffer)
unfolding append_moved append_buffer
append_moved_lem b other = refl
