-- ===== src/IoBuffer/Append/Rounds.antt =====
-- The loop of `append(const void*, size_t)` in src/common/io_buffer.cpp, round by round.
use sofa_bolt_cpp.Base.{
  ℕ, zero, suc, ◌+◌, ◌≤◌, ◌<◌, ◌≡◌, refl, ap, ◌∙◌, sym, subst, Option, none, some, List, [], ◌∷◌,
  ◌++◌, arith, length, take, drop, min, append-nil, append_assoc, length-take, length-drop,
  take-add,
}
use sofa_bolt_cpp.IoBuffer.{Memory, Buffer, free_space, to_string}
use sofa_bolt_cpp.IoBuffer.Append.{share_block, fill_block, put_slice, append_loop}
use sofa_bolt_cpp.IoBuffer.Append.Valid.{IsValid, Extends, Extends-refl, Extends-trans}
use sofa_bolt_cpp.IoBuffer.Append.Chain.{Shared, share_block-Shared}
use sofa_bolt_cpp.IoBuffer.Append.Fill.{fill_block-IsValid, fill_block-Extends}
use sofa_bolt_cpp.IoBuffer.Append.Put.{Holds, to_string-Extends, put_slice_lem}

pub ref_offset-put_slice : (b : Buffer) (k o n : ℕ) → (put_slice b k o n).ref_offset ≡ b.ref_offset
ref_offset-put_slice b k o n = ground arith

-- What appending `bytes` to `b` gives: a valid memory in which all that was there is as it was, and
-- a buffer that has some first part of the bytes behind its own; all of them, if `malloc` grants a
-- block for each.
pub record Appended (m : Memory) (b : Buffer) (bytes : List ℕ) (r : Memory × Buffer) : Type 0 where
  pub valid : IsValid r.0
  pub extends : Extends m r.0
  pub holds : Holds r.0 r.1
  pub spent : m.room ≤ r.0.room + length bytes
  pub offset : r.1.ref_offset ≡ b.ref_offset
  pub pushed :
      (n : ℕ) × (to_string r.0 r.1 ≡ to_string m b ++ take n bytes)
      × (length bytes ≤ m.room → length bytes ≤ n)

pub nothing-Appended :
    (m m' : Memory) (b : Buffer) (bytes : List ℕ)
    → IsValid m'
    → Extends m m'
    → Holds m b
    → m.room ≤ m'.room + length bytes
    → (length bytes ≤ m.room → length bytes ≤ 0)
    → Appended m b bytes (m', b)
nothing-Appended m m' b bytes v e h spent full = record {
  valid = v;
  extends = e;
  holds = (to_string-Extends b e h).1;
  spent = spent;
  offset = refl;
  pushed = (0, (to_string-Extends b e h).0 ∙ sym (append-nil (to_string m b)), full);
}

-- A round that pushes `n` bytes into the block `k` that `share_block` found.
module _ (m m' : Memory) (b : Buffer) (k n : ℕ) (bytes : List ℕ) (s : Shared m (some k, m'))
    (h : Holds m b) (e : n ≡ min (length bytes) (free_space (m'.blocks k))) where
  abbrev pub full_block : Memory
  full_block = fill_block m' k (take n bytes)

  abbrev pub longer : Buffer
  longer = put_slice b k (m'.blocks k).size n

  pub found : (k < m'.fresh) × (0 < free_space (m'.blocks k)) × (m'.chain ≡ some k)
  found = s.found k refl

  pub taken : length (take n bytes) ≡ n
  taken = omega (arith, length-take n bytes, e)

  pub fits : length (take n bytes) ≤ free_space (m'.blocks k)
  fits = omega (arith, taken, e)

  pub round-IsValid : IsValid full_block
  round-IsValid = fill_block-IsValid m' k (take n bytes) s.valid found.0 fits

  pub round-Extends : Extends m full_block
  round-Extends =
      Extends-trans s.extends (fill_block-Extends m' k (take n bytes) s.valid found.0 fits)

  pub round_lem :
      (to_string full_block longer ≡ to_string m b ++ take n bytes) × Holds full_block longer
  round_lem =
      let before = to_string-Extends b s.extends h in
      let (same, held) =
        subst
          (λ j.
            (to_string full_block (put_slice b k (m'.blocks k).size j)
              ≡ to_string m' b ++ take n bytes)
            × Holds full_block (put_slice b k (m'.blocks k).size j))
          taken (put_slice_lem m' b k (take n bytes) s.valid found.0 fits before.1) in
      (same ∙ ap (λ bs. bs ++ take n bytes) before.0, held)

  pub round-spent : m.room ≤ full_block.room + 1
  unfolding fill_block
  round-spent = s.spent

  -- With the rounds that push the others.
  pub round-Appended :
      (r : Memory × Buffer)
      → 0 < length bytes
      → Appended full_block longer (drop n bytes) r
      → Appended m b bytes r
  unfolding fill_block
  round-Appended r some_left later =
      let (i, same, all) = later.pushed in
      record {
        valid = later.valid;
        extends = Extends-trans round-Extends later.extends;
        holds = later.holds;
        offset = later.offset ∙ ref_offset-put_slice b k (m'.blocks k).size n;
        spent = omega (arith, later.spent, length-drop n bytes, found.1, s.spent, e);
        pushed = (
          n + i,
          same
              ∙ ap (λ bs. bs ++ take i (drop n bytes)) round_lem.0
              ∙ append_assoc (to_string m b) (take n bytes) (take i (drop n bytes))
              ∙ ap (◌++◌ (to_string m b)) (sym (take-add n i bytes)),
          λ room. omega (
            arith,
            all (omega (arith, length-drop n bytes, found.1, s.spent, e)),
            length-drop n bytes,
          ),
        );
      }

pub append_loop-Appended :
    (fuel : ℕ) (m : Memory) (b : Buffer) (bytes : List ℕ)
    → length bytes ≤ fuel
    → IsValid m
    → Holds m b
    → Appended m b bytes (append_loop fuel m b bytes)
unfolding append_loop
append_loop-Appended zero m b bytes f v h =
    nothing-Appended m m b bytes v (Extends-refl m) h (omega arith) (λ g. f)
append_loop-Appended (suc fuel) m b [] f v h =
    nothing-Appended m m b [] v (Extends-refl m) h (omega arith) (λ g. omega arith)
append_loop-Appended (suc fuel) m b (x ∷ xs) f v h =
    go (share_block m).0 (share_block m).1 (share_block-Shared m v) (append_loop-Appended fuel)
  where
    push_size : ℕ → Memory → ℕ
    push_size k m' = min (length (x ∷ xs)) (free_space (m'.blocks k))

    rest : ℕ → Memory → Memory × Buffer
    rest k m' =
        append_loop fuel (fill_block m' k (take (push_size k m') (x ∷ xs)))
          (put_slice b k (m'.blocks k).size (push_size k m')) (drop (push_size k m') (x ∷ xs))

    go :
        (k : Option ℕ) (m' : Memory)
        → Shared m (k, m')
        → ((m : Memory) (b : Buffer) (bytes : List ℕ)
            → length bytes ≤ fuel
            → IsValid m
            → Holds m b
            → Appended m b bytes (append_loop fuel m b bytes))
        → Appended m b (x ∷ xs) (elim k [ none ↦ (m', b) | some k ↦ rest k m' ])
    go none m' s again =
        nothing-Appended m m' b (x ∷ xs) s.valid s.extends h (omega (arith, s.spent))
          (λ g. absurd (cc (s.granted (omega arith)).1))
    go (some k) m' s again =
        let n = push_size k m' in
        round-Appended m m' b k n (x ∷ xs) s h refl (rest k m') (omega arith) (
          again _ _ (drop n (x ∷ xs)) (omega (arith, length-drop n (x ∷ xs), (s.found k refl).1))
            (round-IsValid m m' b k n (x ∷ xs) s h refl) (round_lem m m' b k n (x ∷ xs) s h refl).1)
