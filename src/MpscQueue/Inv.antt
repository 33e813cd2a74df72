-- ===== src/MpscQueue/Inv.antt =====
-- What stays true of the queue of include/common/lockfree_queue.h, and of the indices and cells.
use sofa_bolt_cpp.Base.{
  ℕ, zero, suc, ◌+◌, ◌/◌, ◌%◌, ◌≤◌, ◌<◌, ◌≡◌, ◌≢◌, refl, ap, ap₂, ◌⊎◌, inl, inr, true, false,
  Bool-cases, some, List, [], ◌∷◌, ◌++◌, arith, leb, ◌==◌, eq→==, ==→eq,
}
use native.Mathlib.Nat.{div-add-mod, mul-le-mul_left, mul-suc}
use sofa_bolt_cpp.MpscQueue.{Queue, reserve, commit, copy_front, World}

-- Indices that are less than the capacity apart have different cells.
pub cells-apart : (c i w : ℕ) → 0 < c → i < w → w < i + c → (i % c) ≢ (w % c)
cells-apart c i w pos less near e =
    let low = div-add-mod i c in
    let high = div-add-mod w c in
    elim (Bool-cases (leb (w / c) (i / c))) [
      | inl f ↦
          let order : w / c ≤ i / c = ground arith in
          omega (arith, low, high, e, mul-le-mul_left c order)
      | inr f ↦
          let order : suc (i / c) ≤ w / c = ground arith in
          omega (arith, low, high, e, mul-le-mul_left c order, mul-suc c (i / c))
    ]

-- The values at the indices below `n`.
abbrev pub first : {A : Type 0} → (ℕ → A) → ℕ → List A
first f zero = []
first f (suc n) = first f n ++ (f n ∷ [])

pub first-agree :
    {A : Type 0} (f g : ℕ → A) (n : ℕ) → ((i : ℕ) → i < n → f i ≡ g i) → first f n ≡ first g n
first-agree f g zero h = refl
first-agree f g (suc n) h =
    ap₂ (λ xs x. xs ++ (x ∷ [])) (first-agree f g n (λ i l. h i (omega arith))) (h n (omega arith))

pub record Inv {A : Type 0} (s : World A) : Type 0 where
  pub room : 0 < s.queue.capacity
  pub behind : s.queue.read_idx ≤ s.queue.write_idx
  pub within : s.queue.write_idx ≤ s.queue.write_prepare_idx
  pub bounded : s.queue.write_prepare_idx ≤ s.queue.read_idx + s.queue.capacity
  pub present :
      (i : ℕ)
      → s.queue.read_idx ≤ i
      → i < s.queue.write_prepare_idx
      → (i < s.queue.write_idx) ⊎ (s.stored i ≡ true)
      → s.queue.buffer (i % s.queue.capacity) ≡ s.value i
  pub unborn : (i : ℕ) → s.queue.write_prepare_idx ≤ i → s.stored i ≡ false
  pub held :
      (v : A)
      → s.copied ≡ some v
      → (v ≡ s.value s.queue.read_idx) × (s.queue.read_idx < s.queue.write_idx)
  pub given : s.popped ≡ first s.value s.queue.read_idx

pub reserve_lem :
    {A : Type 0} (q q' : Queue A)
    → reserve q q.write_prepare_idx ≡ (true, q')
    → record q { write_prepare_idx = suc q.write_prepare_idx } ≡ q'
unfolding reserve
reserve_lem q q' e =
    let same = eq→== q.write_prepare_idx q.write_prepare_idx refl in ap (λ p. p.1) (rw same at e)

pub commit_lem :
    {A : Type 0} (q q' : Queue A) (w : ℕ)
    → commit q w ≡ (true, q')
    → (q.write_idx ≡ w) × (record q { write_idx = suc w } ≡ q')
unfolding commit
commit_lem q q' w e = elim (Bool-cases (q.write_idx == w)) [
  | inl f ↦ (==→eq _ _ f, ap (λ p. p.1) (rw f at e))
  | inr f ↦ absurd (cc (ap (λ p. p.0) (rw f at e)))
]

pub copy_front_lem :
    {A : Type 0} (q : Queue A) (v : A)
    → copy_front q ≡ some v
    → ((q.read_idx == q.write_idx) ≡ false) × (some (q.buffer (q.read_idx % q.capacity)) ≡ some v)
unfolding copy_front
copy_front_lem q v e = elim (Bool-cases (q.read_idx == q.write_idx)) [
  | inl f ↦ absurd (cc (rw f at e))
  | inr f ↦ (f, rw f at e)
]
