-- ===== src/IoBuffer/Append/Chain.antt =====
-- `shareBlockFromTLSChain` of src/common/io_buffer.cpp: it ends, and finds a block with room.
use sofa_bolt_cpp.Base.{
  ℕ, zero, suc, ◌+◌, ◌≤◌, ◌<◌, ◌≡◌, refl, sym, subst, inl, inr, Option, none, some, arith, ltb,
  ◌==◌, Bool-cases, Option-cases,
}
use sofa_bolt_cpp.IoBuffer.{Memory, create_block, free_space}
use sofa_bolt_cpp.IoBuffer.Append.{chain_loop, new_head, share_head, share_block}
use sofa_bolt_cpp.IoBuffer.Append.Valid.{IsValid, Extends, Extends-refl}

-- The chain after the loop: it is as before, or it is empty where its one block is full.
chain_loop-kept : (fuel : ℕ) (m : Memory) → 0 < fuel → m.chain ≡ none → chain_loop fuel m ≡ m
unfolding chain_loop
chain_loop-kept zero m f e = absurd (omega arith)
chain_loop-kept (suc fuel) m f e = ground arith

chain_loop-found :
    (fuel : ℕ) (m : Memory) (k : ℕ)
    → m.chain ≡ some k
    → 0 < free_space (m.blocks k)
    → chain_loop fuel m ≡ m
unfolding chain_loop
chain_loop-found zero m k e h = refl
chain_loop-found (suc fuel) m k e h = ground arith

chain_loop-full :
    (fuel : ℕ) (m : Memory) (k : ℕ)
    → 1 < fuel
    → m.chain ≡ some k
    → free_space (m.blocks k) ≤ 0
    → (m.blocks k).next ≡ none
    → chain_loop fuel m ≡ record m { chain = none }
unfolding chain_loop
chain_loop-full zero m k f e h n = absurd (omega arith)
chain_loop-full (suc zero) m k f e h n = absurd (omega arith)
chain_loop-full (suc (suc fuel)) m k f e h n = ground arith

-- What `share_block` finds: a block with room at the head of the chain, in a valid memory that
-- extends the old one. It fails only if `malloc` does.
pub record Shared (m : Memory) (r : Option ℕ × Memory) : Type 0 where
  pub valid : IsValid r.1
  pub extends : Extends m r.1
  pub found :
      (k : ℕ)
      → r.0 ≡ some k
      → (k < r.1.fresh) × (0 < free_space (r.1.blocks k)) × (r.1.chain ≡ some k)
  pub granted : 0 < m.room → (k : ℕ) × (r.0 ≡ some k)
  pub spent : m.room ≤ r.1.room + 1

new_head-Shared : (m : Memory) → IsValid m → Shared m (new_head m)
unfolding new_head create_block
new_head-Shared m v = elim (Bool-cases (m.room == 0)) [
  | inl e ↦ rw e (record {
    valid = record { used = v.used; small = v.small; chained = inl refl };
    extends = record { more = omega arith; grown = λ k h. omega arith; kept = λ k i h g. refl };
    found = λ k h. cc;
    granted = λ h. absurd (ground arith);
    spent = ground arith;
  })
  | inr e ↦ rw e (record {
    valid = record {
      used = λ k h. ground (arith, v.used k);
      small = λ k h. ground (arith, v.small k);
      chained = inr (m.fresh, refl, omega arith, ground arith);
    };
    extends = record {
      more = omega arith;
      grown = λ k h. ground arith;
      kept = λ k i h g. ground arith;
    };
    found = λ k h. ground arith;
    granted = λ h. (m.fresh, refl);
    spent = ground arith;
  })
]

share_head-Shared :
    (m : Memory)
    → IsValid m
    → ((k : ℕ) → m.chain ≡ some k → (k < m.fresh) × (0 < free_space (m.blocks k)))
    → Shared m (share_head m)
unfolding share_head
share_head-Shared m v room = elim (Option-cases m.chain) [
  | inl e ↦ subst (λ c. Shared m (pick c)) (sym e) (new_head-Shared m v)
  | inr (k, e) ↦
      subst (λ c. Shared m (pick c)) (sym e)
        (record {
          valid = v;
          extends = Extends-refl m;
          found = λ j h. ground (arith, room k);
          granted = λ h. (k, refl);
          spent = omega arith;
        })
]
  where
    pick : Option ℕ → Option ℕ × Memory
    pick c = elim c [ some k ↦ (some k, m) | none ↦ new_head m ]

-- An emptied chain is a valid one.
unchained-Shared :
    (m : Memory) (r : Option ℕ × Memory) → Shared (record m { chain = none }) r → Shared m r
unchained-Shared m r s = record {
  valid = s.valid;
  extends = record { more = s.extends.more; grown = s.extends.grown; kept = s.extends.kept };
  found = s.found;
  granted = s.granted;
  spent = s.spent;
}

pub share_block-Shared : (m : Memory) → IsValid m → Shared m (share_block m)
unfolding share_block
share_block-Shared m v = elim v.chained [
  | inl e ↦ rw (chain_loop-kept (m.fresh + 1) m (omega arith) e) (share_head-Shared m v (λ k h. cc))
  | inr (k, e, known, last) ↦ elim (Bool-cases (ltb 0 (free_space (m.blocks k)))) [
    | inl free ↦
        rw (chain_loop-found (m.fresh + 1) m k e (ground arith))
          (share_head-Shared m v (λ j h. ground arith))
    | inr full ↦ rw (chain_loop-full (m.fresh + 1) m k (omega arith) e (ground arith) last) (
        unchained-Shared m _ (
          share_head-Shared (record m { chain = none })
            (record { used = v.used; small = v.small; chained = inl refl }) (λ j h. cc)))
  ]
]
