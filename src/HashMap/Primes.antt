-- ===== src/HashMap/Primes.antt =====
-- The number of buckets that include/common/concurrent_hash_map.h takes for a hint.
use sofa_bolt_cpp.Base.{
  ℕ, zero, suc, ◌≤◌, ◌<◌, ◌≡◌, refl, Bool, true, false, ◌&&◌, ◌⊎◌, Bool-cases, inl, inr, none, List,
  [], ◌∷◌, arith, ltb, ltb→lt, ltb→le,
}
use sofa_bolt_cpp.HashMap.{primes, lower_bound, next_bucket_num, new_map, get, get_nolock}
use sofa_bolt_cpp.HashMap.Contents.{total, IsValid}

-- The elements rise, up to `end`.
abbrev rises : ℕ → List ℕ → ℕ → Bool
rises low [] end = ltb low end
rises low (p ∷ ps) end = ltb low p && rises p ps end

primes-rises : rises 1 primes 4294967291 ≡ true
primes-rises = refl

abbrev pub Occurs : ℕ → List ℕ → ℕ → Type 0
Occurs q [] end = q ≡ end
Occurs q (p ∷ ps) end = (q ≡ p) ⊎ Occurs q ps end

-- What is asked of a least element of a table from `n` on.
pub record Least (low : ℕ) (ps : List ℕ) (end n q : ℕ) : Type 0 where
  pub above : low < q
  pub enough : n ≤ end → n ≤ q
  pub least : (p : ℕ) → Occurs p ps end → n ≤ p → q ≤ p

and_true : (a b : Bool) → (a && b) ≡ true → (a ≡ true) × (b ≡ true)
and_true true b h = (refl, h)
and_true false b h = absurd (cc h)

rises-Occurs :
    (low : ℕ) (ps : List ℕ) (end p : ℕ) → rises low ps end ≡ true → Occurs p ps end → low < p
rises-Occurs low [] end p r o = rw o (ltb→lt low end r)
rises-Occurs low (q ∷ ps) end p r (inl e) = rw e (ltb→lt low q (and_true _ _ r).0)
rises-Occurs low (q ∷ ps) end p r (inr o) =
    omega (arith, ltb→lt low q (and_true _ _ r).0, rises-Occurs q ps end p (and_true _ _ r).1 o)

lower_bound-Least :
    (low : ℕ) (ps : List ℕ) (end n : ℕ)
    → rises low ps end ≡ true
    → Least low ps end n (lower_bound ps end n)
unfolding lower_bound
lower_bound-Least low [] end n r = record {
  above = ltb→lt low end r;
  enough = λ h. h;
  least = λ p o h. omega (arith, o);
}
lower_bound-Least low (q ∷ ps) end n r =
    let (first, rest) = and_true _ _ r in
    let next = lower_bound-Least q ps end n rest in
    elim (Bool-cases (ltb q n)) [
      | inl e ↦ rw e (record {
        above = omega (arith, ltb→lt low q first, next.above);
        enough = next.enough;
        least = λ p o h. elim o [
          | inl f ↦ absurd (omega (arith, f, ltb→lt q n e))
          | inr f ↦ next.least p f h
        ];
      })
      | inr e ↦ rw e (record {
        above = ltb→lt low q first;
        enough = λ h. ltb→le q n e;
        least = λ p o h. elim o [
          | inl f ↦ omega (arith, f)
          | inr f ↦ omega (arith, rises-Occurs q ps end p rest f)
        ];
      })
    ]

-- `nextBucketNum` gives the least number of its table that is not below the hint, where the hint is
-- not above the whole table. It is never less than two.
pub next_bucket_num-Least : (n : ℕ) → Least 1 primes 4294967291 n (next_bucket_num n)
unfolding next_bucket_num
next_bucket_num-Least n = lower_bound-Least 1 primes 4294967291 n primes-rises

total_empty : (A : Type 0) (n : ℕ) → total {A = A} n (λ _. []) ≡ 0
total_empty A zero = refl
total_empty A (suc n) = omega (arith, total_empty A n)

module _ {K V : Type 0} (eq : K → K → Bool) (hash : K → ℕ) where
  -- A new map is valid, whatever the hint, and no key is in it.
  pub new_map-IsValid :
      (hint : ℕ)
      → IsValid {K = K} {V = V} eq hash (new_map hint)
        × ((k : K) → get {K = K} {V = V} eq hash (new_map hint) k ≡ none)
  unfolding new_map get get_nolock
  new_map-IsValid hint = (
    record {
      some_bucket = omega (arith, (next_bucket_num-Least hint).above);
      good = λ i h. tt;
      counted = omega (arith, total_empty (K × V) (next_bucket_num hint));
    },
    λ k. refl,
  )
