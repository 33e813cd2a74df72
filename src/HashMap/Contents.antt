-- ===== src/HashMap/Contents.antt =====
-- The operations of include/common/concurrent_hash_map.h as those of a finite map from keys to values.
use sofa_bolt_cpp.Base.{
  ℕ, zero, suc, ◌+◌, ◌%◌, ◌^◌, ◌≤◌, ◌<◌, ◌≡◌, refl, sym, ◌∙◌, ap, subst, Bool, true, false, not,
  Bool-cases, inl, inr, Option, none, some, List, if◌then◌else◌, length, arith, ◌==◌, ne→==,
}
use native.Mathlib.Nat.{mod-lt}
use sofa_bolt_cpp.HashMap.{HashMap, slot, set_bucket, put, exchange, get, erase, get_nolock}
use sofa_bolt_cpp.HashMap.Chain.{
  is_some, or_else, Good, Sets, put_nolock-Sets, exchange_nolock-Sets, erase_nolock-Sets,
}

-- The nodes of the first `n` buckets.
abbrev pub total : {A : Type 0} → ℕ → (ℕ → List A) → ℕ
total zero b = 0
total (suc n) b = length (b n) + total n b

total-outside :
    {A : Type 0} (n i : ℕ) (b : ℕ → List A) (c : List A)
    → n ≤ i
    → total n (λ j. if j == i then c else b j) ≡ total n b
total-outside zero i b c h = refl
total-outside (suc n) i b c h =
    rw (ne→== n i (λ e. omega (arith, e)))
      (ap (λ t. length (b n) + t) (total-outside n i b c (omega arith)))

total-set :
    {A : Type 0} (n i : ℕ) (b : ℕ → List A) (c : List A)
    → i < n
    → total n (λ j. if j == i then c else b j) + length (b i) ≡ total n b + length c
total-set zero i b c h = absurd (omega arith)
total-set (suc n) i b c h = elim (Bool-cases (n == i)) [
  | inl e ↦
      let same : n ≡ i = ground arith in
      rw (e, ap b (sym same)) (omega (arith, total-outside n i b c (omega arith)))
  | inr e ↦ rw e (omega (arith, total-set n i b c (ground arith)))
]

module _ {K V : Type 0} (eq : K → K → Bool) (hash : K → ℕ) where
  -- Every key stands in its own bucket, and once; the elements are counted.
  pub record IsValid (m : HashMap K V) : Type 0 where
    pub some_bucket : 0 < m.bucket_size
    pub good : (i : ℕ) → i < m.bucket_size → Good eq (λ k. hash k % m.bucket_size ≡ i) (m.buckets i)
    pub counted : m.element_size ≡ total m.bucket_size m.buckets % 2 ^ 64

  -- The map `m'` is `m` with `y` at the key `k`.
  pub record Updates (m : HashMap K V) (k : K) (y : Option V) (m' : HashMap K V) : Type 0 where
    pub looks : (j : K) → get eq hash m' j ≡ (if eq k j then y else get eq hash m j)
    pub valid : IsValid m'

module _ {K V : Type 0} (eq : K → K → Bool) (hash : K → ℕ)
    (eq→≡ : (a b : K) → eq a b ≡ true → a ≡ b) (eq_refl : (a : K) → eq a a ≡ true) where
  set_bucket-Updates :
      (m : HashMap K V) (k : K) (y : Option V) (c : List (K × V)) (n : ℕ)
      → IsValid eq hash m
      → Sets eq
          (λ j. hash j % m.bucket_size ≡ slot eq hash m k)
          (m.buckets (slot eq hash m k))
          k
          y
          c
      → (n + length (m.buckets (slot eq hash m k))) % 2 ^ 64 ≡ (m.element_size + length c) % 2 ^ 64
      → Updates eq hash m k y (set_bucket eq hash m (slot eq hash m k) c n)
  unfolding get
  set_bucket-Updates m k y c n v s e = record {
    looks = λ j. elim (Bool-cases (slot eq hash m j == slot eq hash m k)) [
      | inl f ↦
          let same : slot eq hash m j ≡ slot eq hash m k = ground arith in
          rw f
            (s.looks j ∙ ap (λ i. if eq k j then y else get_nolock eq (m.buckets i) j) (sym same))
      | inr f ↦ elim (Bool-cases (eq k j)) [
        | inl h ↦ absurd (ne_of_== (ap (slot eq hash m) (sym (eq→≡ k j h))) f)
        | inr h ↦ rw (f, h) refl
      ]
    ];
    valid = record {
      some_bucket = v.some_bucket;
      good = λ i h. elim (Bool-cases (i == slot eq hash m k)) [
        | inl f ↦
            let same : i ≡ slot eq hash m k = ground arith in
            rw f (subst (λ x. Good eq (λ j. hash j % m.bucket_size ≡ x) c) (sym same) s.good)
        | inr f ↦ rw f (v.good i h)
      ];
      counted =
          let sum =
            total-set m.bucket_size (slot eq hash m k) m.buckets c
              (mod-lt (hash k) v.some_bucket) in
          omega (arith, sum, e, v.counted);
    };
  }
    where
      ne_of_== : {a b : ℕ} → a ≡ b → (a == b) ≡ false → ⊥
      ne_of_== {a} {b} p q = ground arith

  slot-Good :
      (m : HashMap K V) (k : K)
      → IsValid eq hash m
      → Good eq (λ j. hash j % m.bucket_size ≡ slot eq hash m k) (m.buckets (slot eq hash m k))
  slot-Good m k v = v.good (slot eq hash m k) (mod-lt (hash k) v.some_bucket)

  -- `put` goes in exactly where the key is not there; then the key has the value, and else the one
  -- that it had. Other keys keep theirs, and the map stays valid.
  pub put-Updates :
      (m : HashMap K V) (k : K) (x : V)
      → IsValid eq hash m
      → let (r, m') = put eq hash m k x in
        (r ≡ not (is_some (get eq hash m k)))
        × Updates eq hash m k (some (or_else (get eq hash m k) x)) m'
  unfolding put get
  put-Updates m k x v =
      let (r, s, n) =
        put_nolock-Sets eq eq→≡ eq_refl _ (m.buckets (slot eq hash m k)) k x (slot-Good m k v)
          refl in
      (r, set_bucket-Updates m k _ _ _ v s (ground arith))

  -- `exchange` gives the key the value, tells whether the key was there, and leaves the caller with
  -- the value that it had, or with the new one. Other keys keep theirs, and the map stays valid.
  pub exchange-Updates :
      (m : HashMap K V) (k : K) (x : V)
      → IsValid eq hash m
      → let (r, u, m') = exchange eq hash m k x in
        (r ≡ is_some (get eq hash m k))
        × (u ≡ or_else (get eq hash m k) x)
        × Updates eq hash m k (some x) m'
  unfolding exchange get
  exchange-Updates m k x v =
      let (r, u, s, n) =
        exchange_nolock-Sets eq eq→≡ eq_refl _ (m.buckets (slot eq hash m k)) k x (slot-Good m k v)
          refl in
      (r, u, set_bucket-Updates m k _ _ _ v s (ground arith))

  -- `erase` takes the key out and tells whether it was there. Other keys keep their values, and the
  -- map stays valid.
  pub erase-Updates :
      (m : HashMap K V) (k : K)
      → IsValid eq hash m
      → let (r, m') = erase eq hash m k in
        (r ≡ is_some (get eq hash m k)) × Updates eq hash m k none m'
  unfolding erase get
  erase-Updates m k v =
      let (r, s, n) =
        erase_nolock-Sets eq eq→≡ eq_refl _ (m.buckets (slot eq hash m k)) k (slot-Good m k v) in
      (r, set_bucket-Updates m k _ _ _ v s (ground arith))
