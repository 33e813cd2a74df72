-- ===== src/HashMap/Chain.antt =====
-- What the operations on one chain of include/common/concurrent_hash_map.h do to the values found in
-- it.
use sofa_bolt_cpp.Base.{
  ◌+◌, ◌≡◌, refl, sym, ◌∙◌, ap, Bool, true, false, not, Bool-cases, inl, inr, Option, none, some,
  List, [], ◌∷◌, if◌then◌else◌, length, arith,
}
use sofa_bolt_cpp.HashMap.{put_nolock, exchange_nolock, get_nolock, erase_nolock}

abbrev pub is_some : {A : Type 0} → Option A → Bool
is_some none = false
is_some (some a) = true

abbrev pub or_else : {A : Type 0} → Option A → A → A
or_else none b = b
or_else (some a) b = a

-- No key stands twice in a chain, and all of them satisfy `P`.
abbrev pub Good : {K V : Type 0} → (K → K → Bool) → (K → Type 0) → List (K × V) → Type 0
Good eq P [] = Unit {0}
Good eq P ((j, w) ∷ c) = P j × (get_nolock eq c j ≡ none) × Good eq P c

-- What comes of a chain `c` of distinct keys when the value of `k` becomes `y`.
pub record Sets {K V : Type 0} (eq : K → K → Bool) (P : K → Type 0) (c : List (K × V)) (k : K)
    (y : Option V) (c' : List (K × V)) : Type 0 where
  pub looks : (j : K) → get_nolock eq c' j ≡ (if eq k j then y else get_nolock eq c j)
  pub good : Good eq P c'

module _ {K : Type 0} (eq : K → K → Bool) (eq→≡ : (a b : K) → eq a b ≡ true → a ≡ b)
    (eq_refl : (a : K) → eq a a ≡ true) where
  eq_trans : (a b c : K) → eq a b ≡ true → eq b c ≡ true → eq a c ≡ true
  eq_trans a b c e f = rw (eq→≡ a b e) f

  eq_sym : (a b : K) → eq a b ≡ false → eq b a ≡ false
  eq_sym a b e = elim (Bool-cases (eq b a)) [
    | inr f ↦ f
    | inl f ↦ absurd (cc (eq→≡ b a f, eq_refl a, e))
  ]

module _ {K V : Type 0} (eq : K → K → Bool) (eq→≡ : (a b : K) → eq a b ≡ true → a ≡ b)
    (eq_refl : (a : K) → eq a a ≡ true) (P : K → Type 0) where
  -- A node that stays in front keeps what the rest sets, unless it has the key.
  Sets-∷ :
      (i : K) (w : V) (c c' : List (K × V)) (k : K) (y : Option V)
      → eq i k ≡ false
      → Good eq P ((i, w) ∷ c)
      → Sets eq P c k y c'
      → Sets eq P ((i, w) ∷ c) k y ((i, w) ∷ c')
  unfolding get_nolock
  Sets-∷ i w c c' k y e g s = record {
    looks = λ j. elim (Bool-cases (eq i j)) [
      | inr f ↦ rw f (s.looks j)
      | inl f ↦ elim (Bool-cases (eq k j)) [
        | inr h ↦ rw (f, h) refl
        | inl h ↦ absurd (cc (eq→≡ i j f, eq→≡ k j h, eq_refl k, e))
      ]
    ];
    good = (g.0, s.looks i ∙ rw (eq_sym eq eq→≡ eq_refl i k e) g.1, s.good);
  }

  -- The node of the key gets another value.
  Sets-head :
      (i : K) (w v : V) (c : List (K × V)) (k : K)
      → eq i k ≡ true
      → Good eq P ((i, w) ∷ c)
      → Sets eq P ((i, w) ∷ c) k (some v) ((i, v) ∷ c)
  unfolding get_nolock
  Sets-head i w v c k e g = record {
    looks = λ j. elim (Bool-cases (eq k j)) [
      | inl h ↦ rw (eq_trans eq eq→≡ eq_refl i k j e h, h) refl
      | inr h ↦ elim (Bool-cases (eq i j)) [
        | inr f ↦ rw (f, h) refl
        | inl f ↦ absurd (cc (eq→≡ i k e, f, h))
      ]
    ];
    good = g;
  }

  -- The node of the key goes.
  Sets-tail :
      (i : K) (w : V) (c : List (K × V)) (k : K)
      → eq i k ≡ true
      → Good eq P ((i, w) ∷ c)
      → Sets eq P ((i, w) ∷ c) k none c
  unfolding get_nolock
  Sets-tail i w c k e g = record {
    looks = λ j. elim (Bool-cases (eq k j)) [
      | inl h ↦ rw h (ap (get_nolock eq c) (sym (eq→≡ i k e ∙ eq→≡ k j h)) ∙ g.1)
      | inr h ↦ elim (Bool-cases (eq i j)) [
        | inr f ↦ rw (h, f) refl
        | inl f ↦ absurd (cc (eq→≡ i k e, f, h))
      ]
    ];
    good = g.2;
  }

  Sets-last : (k : K) (v : V) → P k → Sets eq P [] k (some v) ((k, v) ∷ [])
  unfolding get_nolock
  Sets-last k v p = record { looks = λ j. refl; good = (p, refl, tt) }

  pub put_nolock-Sets :
      (c : List (K × V)) (k : K) (v : V)
      → Good eq P c
      → P k
      → let (r, c') = put_nolock eq c k v in
        (r ≡ not (is_some (get_nolock eq c k)))
        × Sets eq P c k (some (or_else (get_nolock eq c k) v)) c'
        × (length c' ≡ (if r then length c + 1 else length c))
  unfolding put_nolock get_nolock
  put_nolock-Sets [] k v g p = (refl, Sets-last k v p, omega arith)
  put_nolock-Sets ((i, w) ∷ c) k v g p =
      let (r, s, n) = put_nolock-Sets c k v g.2 p in
      elim (Bool-cases (eq i k)) [
        | inl e ↦ rw e (refl, Sets-head i w w c k e g, refl)
        | inr e ↦ rw e (r, Sets-∷ i w c (put_nolock eq c k v).1 k _ e g s, ground arith)
      ]

  pub exchange_nolock-Sets :
      (c : List (K × V)) (k : K) (v : V)
      → Good eq P c
      → P k
      → let (r, u, c') = exchange_nolock eq c k v in
        (r ≡ is_some (get_nolock eq c k))
        × (u ≡ or_else (get_nolock eq c k) v)
        × Sets eq P c k (some v) c'
        × (length c' ≡ (if r then length c else length c + 1))
  unfolding exchange_nolock get_nolock
  exchange_nolock-Sets [] k v g p = (refl, refl, Sets-last k v p, omega arith)
  exchange_nolock-Sets ((i, w) ∷ c) k v g p =
      let (r, u, s, n) = exchange_nolock-Sets c k v g.2 p in
      elim (Bool-cases (eq i k)) [
        | inl e ↦ rw e (refl, refl, Sets-head i w v c k e g, refl)
        | inr e ↦ rw e (r, u, Sets-∷ i w c (exchange_nolock eq c k v).2 k _ e g s, ground arith)
      ]

  pub erase_nolock-Sets :
      (c : List (K × V)) (k : K)
      → Good eq P c
      → let (r, c') = erase_nolock eq c k in
        (r ≡ is_some (get_nolock eq c k))
        × Sets eq P c k none c'
        × (length c ≡ (if r then length c' + 1 else length c'))
  unfolding erase_nolock get_nolock
  erase_nolock-Sets [] k g = (
    refl,
    record {
      looks = λ j. elim (Bool-cases (eq k j)) [ inl h ↦ rw h refl | inr h ↦ rw h refl ];
      good = tt;
    },
    refl,
  )
  erase_nolock-Sets ((i, w) ∷ c) k g =
      let (r, s, n) = erase_nolock-Sets c k g.2 in
      elim (Bool-cases (eq i k)) [
        | inl e ↦ rw e (refl, Sets-tail i w c k e g, omega arith)
        | inr e ↦ rw e (r, Sets-∷ i w c (erase_nolock eq c k).1 k _ e g s, ground arith)
      ]
