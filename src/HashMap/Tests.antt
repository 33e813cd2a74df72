-- ===== src/HashMap/Tests.antt =====
-- The hash map of include/common/concurrent_hash_map.h with a few keys.
use sofa_bolt_cpp.Base.{
  ℕ, zero, suc, ◌%◌, ◌≡◌, refl, true, not, none, some, List, [], ◌∷◌, arith, ◌==◌, ==→eq, eq→==,
}
use sofa_bolt_cpp.HashMap.{HashMap, put, get, erase, exchange, get_nolock}
use sofa_bolt_cpp.HashMap.Chain.{is_some, or_else, Good}
use sofa_bolt_cpp.HashMap.Contents.{IsValid, Updates, put-Updates, erase-Updates, exchange-Updates}

-- Two buckets with the key 4 in the first one, and the identity as the hash.
abbrev bucket : ℕ → List (ℕ × ℕ)
bucket zero = (4, 40) ∷ []
bucket (suc i) = []

abbrev two_nodes : List (ℕ × ℕ)
two_nodes = (4, 40) ∷ (6, 60) ∷ []

abbrev one_key : HashMap ℕ ℕ
one_key = record { buckets = bucket; bucket_size = 2; element_size = 1 }

one_key-IsValid : IsValid ◌==◌ (λ k. k) one_key
unfolding get_nolock
one_key-IsValid = record {
  some_bucket = omega arith;
  good = λ i h. elim i as (λ i. Good ◌==◌ (λ k. k % 2 ≡ i) (bucket i)) [
    | zero ↦ (refl, refl, tt)
    | suc i ↦ tt
  ];
  counted = refl;
}

eq_refl : (a : ℕ) → (a == a) ≡ true
eq_refl a = eq→== a a refl

put-Updates_example :
    let (r, m) = put ◌==◌ (λ k. k) one_key 6 60 in
    (r ≡ not (is_some (get ◌==◌ (λ k. k) one_key 6)))
    × Updates ◌==◌ (λ k. k) one_key 6 (some (or_else (get ◌==◌ (λ k. k) one_key 6) 60)) m
put-Updates_example = put-Updates ◌==◌ (λ k. k) ==→eq eq_refl one_key 6 60 one_key-IsValid

erase-Updates_example :
    let (r, m) = erase ◌==◌ (λ k. k) one_key 4 in
    (r ≡ is_some (get ◌==◌ (λ k. k) one_key 4)) × Updates ◌==◌ (λ k. k) one_key 4 none m
erase-Updates_example = erase-Updates ◌==◌ (λ k. k) ==→eq eq_refl one_key 4 one_key-IsValid

exchange-Updates_example :
    let (r, u, m) = exchange ◌==◌ (λ k. k) one_key 4 41 in
    (r ≡ is_some (get ◌==◌ (λ k. k) one_key 4))
    × (u ≡ or_else (get ◌==◌ (λ k. k) one_key 4) 41)
    × Updates ◌==◌ (λ k. k) one_key 4 (some 41) m
exchange-Updates_example = exchange-Updates ◌==◌ (λ k. k) ==→eq eq_refl one_key 4 41 one_key-IsValid
