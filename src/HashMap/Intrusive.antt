-- ===== src/HashMap/Intrusive.antt =====
-- The intrusive operations of include/common/concurrent_hash_map.h against the plain ones.
use sofa_bolt_cpp.Base.{◌≡◌, refl, ap, Bool, true, Bool-cases, inl, inr, none, List, [], ◌∷◌, ◌++◌}
use sofa_bolt_cpp.HashMap.{
  get_nolock, put_nolock, erase_nolock, intrusive_put_nolock, intrusive_exchange_nolock,
  intrusive_erase_nolock,
}

module _ {K V : Type 0} (eq : K → K → Bool) where
  -- A node without followers goes in as its key and value do.
  pub intrusive_put_nolock-put_nolock :
      (c : List (K × V)) (k : K) (v : V)
      → intrusive_put_nolock eq c k ((k, v), []) ≡ put_nolock eq c k v
  unfolding intrusive_put_nolock put_nolock
  intrusive_put_nolock-put_nolock [] k v = refl
  intrusive_put_nolock-put_nolock ((i, w) ∷ c) k v = rw (intrusive_put_nolock-put_nolock c k v) refl

  -- The intrusive `erase` leaves the chain that the plain one leaves.
  pub intrusive_erase_nolock-erase_nolock :
      (c : List (K × V)) (k : K)
      → let (r, o, c') = intrusive_erase_nolock eq c k in (r, c') ≡ erase_nolock eq c k
  unfolding intrusive_erase_nolock erase_nolock
  intrusive_erase_nolock-erase_nolock [] k = refl
  intrusive_erase_nolock-erase_nolock ((i, w) ∷ c) k = elim (Bool-cases (eq i k)) [
    | inl e ↦ rw e refl
    | inr e ↦ rw e (ap (λ p. (p.0, (i, w) ∷ p.1)) (intrusive_erase_nolock-erase_nolock c k))
  ]

  -- The intrusive `exchange` of a node without followers cuts off the chain behind the node of the
  -- key: the nodes `back` are no more in the chain, and hang on the node that the caller gets.
  pub intrusive_exchange_nolock_lem :
      (front back : List (K × V)) (j k : K) (w v : V)
      → get_nolock eq front k ≡ none
      → eq j k ≡ true
      → intrusive_exchange_nolock eq (front ++ ((j, w) ∷ back)) k ((k, v), [])
        ≡ (true, ((j, w), back), front ++ ((k, v) ∷ []))
  unfolding intrusive_exchange_nolock get_nolock
  intrusive_exchange_nolock_lem [] back j k w v a e = rw e refl
  intrusive_exchange_nolock_lem ((i, u) ∷ front) back j k w v a e = elim (Bool-cases (eq i k)) [
    | inl f ↦ absurd (cc (rw f at a))
    | inr f ↦
        let rest : get_nolock eq front k ≡ none = rw f at a in
        rw (f, intrusive_exchange_nolock_lem front back j k w v rest e) refl
  ]
