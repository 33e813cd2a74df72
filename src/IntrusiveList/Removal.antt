-- ===== src/IntrusiveList/Removal.antt =====
-- `remove`, `pop_front` and `pop_back` of include/common/intrusive_list.h, each run alone.
use sofa_bolt_cpp.Base.{
  ℕ, suc, ◌≡◌, ap, subst, sym, ◌∙◌, false, ◌||◌, some, List, [], ◌∷◌, ◌++◌, append-nil,
  if◌then◌else◌, ◌==◌,
}
use sofa_bolt_cpp.IntrusiveList.{
  IntrusiveList, after_remove, returns, retries, remove_once, remove_round, pop_front_round,
  pop_back_round, remove, pop_front, pop_back,
}
use sofa_bolt_cpp.IntrusiveList.Chain.{Distinct, last, first, NotIn-append, eq_sym, Place}
use sofa_bolt_cpp.IntrusiveList.Calls.{
  Holds, repeat-returns, after_removing, distinct, place, call-removed, after_removing-Holds,
}

last-nonzero : (a : ℕ) (xs ys : List ℕ) → Distinct (a ∷ xs ++ ys) → (last a xs == 0) ≡ false
last-nonzero a [] ys (h, _, _) = h
last-nonzero a (x ∷ xs) ys (_, _, d) = last-nonzero x xs ys d

first-nonzero :
    (xs back : List ℕ) (b : ℕ) → Distinct (xs ++ (back ++ (b ∷ []))) → (first back b == 0) ≡ false
first-nonzero [] [] b (h, _, _) = h
first-nonzero [] (x ∷ back) b (h, _, _) = h
first-nonzero (x ∷ xs) back b (_, _, d) = first-nonzero xs back b d

module _ (s : IntrusiveList) (front : List ℕ) (c : ℕ) (back : List ℕ) (fuel : ℕ)
    (holds : Holds s (front ++ (c ∷ back))) where
  nonzero_before : (s.links.prev c == 0) ≡ false
  nonzero_before =
      subst (λ z. (z == 0) ≡ false) (sym (Place.before (place s front c back holds)))
        (last-nonzero s.header front (c ∷ back ++ (s.tail ∷ [])) (distinct s front c back holds))

  nonzero_after : (s.links.next c == 0) ≡ false
  nonzero_after =
      subst (λ z. (z == 0) ≡ false) (sym (Place.after (place s front c back holds)))
        (after_c (s.header ∷ front) (distinct s front c back holds))
    where
      after_c :
          (xs : List ℕ)
          → Distinct (xs ++ (c ∷ back ++ (s.tail ∷ [])))
          → (first back s.tail == 0) ≡ false
      after_c [] (_, _, d) = first-nonzero [] back s.tail d
      after_c (x ∷ xs) (_, _, d) = after_c xs d

  -- A node of the list, wherever it stands, is taken out at the first try, and the others stay in their
  -- order.
  pub remove-Holds :
      (remove (suc fuel) c s ≡ some (c, after_removing s front c back))
      × Holds (after_removing s front c back) (front ++ back)
  unfolding remove remove_round
  remove-Holds =
      let p = place s front c back holds in
      (
        repeat-returns (remove_round c) fuel c s (after_removing s front c back) (
            ap
              (λ b.
                if b
                then returns 0 s
                else after_remove c s (remove_once (s.links.prev c) (s.links.next c) c s.links))
              (ap (λ b. b || (s.links.next c == 0)) nonzero_before ∙ nonzero_after)
            ∙ ap (λ z. after_remove c s (remove_once z (s.links.next c) c s.links)) p.before
            ∙ ap (λ z. after_remove c s (remove_once (last s.header front) z c s.links)) p.after
            ∙ ap (after_remove c s) (call-removed s front c back holds)),
        after_removing-Holds s front c back holds,
      )

module _ (s : IntrusiveList) (c : ℕ) (xs : List ℕ) (fuel : ℕ) where
  -- The first node of the list is taken out and returned.
  pub pop_front-Holds :
      Holds s (c ∷ xs)
      → (pop_front (suc fuel) s ≡ some (c, after_removing s [] c xs))
        × Holds (after_removing s [] c xs) xs
  unfolding pop_front pop_front_round
  pop_front-Holds holds =
      let p = place s [] c xs holds in
      let (_, (_, h_out), (_, c_out, _)) = distinct s [] c xs holds in
      let not_tail : (c == s.tail) ≡ false =
        eq_sym s.tail c (NotIn-append c xs (s.tail ∷ []) c_out).1.0 in
      (
        repeat-returns pop_front_round fuel c s (after_removing s [] c xs) (
            ap
              (λ z.
                if z == s.tail
                then returns 0 s
                else if s.links.next z == 0
                then retries s
                else after_remove z s (remove_once s.header (s.links.next z) z s.links))
              p.from
            ∙ ap
                (λ b.
                  if b
                  then returns 0 s
                  else if s.links.next c == 0
                  then retries s
                  else after_remove c s (remove_once s.header (s.links.next c) c s.links))
                not_tail
            ∙ ap
                (λ b.
                  if b
                  then retries s
                  else after_remove c s (remove_once s.header (s.links.next c) c s.links))
                (nonzero_after s [] c xs fuel holds)
            ∙ ap (λ z. after_remove c s (remove_once s.header z c s.links)) p.after
            ∙ ap (after_remove c s) (call-removed s [] c xs holds)),
        after_removing-Holds s [] c xs holds,
      )

  -- The last node of the list is taken out and returned.
  pub pop_back-Holds :
      Holds s (xs ++ (c ∷ []))
      → (pop_back (suc fuel) s ≡ some (c, after_removing s xs c []))
        × Holds (after_removing s xs c []) xs
  unfolding pop_back pop_back_round
  pop_back-Holds holds =
      let p = place s xs c [] holds in
      let (_, h_out, _) = distinct s xs c [] holds in
      let not_header : (c == s.header) ≡ false =
        (NotIn-append s.header xs (c ∷ s.tail ∷ []) h_out).1.0 in
      (
        repeat-returns pop_back_round fuel c s (after_removing s xs c []) (
            ap
              (λ z.
                if z == s.header
                then returns 0 s
                else if s.links.prev z == 0
                then retries s
                else after_remove z s (remove_once (s.links.prev z) s.tail z s.links))
              p.to
            ∙ ap
                (λ b.
                  if b
                  then returns 0 s
                  else if s.links.prev c == 0
                  then retries s
                  else after_remove c s (remove_once (s.links.prev c) s.tail c s.links))
                not_header
            ∙ ap
                (λ b.
                  if b
                  then retries s
                  else after_remove c s (remove_once (s.links.prev c) s.tail c s.links))
                (nonzero_before s xs c [] fuel holds)
            ∙ ap (λ z. after_remove c s (remove_once z s.tail c s.links)) p.before
            ∙ ap (after_remove c s) (call-removed s xs c [] holds)),
        subst (Holds (after_removing s xs c [])) (append-nil xs)
            (after_removing-Holds s xs c [] holds),
      )
