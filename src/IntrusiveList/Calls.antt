-- ===== src/IntrusiveList/Calls.antt =====
-- The calls of include/common/intrusive_list.h, each run alone, on the list of nodes that they hold.
use sofa_bolt_cpp.Base.{
  ℕ, suc, ◌-◌, ◌≡◌, refl, ap, subst, sym, ◌∙◌, true, false, Option, none, some, List, [], ◌∷◌, ◌++◌,
  append_assoc, if◌then◌else◌, ◌==◌, eq→==, length, length-append, arith,
}
use sofa_bolt_cpp.IntrusiveList.{
  Links, IntrusiveList, after_insert, returns, retries, stuck, Tried, insert_once, remove_once,
  push_front_round, repeat, push_front,
}
use sofa_bolt_cpp.IntrusiveList.Chain.{
  Chain, NotIn, Distinct, last, first, NotIn-first, eq_sym, Place, Chain-Place, Chain-remove,
  Chain-insert,
}
use sofa_bolt_cpp.IntrusiveList.Changes.{
  removed, inserted, remove_once-removed, insert_once-inserted, removed-Agree, inserted-Agree,
}

-- The list holds the nodes `xs`, from the front.
pub record Holds (s : IntrusiveList) (xs : List ℕ) : Type 0 where
  pub chain : Chain s.links s.header xs s.tail
  pub distinct : Distinct (s.header ∷ xs ++ (s.tail ∷ []))
  pub counted : s.size ≡ length xs

NotIn-remove :
    (y : ℕ) (xs : List ℕ) (c : ℕ) (ys : List ℕ) → NotIn y (xs ++ (c ∷ ys)) → NotIn y (xs ++ ys)
NotIn-remove y [] c ys h = h.1
NotIn-remove y (x ∷ xs) c ys h = (h.0, NotIn-remove y xs c ys h.1)

Distinct-remove :
    (xs : List ℕ) (c : ℕ) (ys : List ℕ) → Distinct (xs ++ (c ∷ ys)) → Distinct (xs ++ ys)
Distinct-remove [] c ys d = let (_, _, e) = d in e
Distinct-remove (x ∷ xs) c ys d =
    let (z, out, e) = d in (z, NotIn-remove x xs c ys out, Distinct-remove xs c ys e)

pub repeat-returns :
    (round : IntrusiveList → Tried) (fuel c : ℕ) (s s' : IntrusiveList)
    → round s ≡ returns c s'
    → repeat round (suc fuel) s ≡ some (c, s')
unfolding repeat
repeat-returns round fuel c s s' e =
    ap
      (λ (r : Tried).
        let result : Option (ℕ × IntrusiveList) = elim r [
          | returns c s' ↦ some (c, s')
          | retries s' ↦ repeat round fuel s'
          | stuck ↦ none
        ] in
        result)
      e

abbrev pub after_push_front : IntrusiveList → List ℕ → ℕ → IntrusiveList
after_push_front s xs c = record s {
  links = inserted s.header (first xs s.tail) c s.links;
  size = suc s.size;
}

Chain-first :
    (l : Links) (a : ℕ) (xs : List ℕ) (b : ℕ)
    → Chain l a xs b
    → (l.next a ≡ first xs b) × (l.prev (first xs b) ≡ a)
Chain-first l a [] b (e, f) = (e, f)
Chain-first l a (x ∷ xs) b (e, f, _) = (e, f)

inserted-links :
    (p n c : ℕ) (l : Links)
    → (p == c) ≡ false
    → (n == c) ≡ false
    → ((inserted p n c l).next p ≡ c)
      × ((inserted p n c l).prev c ≡ p)
      × ((inserted p n c l).next c ≡ n)
      × ((inserted p n c l).prev n ≡ c)
inserted-links p n c l pc nc =
    let pp : (p == p) ≡ true = ground arith in
    let nn : (n == n) ≡ true = ground arith in
    let cc' : (c == c) ≡ true = ground arith in
    (rw pp refl, rw (eq_sym n c nc, cc') refl, rw (eq_sym p c pc, cc') refl, rw nn refl)

-- A node that is in no list and not `nullptr` is put in front of the nodes of the list, at the first try.
pub push_front-Holds :
    (s : IntrusiveList) (xs : List ℕ) (c fuel : ℕ)
    → Holds s xs
    → (c == 0) ≡ false
    → s.links.prev c ≡ 0
    → NotIn c (s.header ∷ xs ++ (s.tail ∷ []))
    → (push_front (suc fuel) c s ≡ some (c, after_push_front s xs c))
      × Holds (after_push_front s xs c) (c ∷ xs)
unfolding push_front push_front_round
push_front-Holds s xs c fuel holds some_node unused out =
    let (n_eq, to) = Chain-first s.links s.header xs s.tail holds.chain in
    let n = first xs s.tail in
    let pc : (s.header == c) ≡ false = out.0 in
    let nc : (n == c) ≡ false = eq_sym c n (NotIn-first c s.tail xs out.1) in
    let call = insert_once-inserted s.header n c s.links to n_eq unused pc nc in
    let (h0, h_out, d) = holds.distinct in
    (
      rw some_node (
          repeat-returns (push_front_round c) fuel c s (after_push_front s xs c) (
            ap
              (λ b.
                if b
                then after_insert c s (insert_once s.header (s.links.next s.header) c s.links)
                else returns 0 s)
              (eq→== (s.links.prev c) 0 unused)
            ∙ ap (λ z. after_insert c s (insert_once s.header z c s.links)) n_eq
            ∙ ap (after_insert c s) call)),
      record {
        chain =
            Chain-insert s.links (after_push_front s xs c).links s.header c xs s.tail holds.distinct
              out (inserted-Agree s.header n c s.links) (inserted-links s.header n c s.links pc nc)
              holds.chain;
        distinct = (h0, (eq_sym s.header c pc, h_out), (some_node, out.1, d));
        counted = omega (arith, holds.counted);
      },
    )

abbrev pub after_removing : IntrusiveList → List ℕ → ℕ → List ℕ → IntrusiveList
after_removing s front c back = record s {
  links = removed (last s.header front) (first back s.tail) c s.links;
  size = s.size - 1;
}

-- What a node of a list has around it, and the list without it.
module _ (s : IntrusiveList) (front : List ℕ) (c : ℕ) (back : List ℕ)
    (holds : Holds s (front ++ (c ∷ back))) where
  pub distinct : Distinct (s.header ∷ front ++ (c ∷ back ++ (s.tail ∷ [])))
  distinct =
      subst (λ l. Distinct (s.header ∷ l)) (append_assoc front (c ∷ back) (s.tail ∷ []))
        holds.distinct

  pub place : Place s.links (last s.header front) (first back s.tail) c
  place = Chain-Place s.links s.header front c back s.tail holds.chain

  before_ne : (last s.header front == c) ≡ false
  before_ne = last-ne s.header front distinct
    where
      last-ne :
          (a : ℕ) (xs : List ℕ)
          → Distinct (a ∷ xs ++ (c ∷ back ++ (s.tail ∷ [])))
          → (last a xs == c) ≡ false
      last-ne a [] (_, (h, _), _) = eq_sym c a h
      last-ne a (x ∷ xs) (_, _, d) = last-ne x xs d

  after_ne : (first back s.tail == c) ≡ false
  after_ne = first-ne (s.header ∷ front) distinct
    where
      first-ne :
          (xs : List ℕ)
          → Distinct (xs ++ (c ∷ back ++ (s.tail ∷ [])))
          → (first back s.tail == c) ≡ false
      first-ne [] (_, out, _) = eq_sym c (first back s.tail) (NotIn-first c s.tail back out)
      first-ne (x ∷ xs) (_, _, d) = first-ne xs d

  pub call-removed :
      remove_once (last s.header front) (first back s.tail) c s.links
      ≡ some (true, removed (last s.header front) (first back s.tail) c s.links)
  call-removed =
      remove_once-removed (last s.header front) (first back s.tail) c s.links place before_ne
        after_ne

  pub after_removing-Holds : Holds (after_removing s front c back) (front ++ back)
  after_removing-Holds =
      let p = last s.header front in
      let n = first back s.tail in
      let pp : (p == p) ≡ true = ground arith in
      let nn : (n == n) ≡ true = ground arith in
      record {
        chain =
            Chain-remove s.links (removed p n c s.links) s.header front c back s.tail distinct
              (removed-Agree p n c s.links) (rw pp refl) (rw nn refl) holds.chain;
        distinct =
            subst (λ l. Distinct (s.header ∷ l)) (sym (append_assoc front back (s.tail ∷ [])))
              (Distinct-remove (s.header ∷ front) c (back ++ (s.tail ∷ [])) distinct);
        counted =
            omega (arith, holds.counted, length-append front (c ∷ back), length-append front back);
      }
