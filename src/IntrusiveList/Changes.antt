-- ===== src/IntrusiveList/Changes.antt =====
-- `insert_once` and `remove_once` of include/common/intrusive_list.h, run with no other thread between
-- their accesses.
use sofa_bolt_cpp.Base.{
  ℕ, ◌≡◌, refl, ap, ◌∙◌, Bool, true, false, Option, none, some, if◌then◌else◌, ◌==◌, eq→==,
}
use sofa_bolt_cpp.IntrusiveList.{
  Links, set_prev, set_next, cas_prev, cas_next, insert_last, insert_linked, insert_owned,
  insert_once, remove_last, remove_unlinked, remove_cleared, remove_owned, remove_once,
}
use sofa_bolt_cpp.IntrusiveList.Chain.{Place, Agree}

cas_prev-true : (p e q : ℕ) (l : Links) → l.prev p ≡ e → cas_prev p e q l ≡ (true, set_prev p q l)
unfolding cas_prev
cas_prev-true p e q l h =
    ap (λ b. if b then (true, set_prev p q l) else (false, l)) (eq→== (l.prev p) e h)

cas_next-true : (p e q : ℕ) (l : Links) → l.next p ≡ e → cas_next p e q l ≡ (true, set_next p q l)
unfolding cas_next
cas_next-true p e q l h =
    ap (λ b. if b then (true, set_next p q l) else (false, l)) (eq→== (l.next p) e h)

-- The links when a node is taken out, and when it is put in.
abbrev pub removed : ℕ → ℕ → ℕ → Links → Links
removed p n c l = set_prev n p (set_next p n (set_next c 0 (set_prev c 0 l)))

abbrev pub inserted : ℕ → ℕ → ℕ → Links → Links
inserted p n c l = set_prev n c (set_next p c (set_next c n (set_prev c p l)))

pub remove_once-removed :
    (p n c : ℕ) (l : Links)
    → Place l p n c
    → (p == c) ≡ false
    → (n == c) ≡ false
    → remove_once p n c l ≡ some (true, removed p n c l)
unfolding remove_once remove_owned remove_cleared remove_unlinked remove_last
remove_once-removed p n c l place pc nc =
    ap
      (λ b.
        let checked : Option (Bool × Links) =
          if l.next p == c then remove_owned p n c (cas_prev c p 0 l) else some (false, l) in
        if b then checked else some (false, l))
      (eq→== (l.prev n) c place.to)
    ∙ ap (λ b. if b then remove_owned p n c (cas_prev c p 0 l) else some (false, l))
        (eq→== (l.next p) c place.from)
    ∙ ap (remove_owned p n c) (cas_prev-true c p 0 l place.before)
    ∙ ap (remove_cleared p n c) (cas_next-true c n 0 (set_prev c 0 l) place.after)
    ∙ ap (remove_unlinked p n c)
        (cas_next-true p c n (set_next c 0 (set_prev c 0 l)) (rw pc place.from))
    ∙ ap
        (λ (r : Bool × Links).
          let last : Option (Bool × Links) = if r.0 then some (true, r.1) else none in last)
        (cas_prev-true n c p (set_next p n (set_next c 0 (set_prev c 0 l))) (rw nc place.to))

pub insert_once-inserted :
    (p n c : ℕ) (l : Links)
    → l.prev n ≡ p
    → l.next p ≡ n
    → l.prev c ≡ 0
    → (p == c) ≡ false
    → (n == c) ≡ false
    → insert_once p n c l ≡ some (true, inserted p n c l)
unfolding insert_once insert_owned insert_linked insert_last
insert_once-inserted p n c l to from unused pc nc =
    ap (λ b. if b then insert_owned p n c (cas_prev c 0 p l) else some (false, l))
      (eq→== (l.prev n) p to)
    ∙ ap (insert_owned p n c) (cas_prev-true c 0 p l unused)
    ∙ ap (insert_linked p n c) (cas_next-true p n c (set_next c n (set_prev c p l)) (rw pc from))
    ∙ ap
        (λ (r : Bool × Links).
          let last : Option (Bool × Links) = if r.0 then some (true, r.1) else none in last)
        (cas_prev-true n p c (set_next p c (set_next c n (set_prev c p l))) (rw nc to))

-- Nothing but these links changes.
pub removed-Agree : (p n c : ℕ) (l : Links) → Agree l (removed p n c l) p n c
removed-Agree p n c l = ((λ x xp xc. rw (xp, xc) refl), (λ x xn xc. rw (xn, xc) refl))

pub inserted-Agree : (p n c : ℕ) (l : Links) → Agree l (inserted p n c l) p n c
inserted-Agree p n c l = ((λ x xp xc. rw (xp, xc) refl), (λ x xn xc. rw (xn, xc) refl))
