-- ===== src/IntrusiveList/Chain.antt =====
-- Which nodes a list of include/common/intrusive_list.h holds, in order.
use sofa_bolt_cpp.Base.{ℕ, ◌≡◌, ◌∙◌, false, List, [], ◌∷◌, ◌++◌, ◌==◌, arith}
use sofa_bolt_cpp.IntrusiveList.{Links}

-- From `a` the links lead through `xs` to `b` and back.
abbrev pub Chain : Links → ℕ → List ℕ → ℕ → Type 0
Chain l a [] b = (l.next a ≡ b) × (l.prev b ≡ a)
Chain l a (x ∷ xs) b = (l.next a ≡ x) × (l.prev x ≡ a) × Chain l x xs b

abbrev pub NotIn : ℕ → List ℕ → Type 0
NotIn y [] = Unit {0}
NotIn y (x ∷ xs) = ((x == y) ≡ false) × NotIn y xs

-- All distinct, and none of them `nullptr`.
abbrev pub Distinct : List ℕ → Type 0
Distinct [] = Unit {0}
Distinct (x ∷ xs) = ((x == 0) ≡ false) × NotIn x xs × Distinct xs

-- The links agree, but for a next of `p` and a prev of `n`.
abbrev pub Agree : Links → Links → ℕ → ℕ → ℕ → Type 0
Agree l l' p n c =
    ((x : ℕ) → (x == p) ≡ false → (x == c) ≡ false → l'.next x ≡ l.next x)
    × ((x : ℕ) → (x == n) ≡ false → (x == c) ≡ false → l'.prev x ≡ l.prev x)

-- A chain none of whose links changed.
pub Chain-Agree :
    (l l' : Links) (p n c a : ℕ) (xs : List ℕ) (b : ℕ)
    → Agree l l' p n c
    → NotIn p (a ∷ xs)
    → NotIn c (a ∷ xs)
    → NotIn n (xs ++ (b ∷ []))
    → NotIn c (xs ++ (b ∷ []))
    → Chain l a xs b
    → Chain l' a xs b
Chain-Agree l l' p n c a [] b (nexts, prevs) h i j k (e, f) =
    (nexts a h.0 i.0 ∙ e, prevs b j.0 k.0 ∙ f)
Chain-Agree l l' p n c a (x ∷ xs) b (nexts, prevs) h i j k (e, f, rest) = (
  nexts a h.0 i.0 ∙ e,
  prevs x j.0 k.0 ∙ f,
  Chain-Agree l l' p n c x xs b (nexts, prevs) h.1 i.1 j.1 k.1 rest,
)

-- The node before what follows `a` and `xs`, and the node that starts `xs` or `b`.
abbrev pub last : ℕ → List ℕ → ℕ
last a [] = a
last a (x ∷ xs) = last x xs

abbrev pub first : List ℕ → ℕ → ℕ
first [] b = b
first (x ∷ xs) b = x

pub NotIn-append : (y : ℕ) (xs ys : List ℕ) → NotIn y (xs ++ ys) → NotIn y xs × NotIn y ys
NotIn-append y [] ys h = (tt, h)
NotIn-append y (x ∷ xs) ys h = let (l, r) = NotIn-append y xs ys h.1 in ((h.0, l), r)

pub eq_sym : (x y : ℕ) → (x == y) ≡ false → (y == x) ≡ false
eq_sym x y h = ground arith

pub NotIn-last : (a x : ℕ) (xs ys : List ℕ) → NotIn a (x ∷ xs ++ ys) → (a == last x xs) ≡ false
NotIn-last a x [] ys h = eq_sym x a h.0
NotIn-last a x (y ∷ xs) ys h = NotIn-last a y xs ys h.1

pub NotIn-first : (a b : ℕ) (xs : List ℕ) → NotIn a (xs ++ (b ∷ [])) → (a == first xs b) ≡ false
NotIn-first a b [] h = eq_sym b a h.0
NotIn-first a b (x ∷ xs) h = eq_sym x a h.0

-- What a chain says of a node in it.
pub record Place (l : Links) (p n c : ℕ) : Type 0 where
  pub before : l.prev c ≡ p
  pub after : l.next c ≡ n
  pub from : l.next p ≡ c
  pub to : l.prev n ≡ c

pub Chain-Place :
    (l : Links) (a : ℕ) (front : List ℕ) (c : ℕ) (back : List ℕ) (b : ℕ)
    → Chain l a (front ++ (c ∷ back)) b
    → Place l (last a front) (first back b) c
Chain-Place l a [] c [] b (e, f, (g, h)) = record { before = f; after = g; from = e; to = h }
Chain-Place l a [] c (x ∷ back) b (e, f, (g, h, rest)) = record {
  before = f;
  after = g;
  from = e;
  to = h;
}
Chain-Place l a (y ∷ front) c back b (e, f, rest) = Chain-Place l y front c back b rest

-- A node is taken out: its neighbours are linked, and nothing else but its own links changed.
pub Chain-remove :
    (l l' : Links) (a : ℕ) (front : List ℕ) (c : ℕ) (back : List ℕ) (b : ℕ)
    → Distinct (a ∷ front ++ (c ∷ back ++ (b ∷ [])))
    → Agree l l' (last a front) (first back b) c
    → l'.next (last a front) ≡ first back b
    → l'.prev (first back b) ≡ last a front
    → Chain l a (front ++ (c ∷ back)) b
    → Chain l' a (front ++ back) b
Chain-remove l l' a [] c [] b d g e f chain = (e, f)
Chain-remove l l' a [] c (x ∷ back) b d g e f (_, _, (_, _, rest)) =
    let (_, (_, a_out), (_, c_out, (_, x_out, _))) = d in
    (
      e,
      f,
      Chain-Agree l l' a x c x back b g (NotIn-append a (x ∷ back) (b ∷ []) a_out).0
          (NotIn-append c (x ∷ back) (b ∷ []) c_out).0 x_out c_out.1 rest,
    )
Chain-remove l l' a (y ∷ front) c back b d (nexts, prevs) e f (g, h, rest) =
    let (_, a_out, d') = d in
    let (_, y_out, _) = d' in
    let a_c : (a == c) ≡ false =
      eq_sym c a (NotIn-append a (y ∷ front) (c ∷ back ++ (b ∷ [])) a_out).1.0 in
    let y_c : (y == c) ≡ false =
      eq_sym c y (NotIn-append y front (c ∷ back ++ (b ∷ [])) y_out).1.0 in
    let y_n = NotIn-first y b back (NotIn-append y front (c ∷ back ++ (b ∷ [])) y_out).1.1 in
    (
      nexts a (NotIn-last a y front (c ∷ back ++ (b ∷ [])) a_out) a_c ∙ g,
      prevs y y_n y_c ∙ h,
      Chain-remove l l' y front c back b d' (nexts, prevs) e f rest,
    )

-- A node is put in behind the first one.
pub Chain-insert :
    (l l' : Links) (a c : ℕ) (xs : List ℕ) (b : ℕ)
    → Distinct (a ∷ xs ++ (b ∷ []))
    → NotIn c (a ∷ xs ++ (b ∷ []))
    → Agree l l' a (first xs b) c
    → (l'.next a ≡ c) × (l'.prev c ≡ a) × (l'.next c ≡ first xs b) × (l'.prev (first xs b) ≡ c)
    → Chain l a xs b
    → Chain l' a (c ∷ xs) b
Chain-insert l l' a c [] b d out g (e, f, h, k) chain = (e, f, (h, k))
Chain-insert l l' a c (x ∷ xs) b d out g (e, f, h, k) (_, _, rest) =
    let (_, a_out, (_, x_out, _)) = d in
    (
      e,
      f,
      (
        h,
        k,
        Chain-Agree l l' a x c x xs b g (NotIn-append a (x ∷ xs) (b ∷ []) a_out).0
            (NotIn-append c (x ∷ xs) (b ∷ []) out.1).0 x_out out.1.1 rest,
      ),
    )
