-- ===== src/Utils/Split.antt =====
-- Splitting a text, as include/common/utils.h does it.
use sofa_bolt_cpp.Base.{
  ℕ, ◌≡◌, refl, ap, ◌∙◌, sym, Bool, true, false, Bool-cases, inl, inr, List, [], ◌∷◌, ◌++◌,
  append_assoc, append-nil, if◌then◌else◌, ◌==◌, length, eq→==,
}
use sofa_bolt_cpp.Utils.{split_loop, string_split, num_loop, split_num}

abbrev some_read : List ℕ → Bool
some_read [] = false
some_read (x ∷ xs) = true

some_read-append : (xs : List ℕ) (c : ℕ) → some_read (xs ++ (c ∷ [])) ≡ true
some_read-append [] c = refl
some_read-append (x ∷ xs) c = refl

split_loop-∷ :
    (d : ℕ) (piece : List ℕ) (c : ℕ) (src : List ℕ)
    → split_loop d piece (c ∷ src)
      ≡ (if c == d then piece ∷ split_loop d [] src else split_loop d (piece ++ (c ∷ [])) src)
unfolding split_loop
split_loop-∷ d [] c src = refl
split_loop-∷ d (x ∷ piece) c src = refl

num_loop-length :
    (d : ℕ) (piece src : List ℕ)
    → num_loop d (some_read piece) src ≡ length (split_loop d piece src)
unfolding num_loop split_loop
num_loop-length d [] [] = refl
num_loop-length d (x ∷ piece) [] = refl
num_loop-length d piece (c ∷ src) =
    (elim (Bool-cases (c == d)) [
      | inl e ↦ rw (e, num_loop-length d [] src) refl
      | inr e ↦
          rw
            (
              e,
              ap (λ b. num_loop d b src) (sym (some_read-append piece c)),
              num_loop-length d (piece ++ (c ∷ [])) src,
            )
            refl
    ])
    ∙ ap length (sym (split_loop-∷ d piece c src))

-- `splitNum` is the number of pieces that `stringSplit` gives.
pub split_num-length : (src : List ℕ) (d : ℕ) → split_num src d ≡ length (string_split src d)
unfolding split_num string_split
split_num-length src d = num_loop-length d [] src

abbrev pub Lacks : ℕ → List ℕ → Type 0
Lacks d [] = Unit {0}
Lacks d (c ∷ cs) = ((c == d) ≡ false) × Lacks d cs

abbrev pub AllLack : ℕ → List (List ℕ) → Type 0
AllLack d [] = Unit {0}
AllLack d (p ∷ ps) = Lacks d p × AllLack d ps

-- Pieces with the delimiter behind each.
abbrev pub joined : ℕ → List (List ℕ) → List ℕ → List ℕ
joined d [] last = last
joined d (p ∷ ps) last = p ++ (d ∷ joined d ps last)

split_loop-Lacks :
    (d : ℕ) (piece cs rest : List ℕ)
    → Lacks d cs
    → split_loop d piece (cs ++ rest) ≡ split_loop d (piece ++ cs) rest
split_loop-Lacks d piece [] rest l = ap (λ p. split_loop d p rest) (sym (append-nil piece))
split_loop-Lacks d piece (c ∷ cs) rest l =
    split_loop-∷ d piece c (cs ++ rest)
    ∙ rw l.0 (
        split_loop-Lacks d (piece ++ (c ∷ [])) cs rest l.1
        ∙ ap (λ p. split_loop d p rest) (append_assoc piece (c ∷ []) cs))

split_loop-end : (d x : ℕ) (xs : List ℕ) → split_loop d (x ∷ xs) [] ≡ (x ∷ xs) ∷ []
unfolding split_loop
split_loop-end d x xs = refl

-- Pieces without the delimiter that are put together with it behind each are taken apart again, and
-- so is what stands behind the last delimiter, if anything does.
pub string_split-joined :
    (d : ℕ) (ps : List (List ℕ)) (x : ℕ) (last : List ℕ)
    → AllLack d ps
    → Lacks d (x ∷ last)
    → (string_split (joined d ps []) d ≡ ps)
      × (string_split (joined d ps (x ∷ last)) d ≡ ps ++ ((x ∷ last) ∷ []))
unfolding string_split split_loop
string_split-joined d [] x last a l = (
  refl,
  ap (split_loop d []) (sym (append-nil (x ∷ last)))
      ∙ split_loop-Lacks d [] (x ∷ last) [] l
      ∙ split_loop-end d x last,
)
string_split-joined d (p ∷ ps) x last a l =
    let (whole, more) = string_split-joined d ps x last a.1 l in
    (
      step (joined d ps []) ∙ ap (λ r. p ∷ r) whole,
      step (joined d ps (x ∷ last)) ∙ ap (λ r. p ∷ r) more,
    )
  where
    step : (rest : List ℕ) → split_loop d [] (p ++ (d ∷ rest)) ≡ p ∷ split_loop d [] rest
    step rest =
        split_loop-Lacks d [] p (d ∷ rest) a.0 ∙ split_loop-∷ d p d rest ∙ rw (eq→== d d refl) refl
