-- ===== src/Base/Counts.antt =====
-- Sums of a number over a sequence: how many elements there are of a kind.
use Prim.Native.Nat.{ℕ, zero, suc, ◌+◌}
use mathlib.Core.Path.{◌≡◌}
use mathlib.Core.List.{List, [], ◌∷◌, ◌++◌}
use mathlib.Core.Option.{some}
use native.Mathlib.Omega.{arith}
use sofa_bolt_cpp.Base.Lists.{get_elem?}
use sofa_bolt_cpp.Base.Tests.{if◌then◌else◌, ◌==◌}

-- Whether a number is another, as a number: `count (is x)` counts the places of `x`.
abbrev pub is : ℕ → ℕ → ℕ
is x y = if x == y then 1 else 0

module _ {ℓ} {A : Type ℓ} where
  abbrev pub count : (A → ℕ) → List A → ℕ
  count f [] = 0
  count f (x ∷ xs) = f x + count f xs

  -- The element at an index is changed; past the end, nothing is.
  abbrev pub update : ℕ → (A → A) → List A → List A
  update i g [] = []
  update zero g (x ∷ xs) = g x ∷ xs
  update (suc i) g (x ∷ xs) = x ∷ update i g xs

  pub count-append : (f : A → ℕ) (xs ys : List A) → count f (xs ++ ys) ≡ count f xs + count f ys
  count-append f [] ys = omega arith
  count-append f (x ∷ xs) ys = omega (arith, count-append f xs ys)

  pub count-split :
      (f : A → ℕ) (front : List A) (a : A) (back : List A)
      → count f (front ++ (a ∷ back)) ≡ f a + (count f front + count f back)
  count-split f [] a back = omega arith
  count-split f (x ∷ front) a back = omega (arith, count-split f front a back)

  pub count-update :
      (f : A → ℕ) (i : ℕ) (g : A → A) (xs : List A) (x : A)
      → get_elem? xs i ≡ some x
      → count f (update i g xs) + f x ≡ count f xs + f (g x)
  count-update f i g [] x e = absurd (cc e)
  count-update f zero g (y ∷ xs) x e = let e' : y ≡ x = cc e in rw e' (omega arith)
  count-update f (suc i) g (y ∷ xs) x e = omega (arith, count-update f i g xs x e)
