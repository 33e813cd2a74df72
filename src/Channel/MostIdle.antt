-- ===== src/Channel/MostIdle.antt =====
-- src/channel/channel.cpp: which sub-channel of a pool is taken.
use sofa_bolt_cpp.Base.{
  ℕ, suc, ◌≤◌, ◌<◌, ◌≡◌, ◌⊎◌, refl, ap, ap₂, sym, subst, ◌∙◌, inl, inr, Bool, true, false, not,
  ◌&&◌, Option, List, [], ◌∷◌, if◌then◌else◌, ltb, ltb→lt, ltb→le, arith,
}
use sofa_bolt_cpp.Channel.{SubChannel, is_own, most_idle}

-- A sub-channel that may be taken.
abbrev pub free : Option ℕ → ℕ → SubChannel → Bool
free own i c = not (is_own own i) && c.is_active

-- All that may be taken of those from the index `i` on are shared by `n` threads at least.
pub AllAtLeast : Option ℕ → ℕ → ℕ → List SubChannel → Type 0
AllAtLeast own n i [] = Unit {0}
AllAtLeast own n i (c ∷ cs) =
    (free own i c ≡ false ⊎ n ≤ c.shared_num) × AllAtLeast own n (suc i) cs

-- Of the sub-channels `cs` from the index `i` on, `j` is one that may be taken, and `n` threads share
-- it.
pub data Takes (own : Option ℕ) (j n : ℕ) : ℕ → List SubChannel → Type 0 where
  here :
      (c : SubChannel) (cs : List SubChannel)
      → free own j c ≡ true
      → c.shared_num ≡ n
      → Takes own j n j (c ∷ cs)
  there :
      (i : ℕ) (c : SubChannel) (cs : List SubChannel)
      → Takes own j n (suc i) cs
      → Takes own j n i (c ∷ cs)

-- What the loop returns, from the best one so far: that one, or one of `cs` that fewer threads share.
pub record Chosen (own : Option ℕ) (i : ℕ) (cs : List SubChannel) (best least j n : ℕ)
    : Type 0 where
  pub found : ((j ≡ best) × (n ≡ least)) ⊎ (Takes own j n i cs × (n < least))
  pub all_at_least : AllAtLeast own n i cs
  pub not_more : n ≤ least

AllAtLeast-le :
    (own : Option ℕ) (a b i : ℕ) (cs : List SubChannel)
    → a ≤ b
    → AllAtLeast own b i cs
    → AllAtLeast own a i cs
unfolding AllAtLeast
AllAtLeast-le own a b i [] le h = tt
AllAtLeast-le own a b i (c ∷ cs) le (h, t) = (
  elim h [ inl e ↦ inl e | inr e ↦ inr (omega (arith, le, e)) ],
  AllAtLeast-le own a b (suc i) cs le t,
)

later :
    (own : Option ℕ) (i : ℕ) (c : SubChannel) (cs : List SubChannel) (best least : ℕ)
    → free own i c ≡ false ⊎ least ≤ c.shared_num
    → let (j, n) = most_idle own (suc i) cs best least in
      Chosen own (suc i) cs best least j n
      → Chosen own i
          (c ∷ cs)
          best
          least
          (most_idle own (suc i) cs best least).0
          (most_idle own (suc i) cs best least).1
unfolding AllAtLeast
later own i c cs best least e h = record {
  found = elim h.found [ inl f ↦ inl f | inr f ↦ inr (there i c cs f.0, f.1) ];
  all_at_least =
      (elim e [ inl f ↦ inl f | inr f ↦ inr (omega (arith, f, h.not_more)) ], h.all_at_least);
  not_more = h.not_more;
}

-- The three tests of a round.
by_tests :
    {A : Type 0} (P : A → Type 0) (own active less : Bool) (passed taken : A)
    → (own ≡ true → P passed)
    → (active ≡ false → P passed)
    → (less ≡ false → P passed)
    → (own ≡ false → active ≡ true → less ≡ true → P taken)
    → P (if own then passed else if not active then passed else if less then taken else passed)
by_tests P true active less p t f g h k = f refl
by_tests P false false less p t f g h k = g refl
by_tests P false true false p t f g h k = h refl
by_tests P false true true p t f g h k = k refl refl refl

-- The loop over the sub-channels returns the best one that it was given, if all that may be taken are
-- shared by as many threads at least; otherwise it returns one that may be taken, is shared by fewer,
-- and by no more than any other that may be taken.
pub most_idle-Chosen :
    (own : Option ℕ) (i : ℕ) (cs : List SubChannel) (best least : ℕ)
    → let (j, n) = most_idle own i cs best least in Chosen own i cs best least j n
unfolding most_idle AllAtLeast
most_idle-Chosen own i [] best least = record {
  found = inl (refl, refl);
  all_at_least = tt;
  not_more = omega arith;
}
most_idle-Chosen own i (c ∷ cs) best least =
    let h = most_idle-Chosen own (suc i) cs best least in
    by_tests (λ q. Chosen own i (c ∷ cs) best least q.0 q.1) (is_own own i) c.is_active
      (ltb c.shared_num least) (most_idle own (suc i) cs best least)
      (most_idle own (suc i) cs i c.shared_num)
      (λ e. later own i c cs best least (inl (ap (λ t. not t && c.is_active) e)) h)
      (λ e.
        later own i c cs best least
          (inl (ap (λ t. not (is_own own i) && t) e ∙ and-false (not (is_own own i)))) h)
      (λ e. later own i c cs best least (inr (ltb→le c.shared_num least e)) h)
      (λ e f l.
        taken (ap₂ (λ s t. not s && t) e f) (ltb→lt c.shared_num least l)
          (most_idle-Chosen own (suc i) cs i c.shared_num))
  where
    and-false : (b : Bool) → (b && false) ≡ false
    and-false true = refl
    and-false false = refl

    taken :
        free own i c ≡ true
        → c.shared_num < least
        → let (j, n) = most_idle own (suc i) cs i c.shared_num in
          Chosen own (suc i) cs i c.shared_num j n
          → let (j, n) = most_idle own (suc i) cs i c.shared_num in
            Chosen own i (c ∷ cs) best least j n
    taken e l h = record {
      found = elim h.found [
        | inl (f, g) ↦ inr (
          subst (λ j. Takes own j (most_idle own (suc i) cs i c.shared_num).1 i (c ∷ cs)) (sym f)
              (here c cs e (sym g)),
          omega (arith, g, l),
        )
        | inr (t, m) ↦ inr (there i c cs t, omega (arith, m, l))
      ];
      all_at_least = (inr h.not_more, h.all_at_least);
      not_more = omega (arith, h.not_more, l);
    }
