-- ===== src/EndPoint/Scan.antt =====
-- The parts of `EndPoint::parseFromString` of src/tcp/endpoint.cpp: the host before the colon, and
-- the number behind it.
use sofa_bolt_cpp.Base.{
  ℕ, zero, suc, ◌+◌, ◌-◌, ◌*◌, ◌/◌, ◌%◌, ◌^◌, ◌≤◌, ◌<◌, ◌≡◌, refl, ap, sym, ◌∙◌, inl, inr, true,
  false, ◌&&◌, ◌||◌, Option, none, some, List, [], ◌∷◌, ◌++◌, arith, ltb, leb, ◌==◌, Bool-cases,
  Option-cases, length,
}
use sofa_bolt_cpp.Http.Request.{decimal, digits}
use sofa_bolt_cpp.EndPoint.{
  scan_host, is_digit, is_space, skip_spaces, read_sign, read_digits, starts_digit, long_bits,
  strtol,
}

-- A host's text has no colon in it.
abbrev pub NoColon : List ℕ → Type 0
NoColon [] = Unit {0}
NoColon (c ∷ cs) = ((c == 58) ≡ false) × NoColon cs

pub scan_host-append :
    (i : ℕ) (host p : List ℕ)
    → NoColon host
    → i + length host ≤ 63
    → scan_host i (host ++ (58 ∷ p)) ≡ some (host, p)
unfolding scan_host
scan_host-append i [] p ok short = refl
scan_host-append i (c ∷ host) p ok short =
    let later : leb 64 (suc i) ≡ false = ground arith in
    rw (ok.0, later, scan_host-append (suc i) host p ok.1 (omega arith)) refl

some_injective :
    {x y : List ℕ × List ℕ} → ◌≡◌ {A = Option (List ℕ × List ℕ)} (some x) (some y) → x ≡ y
some_injective {x} e = ap (λ o. elim o [ none ↦ x | some z ↦ z ]) e

-- What the loop finds is the text before the first colon, at most 63 bytes of it.
pub scan_host-found :
    (i : ℕ) (str : List ℕ) (r : List ℕ × List ℕ)
    → i ≤ 63
    → scan_host i str ≡ some r
    → (str ≡ r.0 ++ (58 ∷ r.1)) × NoColon r.0 × (i + length r.0 ≤ 63)
unfolding scan_host
scan_host-found i [] r low e = absurd (cc e)
scan_host-found i (c ∷ p) r low e = elim (Bool-cases (c == 58)) [
  | inl f ↦
      let done : ◌≡◌ {A = Option (List ℕ × List ℕ)} (some ([], p)) (some r) = rw f at e in
      let same : ◌≡◌ {A = List ℕ × List ℕ} ([], p) r = some_injective done in
      let colon : c ≡ 58 = ground arith in
      rw (← same) (ap (λ x. x ∷ p) colon, tt, omega (arith, low))
  | inr f ↦ elim (Bool-cases (leb 64 (suc i))) [
    | inl g ↦ absurd (cc (rw (f, g) at e))
    | inr g ↦ elim (Option-cases (scan_host (suc i) p)) [
      | inl h ↦ absurd (cc (rw (f, g, h) at e))
      | inr (t, h) ↦
          let done : ◌≡◌ {A = Option (List ℕ × List ℕ)} (some (c ∷ t.0, t.1)) (some r) =
            rw (f, g, h) at e in
          let same : ◌≡◌ {A = List ℕ × List ℕ} (c ∷ t.0, t.1) r = some_injective done in
          let (text, plain, short) = scan_host-found (suc i) p t (ground arith) h in
          rw (← same) (ap (◌∷◌ c) text, (f, plain), omega (arith, short))
    ]
  ]
]

-- The digits that are printed for a number are read as that number.
digit-lt : (n : ℕ) → n < 10 → (is_digit (48 + n) ≡ true) × ((48 + n) - 48 ≡ n)
unfolding is_digit
digit-lt n h = (ground arith, omega arith)

read_digits-cons :
    (m n : ℕ) (text : List ℕ)
    → n < 10
    → read_digits m ((48 + n) ∷ text) ≡ read_digits (m * 10 + n) text
unfolding read_digits
read_digits-cons m n text h =
    let (digit, same) = digit-lt n h in rw digit (ap (λ x. read_digits (m * 10 + x) text) same)

read_digits-digits :
    (fuel n : ℕ) (text : List ℕ)
    → n < fuel
    → read_digits 0 (digits fuel n text) ≡ read_digits n text
read_digits-digits zero n text h = absurd (omega arith)
read_digits-digits (suc fuel) n text h = elim (Bool-cases (ltb n 10)) [
  | inl f ↦
      rw f (read_digits-cons 0 n text (ground arith) ∙ ap (λ x. read_digits x text) (omega arith))
  | inr f ↦
      let big : 10 ≤ n = ground arith in
      rw f (
        read_digits-digits fuel (n / 10) ((48 + n % 10) ∷ text) (omega (arith, big))
        ∙ read_digits-cons (n / 10) (n % 10) text (omega arith)
        ∙ ap (λ x. read_digits x text) (omega arith))
]

read_digits-nil : (n : ℕ) → read_digits n [] ≡ (n, [])
unfolding read_digits
read_digits-nil n = refl

-- The text of a number starts with a digit, which is no space and no sign.
digits-start :
    (fuel n : ℕ) (text : List ℕ)
    → n < fuel
    → (d : ℕ) × (cs : List ℕ) × (d < 10) × (digits fuel n text ≡ (48 + d) ∷ cs)
digits-start zero n text h = absurd (omega arith)
digits-start (suc fuel) n text h = elim (Bool-cases (ltb n 10)) [
  | inl f ↦ (n, text, ground arith, rw f refl)
  | inr f ↦
      let big : 10 ≤ n = ground arith in
      let (d, cs, low, e) =
        digits-start fuel (n / 10) ((48 + n % 10) ∷ text) (omega (arith, big)) in
      (d, cs, low, rw f e)
]

strtol-cons :
    (d : ℕ) (cs : List ℕ)
    → d < 10
    → strtol ((48 + d) ∷ cs)
      ≡ (let (n, end) = read_digits 0 ((48 + d) ∷ cs) in some (long_bits false n, end))
unfolding strtol skip_spaces is_space read_sign starts_digit
strtol-cons d cs h =
    let space : (48 + d == 32 || (leb 9 (48 + d) && leb (48 + d) 13)) ≡ false = ground arith in
    let minus : (48 + d == 45) ≡ false = ground arith in
    let plus : (48 + d == 43) ≡ false = ground arith in
    rw (space, minus, plus, (digit-lt d h).0) refl

long_bits-small : (n : ℕ) → n < 2 ^ 63 → long_bits false n ≡ n
unfolding long_bits
long_bits-small n h = omega (arith, h)

-- `strtol` reads the text of a number that a `long` can hold as that number.
pub strtol-decimal : (n : ℕ) → n < 2 ^ 63 → strtol (decimal n) ≡ some (n, [])
strtol-decimal n h =
    let (d, cs, low, e) = digits-start (suc n) n [] (omega arith) in
    ap strtol e
    ∙ strtol-cons d cs low
    ∙ ap (λ t. let (n, end) = read_digits 0 t in some (long_bits false n, end)) (sym e)
    ∙ ap (λ r. some (long_bits false r.0, r.1))
        (read_digits-digits (suc n) n [] (omega arith) ∙ read_digits-nil n)
    ∙ ap (λ m. some (m, [])) (long_bits-small n h)
