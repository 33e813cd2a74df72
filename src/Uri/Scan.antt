-- ===== src/Uri/Scan.antt =====
-- The loops of src/common/uri.cpp over characters that none of them stops at.
use sofa_bolt_cpp.Base.{
  ℕ, ◌+◌, ◌-◌, ◌*◌, ◌≤◌, ◌≡◌, refl, ap, ◌∙◌, sym, Bool, true, false, ◌||◌, ◌&&◌, Option, none, some,
  List, [], ◌∷◌, ◌++◌, append_assoc, append-nil, ◌==◌, arith, leb,
}
use native.Mathlib.Nat.{mul_comm, mul_assoc, mul-add}
use mathlib.Core.List.{reverse, reverse_aux, reverse-cons, reverse-append, reverse-reverse}
use sofa_bolt_cpp.Uri.{
  Uri, continue_on, action, Cursor, advance, authority, space, hash, colon, question, scan_path,
  scan_tail, port_loop, split_host_and_port,
}

abbrev pub All : (ℕ → Type 0) → List ℕ → Type 0
All P [] = Unit {0}
All P (c ∷ cs) = P c × All P cs

-- Characters that the loop over schema, user and host passes, digits, and characters of a path, of
-- a query and of a fragment.
abbrev pub Plain : ℕ → Type 0
Plain c = action c ≡ continue_on

abbrev pub Digit : ℕ → Type 0
Digit c = (48 ≤ c) × (c ≤ 57)

abbrev pub PathChar : ℕ → Type 0
PathChar c = ((c == question || c == hash) ≡ false) × ((c == space) ≡ false)

abbrev pub TailChar : (ℕ → Bool) → ℕ → Type 0
TailChar ends c = (ends c ≡ false) × ((c == space) ≡ false)

pub Digit-Plain : (c : ℕ) → Digit c → Plain c
Digit-Plain c d = ground arith

pub All-map : (P Q : ℕ → Type 0) (cs : List ℕ) → ((c : ℕ) → P c → Q c) → All P cs → All Q cs
All-map P Q [] f a = tt
All-map P Q (c ∷ cs) f a = (f c a.0, All-map P Q cs f a.1)

abbrev pub cursor : Bool → Bool → List ℕ → Uri → Cursor
cursor ns nu read u = record {
  need_schema = ns;
  need_user_info = nu;
  skip = 0;
  read = read;
  uri = u;
}

pub authority-Plain :
    (ns nu : Bool) (read : List ℕ) (u : Uri) (cs p : List ℕ)
    → All Plain cs
    → authority (cursor ns nu read u) (cs ++ p) ≡ authority (cursor ns nu (read ++ cs) u) p
unfolding authority advance
authority-Plain ns nu read u [] p a =
    ap (λ r. authority (cursor ns nu r u) p) (sym (append-nil read))
authority-Plain ns nu read u (c ∷ cs) p a =
    rw (authority, a.0)
      (authority-Plain ns nu (read ++ (c ∷ [])) u cs p a.1
        ∙ ap (λ r. authority (cursor ns nu r u) p) (append_assoc read (c ∷ []) cs))

pub scan_path-PathChar :
    (cs p : List ℕ)
    → scan_path p ≡ some ([], p)
    → All PathChar cs
    → scan_path (cs ++ p) ≡ some (cs, p)
unfolding scan_path
scan_path-PathChar [] p e a = e
scan_path-PathChar (c ∷ cs) p e a = rw (a.0.0, a.0.1, scan_path-PathChar cs p e a.1) refl

pub scan_tail-TailChar :
    (ends : ℕ → Bool) (cs p : List ℕ)
    → scan_tail ends p ≡ some ([], p)
    → All (TailChar ends) cs
    → scan_tail ends (cs ++ p) ≡ some (cs, p)
unfolding scan_tail
scan_tail-TailChar ends [] p e a = e
scan_tail-TailChar ends (c ∷ cs) p e a = rw (a.0.0, a.0.1, scan_tail-TailChar ends cs p e a.1) refl

-- The number that digits show, read from the first one on.
abbrev pub decimal : ℕ → List ℕ → ℕ
decimal n [] = n
decimal n (c ∷ cs) = decimal (n * 10 + (c - 48)) cs

abbrev backwards : List ℕ → ℕ
backwards [] = 0
backwards (c ∷ cs) = (c - 48) + 10 * backwards cs

All-reverse_aux :
    (P : ℕ → Type 0) (cs acc : List ℕ) → All P cs → All P acc → All P (reverse_aux cs acc)
All-reverse_aux P [] acc a b = b
All-reverse_aux P (c ∷ cs) acc a b = All-reverse_aux P cs (c ∷ acc) a.1 (a.0, b)

backwards-reverse : (cs q : List ℕ) → backwards (reverse cs ++ q) ≡ decimal (backwards q) cs
backwards-reverse [] q = refl
backwards-reverse (c ∷ cs) q =
    ap backwards (ap (λ r. r ++ q) (reverse-cons c cs) ∙ append_assoc (reverse cs) (c ∷ []) q)
    ∙ backwards-reverse cs (c ∷ q)
    ∙ ap (λ n. decimal n cs) (omega arith)

port_loop-Digit :
    (ds q : List ℕ) (port multiply : ℕ)
    → All Digit ds
    → port_loop (ds ++ (colon ∷ q)) port multiply ≡ some (port + multiply * backwards ds, q)
unfolding port_loop
port_loop-Digit [] q port multiply a = ap (λ n. some (n, q)) (omega arith)
port_loop-Digit (d ∷ ds) q port multiply a =
    let digit : (leb 48 d && leb d 57) ≡ true = ground arith in
    rw digit (
      port_loop-Digit ds q (port + (d - 48) * multiply) (multiply * 10) a.1
      ∙ ap (λ n. some (n, q))
          (omega (
            arith,
            mul_comm (d - 48) multiply,
            mul_assoc multiply 10 (backwards ds),
            mul-add multiply (d - 48) (10 * backwards ds),
          )))

-- A name and digits behind the last colon: the name, and the number that the digits show.
pub split_host_and_port-Digit :
    (h : ℕ) (t ds : List ℕ)
    → All Digit ds
    → split_host_and_port (h ∷ t ++ (colon ∷ ds)) ≡ (h ∷ t, some (decimal 0 ds))
unfolding split_host_and_port
split_host_and_port-Digit h t ds a =
    let back : reverse (t ++ (colon ∷ ds)) ≡ reverse ds ++ (colon ∷ reverse t) =
      reverse-append t (colon ∷ ds)
      ∙ ap (λ r. r ++ reverse t) (reverse-cons colon ds)
      ∙ append_assoc (reverse ds) (colon ∷ []) (reverse t) in
    let number : backwards (reverse ds) ≡ decimal 0 ds =
      ap backwards (sym (append-nil (reverse ds))) ∙ backwards-reverse ds [] in
    let found =
      port_loop-Digit (reverse ds) (reverse t) 0 1 (All-reverse_aux Digit ds [] a tt)
      ∙ ap (λ n. some (n, reverse t)) (omega (arith, number)) in
    ap answer (ap (λ r. port_loop r 0 1) back ∙ found)
    ∙ ap (λ r. (h ∷ r, some (decimal 0 ds))) (reverse-reverse t)
  where
    answer : Option (ℕ × List ℕ) → List ℕ × Option ℕ
    answer o = elim o [
      | none ↦ (h ∷ t ++ (colon ∷ ds), none)
      | some (port, q) ↦ (h ∷ reverse q, some port)
    ]
