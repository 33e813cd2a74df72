-- ===== src/Bolt/Wire.antt =====
-- Numbers in network order: `htons`, `htonl`, `ntohs` and `ntohl` with the bytes as they stand in
-- memory.
use sofa_bolt_cpp.Base.{ℕ, zero, suc, ◌+◌, ◌*◌, ◌/◌, ◌%◌, ◌^◌, ◌<◌, ◌≡◌, List, [], ◌∷◌, ◌++◌, arith}

abbrev pub be16 : ℕ → List ℕ
be16 x = x / 2 ^ 8 % 2 ^ 8 ∷ x % 2 ^ 8 ∷ []

abbrev pub be32 : ℕ → List ℕ
be32 x = x / 2 ^ 24 % 2 ^ 8 ∷ x / 2 ^ 16 % 2 ^ 8 ∷ x / 2 ^ 8 % 2 ^ 8 ∷ x % 2 ^ 8 ∷ []

-- The byte at a place; no caller reads past the end.
abbrev pub byte : List ℕ → ℕ → ℕ
byte [] i = 0
byte (x ∷ xs) zero = x
byte (x ∷ xs) (suc i) = byte xs i

abbrev pub read16 : List ℕ → ℕ → ℕ
read16 bs i = byte bs i * 2 ^ 8 + byte bs (suc i)

abbrev pub read32 : List ℕ → ℕ → ℕ
read32 bs i =
    byte bs i * 2 ^ 24
    + byte bs (suc i) * 2 ^ 16
    + byte bs (suc (suc i)) * 2 ^ 8
    + byte bs (suc (suc (suc i)))

pub read32-be32 : (x : ℕ) (rest : List ℕ) → x < 2 ^ 32 → read32 (be32 x ++ rest) 0 ≡ x
read32-be32 x rest h = omega arith

pub read16-be16 : (x : ℕ) (rest : List ℕ) → x < 2 ^ 16 → read16 (be16 x ++ rest) 0 ≡ x
read16-be16 x rest h = omega arith
