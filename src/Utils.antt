-- ===== src/Utils.antt =====
-- The text helpers of include/common/utils.h. A text is the list of its characters.
pub mod Split
pub mod Tests
use sofa_bolt_cpp.Base.{
  ℕ, suc, ◌+◌, Bool, true, false, ◌&&◌, ◌||◌, List, [], ◌∷◌, ◌++◌, if◌then◌else◌, leb, ◌==◌,
}
use mathlib.Core.List.{reverse}

-- `std::isspace` in the C locale.
abbrev pub is_space : ℕ → Bool
is_space c = c == 32 || (leb 9 c && leb c 13)

-- `leftTrim`
pub left_trim : List ℕ → List ℕ
left_trim [] = []
left_trim (c ∷ p) = let rest = left_trim p in if is_space c then rest else c ∷ p

-- `rightTrim`, whose loop runs down from the last character and stops at the first one whatever that
-- is.
pub right_trim : List ℕ → List ℕ
right_trim [] = []
right_trim (c ∷ p) = c ∷ reverse (left_trim (reverse p))

-- `trim(char*)`
pub trim : List ℕ → List ℕ
trim str = right_trim (left_trim str)

-- `stringSplit(src, char)`: `piece` is what stands from `pos1` on before the rest of the text.
pub split_loop : ℕ → List ℕ → List ℕ → List (List ℕ)
split_loop delimiter [] [] = []
split_loop delimiter (x ∷ piece) [] = (x ∷ piece) ∷ []
split_loop delimiter piece (c ∷ src) =
    if c == delimiter
    then piece ∷ split_loop delimiter [] src
    else split_loop delimiter (piece ++ (c ∷ [])) src

pub string_split : List ℕ → ℕ → List (List ℕ)
string_split src delimiter = split_loop delimiter [] src

-- `splitNum`: only whether `pos1` stands at the end matters of the piece.
pub num_loop : ℕ → Bool → List ℕ → ℕ
num_loop delimiter some_read [] = if some_read then 1 else 0
num_loop delimiter some_read (c ∷ src) =
    if c == delimiter then suc (num_loop delimiter false src) else num_loop delimiter true src

pub split_num : List ℕ → ℕ → ℕ
split_num src delimiter = num_loop delimiter false src
