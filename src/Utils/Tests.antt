-- ===== src/Utils/Tests.antt =====
-- The text helpers of include/common/utils.h on small texts.
use sofa_bolt_cpp.Base.{◌≡◌, refl, [], ◌∷◌, ◌++◌, codes}
use sofa_bolt_cpp.Utils.{string_split, trim, left_trim, right_trim}
use sofa_bolt_cpp.Utils.Split.{string_split-joined}

string_split-joined_example :
    (string_split (codes "a,bc,") 44 ≡ codes "a" ∷ codes "bc" ∷ [])
    × (string_split (codes "a,bc,d") 44 ≡ (codes "a" ∷ codes "bc" ∷ []) ++ (codes "d" ∷ []))
string_split-joined_example =
    string_split-joined 44 (codes "a" ∷ codes "bc" ∷ []) 100 []
      ((refl, tt), ((refl, (refl, tt)), tt)) (refl, tt)

-- A text of spaces keeps its first one when only `rightTrim` is used.
trim_spaces : (trim (codes " a b ") ≡ codes "a b") × (right_trim (codes "  ") ≡ codes " ")
unfolding trim left_trim right_trim
trim_spaces = (refl, refl)
