-- ===== src/Uri/Tests.antt =====
-- The URI parser of src/common/uri.cpp on small texts.
use sofa_bolt_cpp.Base.{◌≡◌, refl, true, none, some, [], arith, codes, ◌++◌}
use sofa_bolt_cpp.Uri.{Uri, parse_from_string}
use sofa_bolt_cpp.Uri.Scan.{All, Digit}
use sofa_bolt_cpp.Uri.Contents.{Ascii, parse_from_string-parts}

-- What an object may hold from an earlier text.
abbrev used : Uri
used = record {
  schema = [];
  host = [];
  path = [];
  user_info = [];
  query = codes "old";
  fragment = [];
  port = none;
  parse_ok = true;
}

four_digits : All Digit (codes "8080")
four_digits = (
  (omega arith, omega arith),
  ((omega arith, omega arith), ((omega arith, omega arith), ((omega arith, omega arith), tt))),
)

All-Ascii : All Ascii (codes "http" ++ codes "hi" ++ codes "p" ++ codes "a=b" ++ codes "c")
All-Ascii = (
  (omega arith, omega arith),
  (
    (omega arith, omega arith),
    (
      (omega arith, omega arith),
      (
        (omega arith, omega arith),
        (
          (omega arith, omega arith),
          (
            (omega arith, omega arith),
            (
              (omega arith, omega arith),
              (
                (omega arith, omega arith),
                (
                  (omega arith, omega arith),
                  ((omega arith, omega arith), ((omega arith, omega arith), tt)),
                ),
              ),
            ),
          ),
        ),
      ),
    ),
  ),
)

parse_from_string-parts_example : parse_from_string used (codes "http://hi:8080/p?a=b#c") ≡ record {
  schema = codes "http";
  host = codes "hi";
  path = codes "/p";
  user_info = [];
  query = codes "a=b";
  fragment = codes "c";
  port = some 8080;
  parse_ok = true;
}
parse_from_string-parts_example =
    parse_from_string-parts used (codes "http") 104 (codes "i") (codes "8080") (codes "p")
      (codes "a=b") (codes "c") (omega arith) All-Ascii (refl, (refl, (refl, (refl, tt))))
      (refl, (refl, tt)) four_digits ((refl, refl), tt)
      ((refl, refl), ((refl, refl), ((refl, refl), tt))) ((refl, refl), tt)
