-- ===== src/Uri/Contents.antt =====
-- What the parser of src/common/uri.cpp makes of a text.
use sofa_bolt_cpp.Base.{
  ℕ, ◌≡◌, refl, ap, ◌∙◌, sym, Bool, true, false, Bool-cases, inl, inr, some, List, [], ◌∷◌, ◌++◌,
  append_assoc, append-nil, ◌==◌, arith, length, ◌≤◌, ◌<◌,
}
use sofa_bolt_cpp.Uri.{
  Uri, clear, start, advance, authority, is_all_space, skip_spaces, space, hash, slash, colon,
  question, check_char, two_slashes, scan_path, scan_tail, parse_fragment, parse_query, parse_path,
  parse_host, parse_from_string, split_host_and_port,
}
use sofa_bolt_cpp.Uri.Scan.{
  All, Plain, Digit, PathChar, TailChar, Digit-Plain, All-map, cursor, authority-Plain,
  scan_path-PathChar, scan_tail-TailChar, decimal, split_host_and_port-Digit,
}

abbrev pub is_hash : ℕ → Bool
is_hash c = c == hash

abbrev pub never : ℕ → Bool
never c = false

-- The part of the text behind the port.
parse_path-parts :
    (u : Uri) (path query fragment : List ℕ)
    → All PathChar path
    → All (TailChar is_hash) query
    → All (TailChar never) fragment
    → parse_path u (slash ∷ path ++ (question ∷ query ++ (hash ∷ fragment)))
      ≡ record u { path = slash ∷ path; query = query; fragment = fragment }
unfolding parse_path parse_query parse_fragment scan_path scan_tail
parse_path-parts u path query fragment p q f =
    rw
      (
        scan_path-PathChar path (question ∷ query ++ (hash ∷ fragment)) refl p,
        scan_tail-TailChar is_hash query (hash ∷ fragment) refl q,
        ap (scan_tail never) (sym (append-nil fragment))
            ∙ scan_tail-TailChar never fragment [] refl f,
      )
      refl

-- Once there is a schema, a colon is a character as others.
authority-colon :
    (read : List ℕ) (u : Uri) (p : List ℕ)
    → authority (cursor false true read u) (colon ∷ p)
      ≡ authority (cursor false true (read ++ (colon ∷ [])) u) p
unfolding authority advance check_char
authority-colon read u p = elim (Bool-cases (two_slashes p)) [
  | inl e ↦ rw (authority, e) refl
  | inr e ↦ rw (authority, e) refl
]

-- Behind a schema, the loop reads the name, the colon and the digits, and stops at the slash.
authority-host :
    (u : Uri) (schema host digits rest : List ℕ)
    → All Plain schema
    → All Plain host
    → All Digit digits
    → authority
        (start u)
        (schema ++ (colon ∷ slash ∷ slash ∷ host ++ (colon ∷ digits ++ (slash ∷ rest))))
      ≡ (
        true,
        cursor false true (host ++ (colon ∷ digits)) (record (clear u) { schema = schema }),
        slash ∷ rest,
      )
unfolding authority advance check_char
authority-host u schema host digits rest s h d =
    let u' : Uri = record (clear u) { schema = schema } in
    authority-Plain true true [] (clear u) schema _ s
    ∙ authority-Plain false true [] u' host (colon ∷ digits ++ (slash ∷ rest)) h
    ∙ authority-colon host u' (digits ++ (slash ∷ rest))
    ∙ authority-Plain false true (host ++ (colon ∷ [])) u' digits (slash ∷ rest)
        (All-map Digit Plain digits Digit-Plain d)
    ∙ ap (λ r. (true, cursor false true r u', slash ∷ rest)) (append_assoc host (colon ∷ []) digits)

skip_spaces-Plain :
    (schema rest : List ℕ)
    → All Plain schema
    → skip_spaces (schema ++ (colon ∷ rest)) ≡ schema ++ (colon ∷ rest)
unfolding skip_spaces
skip_spaces-Plain [] rest s = refl
skip_spaces-Plain (c ∷ schema) rest s =
    let other : (c == space) ≡ false = ground (arith, s.0) in rw other refl

-- The characters for which the source's table has an entry, without the end of the text.
abbrev pub Ascii : ℕ → Type 0
Ascii c = (0 < c) × (c < 128)

-- `schema://name:digits/path?query#fragment` is taken apart into these, the port as a number, where the
-- parts have none of the characters that end them, all characters are ASCII, and there are at most nine
-- digits, so that an `int` holds the port and the multiplier.
pub parse_from_string-parts :
    (u : Uri) (schema : List ℕ) (h : ℕ) (t digits path query fragment : List ℕ)
    → length digits ≤ 9
    → All Ascii (schema ++ (h ∷ t) ++ path ++ query ++ fragment)
    → All Plain schema
    → All Plain (h ∷ t)
    → All Digit digits
    → All PathChar path
    → All (TailChar is_hash) query
    → All (TailChar never) fragment
    → parse_from_string u (
        schema
        ++ (colon ∷ slash ∷ slash ∷ (h ∷ t)
            ++ (colon ∷ digits ++ (slash ∷ path ++ (question ∷ query ++ (hash ∷ fragment))))))
      ≡ record {
        schema = schema;
        host = h ∷ t;
        path = slash ∷ path;
        user_info = [];
        query = query;
        fragment = fragment;
        port = some (decimal 0 digits);
        parse_ok = true;
      }
unfolding parse_from_string parse_host clear
parse_from_string-parts u schema h t digits path query fragment short ascii s n d p q f =
    rw
      (
        skip_spaces-Plain schema _ s,
        authority-host u schema (h ∷ t) digits _ s n d,
        split_host_and_port-Digit h t digits d,
      )
      (parse_path-parts _ path query fragment p q f)

-- A space ends the loop, and a text that has only spaces from there on is refused.
authority-space :
    (u : Uri) (cs : List ℕ)
    → All Plain cs
    → authority (start u) (cs ++ (space ∷ [])) ≡ (false, cursor true true cs (clear u), space ∷ [])
unfolding authority advance check_char is_all_space
authority-space u cs n = authority-Plain true true [] (clear u) cs (space ∷ []) n

authority-space-more :
    (u : Uri) (cs : List ℕ) (c : ℕ) (rest : List ℕ)
    → All Plain cs
    → (c == space) ≡ false
    → authority (start u) (cs ++ (space ∷ c ∷ rest))
      ≡ (true, cursor true true cs (clear u), space ∷ c ∷ rest)
unfolding authority advance check_char is_all_space
authority-space-more u cs c rest n other =
    authority-Plain true true [] (clear u) cs (space ∷ c ∷ rest) n ∙ rw (authority, other) refl

skip_spaces-∷ : (h : ℕ) (p : List ℕ) → Plain h → skip_spaces (h ∷ p) ≡ h ∷ p
unfolding skip_spaces
skip_spaces-∷ h p n = let other : (h == space) ≡ false = ground (arith, n) in rw other refl

-- A space behind the name: with nothing but spaces after it the text is refused, and with anything
-- else it is taken, with what came before it as the host and with the query and the fragment that the
-- object had.
pub parse_from_string-space :
    (u : Uri) (h : ℕ) (t : List ℕ) (c : ℕ) (rest : List ℕ)
    → All Plain (h ∷ t)
    → (c == space) ≡ false
    → ((parse_from_string u (h ∷ t ++ (space ∷ []))).parse_ok ≡ false)
      × (let v = parse_from_string u (h ∷ t ++ (space ∷ c ∷ rest)) in
          (v.parse_ok ≡ true)
          × (v.host ≡ (split_host_and_port (h ∷ t)).0)
          × (v.query ≡ u.query)
          × (v.fragment ≡ u.fragment))
unfolding parse_from_string parse_host clear parse_path parse_query parse_fragment
parse_from_string-space u h t c rest n other = (
  rw (skip_spaces-∷ h (t ++ (space ∷ [])) n.0, authority-space u (h ∷ t) n) refl,
  rw (skip_spaces-∷ h (t ++ (space ∷ c ∷ rest)) n.0, authority-space-more u (h ∷ t) c rest n other)
      (refl, refl, refl, refl),
)
