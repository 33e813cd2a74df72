-- ===== src/Uri.antt =====
-- include/common/uri.h and src/common/uri.cpp: the URI parser. A text is the list of its characters
-- before the closing '\0', all of them ASCII: the table of the source has 128 entries. Pointers into
-- the text are what is left of it, and what was read since `begin`.

pub mod Scan
pub mod Contents
pub mod Tests
use sofa_bolt_cpp.Base.{
  ℕ, zero, suc, ◌+◌, ◌-◌, ◌*◌, Bool, true, false, ◌&&◌, ◌||◌, Option, none, some, List, [], ◌∷◌,
  ◌++◌, if◌then◌else◌, ltb, leb, ◌==◌,
}
use mathlib.Core.List.{reverse}

-- `URI`. A port of -1 is `none`.
pub record Uri : Type 0 where
  pub schema : List ℕ
  pub host : List ℕ
  pub path : List ℕ
  pub user_info : List ℕ
  pub query : List ℕ
  pub fragment : List ℕ
  pub port : Option ℕ
  pub parse_ok : Bool

-- `clear`, which leaves the query and the fragment.
pub clear : Uri → Uri
clear u = record u {
  schema = [];
  host = [];
  path = [];
  user_info = [];
  port = none;
  parse_ok = true;
}

abbrev pub space : ℕ
space = 32

abbrev pub hash : ℕ
hash = 35

abbrev pub slash : ℕ
slash = 47

abbrev pub colon : ℕ
colon = 58

abbrev pub question : ℕ
question = 63

abbrev pub at_sign : ℕ
at_sign = 64

-- `URIFastParserMap`, without the entry of '\0', which does not stand in a text, for a character below
-- 128.
pub data Action : Type 0 where
  continue_on check break_off : Action

abbrev pub action : ℕ → Action
action c =
    if c == hash || (c == slash || c == question)
    then break_off
    else (if c == space || (c == colon || c == at_sign) then check else continue_on)

-- `splitHostAndPort`, whose loop runs from the last character down to the second one: its argument
-- is reversed. For at most nine digits, of which the theorems speak, an `int` holds `port` and `multiply`.
pub port_loop : List ℕ → ℕ → ℕ → Option (ℕ × List ℕ)
port_loop [] port multiply = none
port_loop (c ∷ q) port multiply =
    let rest = port_loop q (port + (c - 48) * multiply) (multiply * 10) in
    if leb 48 c && leb c 57 then rest else (if c == colon then some (port, q) else none)

pub split_host_and_port : List ℕ → List ℕ × Option ℕ
split_host_and_port [] = ([], none)
split_host_and_port (h ∷ t) = elim (port_loop (reverse t) 0 1) [
  | none ↦ (h ∷ t, none)
  | some (port, q) ↦ (h ∷ reverse q, some port)
]

-- `isAllSpace`
pub is_all_space : List ℕ → Bool
is_all_space [] = true
is_all_space (c ∷ p) = c == space && is_all_space p

pub skip_spaces : List ℕ → List ℕ
skip_spaces [] = []
skip_spaces (c ∷ p) = let rest = skip_spaces p in if c == space then rest else c ∷ p

-- The variables of the `do` loop: `read` is the text from `begin` to `p`, and `skip` is how many
-- characters `p += 2` still passes over.
pub record Cursor : Type 0 where
  pub need_schema : Bool
  pub need_user_info : Bool
  pub skip : ℕ
  pub read : List ℕ
  pub uri : Uri

-- How the body of the loop ends: it goes on, it breaks, or the function returns.
pub data Next : Type 0 where
  go : Cursor → Next
  halt fail : Next

-- `p[1] == '/' && p[2] == '/'`, from what stands behind `p`.
abbrev pub two_slashes : List ℕ → Bool
two_slashes (a ∷ b ∷ p) = a == slash && b == slash
two_slashes p = false

abbrev keep : Cursor → ℕ → Next
keep st c = go (record st { read = st.read ++ (c ∷ []) })

-- The body of the loop at the character `c`, with `p` behind it.
check_char : Cursor → ℕ → List ℕ → Next
check_char st c p =
    if c == colon
    then (if two_slashes p && st.need_schema
        then go (record st {
          need_schema = false;
          skip = 2;
          read = [];
          uri = record (st.uri) { schema = st.read };
        })
        else keep st c)
    else (if c == at_sign
        then (if st.need_user_info
            then go (record st {
              need_user_info = false;
              read = [];
              uri = record (st.uri) { user_info = st.read };
            })
            else keep st c)
        else (if is_all_space (c ∷ p) then fail else halt))

pub advance : Cursor → ℕ → List ℕ → Next
advance st c p = elim st.skip [
  | suc k ↦ go (record st { skip = k })
  | zero ↦ elim (action c) [
    | continue_on ↦ keep st c
    | break_off ↦ halt
    | check ↦ check_char st c p
  ]
]

-- The `do` loop, with whether it was left by `break` or at the end of the text, and what is left.
pub authority : Cursor → List ℕ → Bool × Cursor × List ℕ
authority st [] = (true, st, [])
authority st (c ∷ p) = elim (advance st c p) [
  | go st' ↦ authority st' p
  | halt ↦ (true, st, c ∷ p)
  | fail ↦ (false, st, c ∷ p)
]

-- The loops over the path, and over the query and the fragment: the text read, and what is left.
pub scan_path : List ℕ → Option (List ℕ × List ℕ)
scan_path [] = some ([], [])
scan_path (c ∷ p) =
    let rest = scan_path p in
    if c == question || c == hash
    then some ([], c ∷ p)
    else (if c == space
        then (if is_all_space (c ∷ p) then none else some ([], c ∷ p))
        else elim rest [ none ↦ none | some (read, left) ↦ some (c ∷ read, left) ])

pub scan_tail : (ℕ → Bool) → List ℕ → Option (List ℕ × List ℕ)
scan_tail ends [] = some ([], [])
scan_tail ends (c ∷ p) =
    let rest = scan_tail ends p in
    if ends c
    then some ([], c ∷ p)
    else (if c == space
        then (if is_all_space p then some ([], c ∷ p) else none)
        else elim rest [ none ↦ none | some (read, left) ↦ some (c ∷ read, left) ])

abbrev failed : Uri → Uri
failed u = record u { parse_ok = false }

-- `if (*p == '#')`, `if (*p == '?')` and `if (*p == '/')`, each with what follows it.
pub parse_fragment : Uri → List ℕ → Uri
parse_fragment u [] = u
parse_fragment u (c ∷ p) =
    if c == hash
    then (elim (scan_tail (λ _. false) p) [
      | none ↦ failed u
      | some (read, left) ↦ record u { fragment = read }
    ])
    else u

pub parse_query : Uri → List ℕ → Uri
parse_query u [] = u
parse_query u (c ∷ p) =
    if c == question
    then (elim (scan_tail (λ c. c == hash) p) [
      | none ↦ failed u
      | some (read, left) ↦ parse_fragment (record u { query = read }) left
    ])
    else parse_fragment u (c ∷ p)

pub parse_path : Uri → List ℕ → Uri
parse_path u [] = u
parse_path u (c ∷ p) =
    if c == slash
    then (elim (scan_path p) [
      | none ↦ failed u
      | some (read, left) ↦ parse_query (record u { path = c ∷ read }) left
    ])
    else parse_query u (c ∷ p)

-- `URI::parseFromString` on an object that holds `u`.
abbrev pub start : Uri → Cursor
start u = record { need_schema = true; need_user_info = true; skip = 0; read = []; uri = clear u }

pub parse_host : Cursor → List ℕ → Uri
parse_host st p =
    let (host, port) = split_host_and_port st.read in
    parse_path (record (st.uri) { host = host; port = port }) p

pub parse_from_string : Uri → List ℕ → Uri
parse_from_string u url =
    let (ok, st, p) = authority (start u) (skip_spaces url) in
    if ok then parse_host st p else failed st.uri
