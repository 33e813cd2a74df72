-- ===== src/EndPoint.antt =====
-- include/tcp/endpoint.h and src/tcp/endpoint.cpp: addresses and their texts. A text is the list of its
-- bytes before the terminating NUL.
pub mod Scan
pub mod RoundTrip
pub mod Tests
use sofa_bolt_cpp.Base.{
  ℕ, zero, suc, ◌+◌, ◌-◌, ◌*◌, ◌%◌, ◌^◌, min, Bool, true, false, ◌&&◌, ◌||◌, Option, none, some,
  List, [], ◌∷◌, ◌++◌, if◌then◌else◌, ltb, leb, ◌==◌,
}
use sofa_bolt_cpp.Http.Request.{decimal}

-- `port` is an `int`: its bits, from 2^31 on a negative number.
pub record EndPoint : Type 0 where
  pub ip : ℕ
  pub port : ℕ

-- What `gethostbyname_r` answers: an error, no host, or the address of one.
pub data Lookup : Type 0 where
  error not_found : Lookup
  found : (ip : ℕ) → Lookup

-- The first loop: the bytes up to the first colon, of which the array holds 64 with the NUL, and what
-- is behind the colon.
pub scan_host : ℕ → List ℕ → Option (List ℕ × List ℕ)
scan_host i [] = none
scan_host i (c ∷ p) =
    let rest = scan_host (suc i) p in
    if c == 58
    then some ([], p)
    else if leb 64 (suc i)
    then none
    else elim rest [ none ↦ none | some r ↦ some (c ∷ r.0, r.1) ]

-- `std::strtol` with base 10: white space, a sign, digits; the result is cut to the range of a `long`
-- of 64 bits. The answer is the bits of the result and what is behind the digits, or `none` where
-- there is no digit.
pub is_digit : ℕ → Bool
is_digit c = leb 48 c && leb c 57

pub is_space : ℕ → Bool
is_space c = c == 32 || (leb 9 c && leb c 13)

pub skip_spaces : List ℕ → List ℕ
skip_spaces [] = []
skip_spaces (c ∷ p) = let rest = skip_spaces p in if is_space c then rest else c ∷ p

pub read_sign : List ℕ → Bool × List ℕ
read_sign [] = (false, [])
read_sign (c ∷ p) = if c == 45 then (true, p) else if c == 43 then (false, p) else (false, c ∷ p)

pub read_digits : ℕ → List ℕ → ℕ × List ℕ
read_digits n [] = (n, [])
read_digits n (c ∷ p) =
    let rest = read_digits (n * 10 + (c - 48)) p in if is_digit c then rest else (n, c ∷ p)

pub starts_digit : List ℕ → Bool
starts_digit [] = false
starts_digit (c ∷ p) = is_digit c

pub long_bits : Bool → ℕ → ℕ
long_bits true n = (2 ^ 64 - min n (2 ^ 63)) % 2 ^ 64
long_bits false n = min n (2 ^ 63 - 1)

pub strtol : List ℕ → Option (ℕ × List ℕ)
unfolding long_bits
strtol p =
    let (negative, ds) = read_sign (skip_spaces p) in
    if starts_digit ds
    then (let (n, end) = read_digits 0 ds in some (long_bits negative n, end))
    else none

-- The assignment of a `long` to an `int` keeps the low 32 bits.
pub int_bits : ℕ → ℕ
int_bits n = n % 2 ^ 32

pub is_negative : ℕ → Bool
is_negative n = leb (2 ^ 31) n

-- From the text behind the colon on: `port` is assigned before it is looked at, 0 where there is
-- no digit.
pub read_port : EndPoint → List ℕ → Bool × EndPoint
unfolding int_bits is_negative
read_port e p = elim (strtol p) [
  | none ↦ (false, record e { port = 0 })
  | some (n, end) ↦
      let e' : EndPoint = record e { port = int_bits n } in
      elim end [
        | c ∷ more ↦ (false, e')
        | [] ↦ if is_negative e'.port || ltb 65535 e'.port then (false, e') else (true, e')
      ]
]

module _ (inet_pton : List ℕ → Option ℕ) (gethostbyname_r : List ℕ → Lookup) where
  -- The address of a host, or `none` where `parseFromString` returns early.
  pub host_ip : List ℕ → Option ℕ
  host_ip host = elim (inet_pton host) [
    | some ip ↦ some ip
    | none ↦ elim (gethostbyname_r host) [ error ↦ none | not_found ↦ none | found ip ↦ some ip ]
  ]

  pub parse_from_string : EndPoint → List ℕ → Bool × EndPoint
  unfolding read_port
  parse_from_string e str = elim (scan_host 0 str) [
    | none ↦ (false, e)
    | some (host, p) ↦ elim (host_ip host) [
      | none ↦ (false, e)
      | some ip ↦ read_port (record e { ip = ip }) p
    ]
  ]

-- `%d` of an `int`.
pub int_text : ℕ → List ℕ
unfolding is_negative
int_text n = if is_negative n then 45 ∷ decimal (2 ^ 32 - n) else decimal n

-- `ipToStr`
pub ip_to_str : (inet_ntop : ℕ → List ℕ) → EndPoint → List ℕ
ip_to_str inet_ntop e = inet_ntop e.ip ++ (58 ∷ int_text e.port)
