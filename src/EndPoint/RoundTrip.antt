-- ===== src/EndPoint/RoundTrip.antt =====
-- `EndPoint` of src/tcp/endpoint.cpp: which texts are accepted, and an address printed and read again.
use sofa_bolt_cpp.Base.{
  ℕ, ◌%◌, ◌^◌, ◌≤◌, ◌<◌, ◌≡◌, refl, ap, ap₂, sym, ◌∙◌, inl, inr, true, false, ◌||◌, not, Option,
  none, some, List, [], ◌∷◌, ◌++◌, arith, ltb, leb, Bool-cases, Option-cases, length,
}
use sofa_bolt_cpp.Http.Request.{decimal}
use sofa_bolt_cpp.EndPoint.{
  EndPoint, Lookup, scan_host, strtol, int_bits, is_negative, host_ip, read_port, parse_from_string,
  int_text, ip_to_str,
}
use sofa_bolt_cpp.EndPoint.Scan.{NoColon, scan_host-append, scan_host-found, strtol-decimal}

port_test : (p : ℕ) → (is_negative p || ltb 65535 p) ≡ not (leb p 65535)
unfolding is_negative
port_test p = ground arith

read_port-decimal :
    (e : EndPoint) (n : ℕ)
    → n < 2 ^ 63
    → read_port e (decimal n) ≡ (leb (n % 2 ^ 32) 65535, record e { port = n % 2 ^ 32 })
unfolding read_port int_bits
read_port-decimal e n h =
    rw (strtol-decimal n h, read_port, port_test (n % 2 ^ 32))
      (elim (Bool-cases (leb (n % 2 ^ 32) 65535)) [ inl f ↦ rw f refl | inr f ↦ rw f refl ])

module _ (inet_pton : List ℕ → Option ℕ) (gethostbyname_r : List ℕ → Lookup) where
  -- A host of at most 63 bytes without a colon, whose address is found, with a colon and the decimal
  -- text of a number below 2^63: it is accepted exactly when the low 32 bits of the number are at most
  -- 65535, and these bits are the port. So a number above 2^32 can be accepted as a port that it is not.
  pub parse_from_string-decimal :
      (e : EndPoint) (host : List ℕ) (ip n : ℕ)
      → NoColon host
      → length host ≤ 63
      → host_ip inet_pton gethostbyname_r host ≡ some ip
      → n < 2 ^ 63
      → parse_from_string inet_pton gethostbyname_r e (host ++ (58 ∷ decimal n))
        ≡ (leb (n % 2 ^ 32) 65535, record { ip = ip; port = n % 2 ^ 32 })
  unfolding parse_from_string
  parse_from_string-decimal e host ip n plain short known h =
      rw
        (scan_host-append 0 host (decimal n) plain (omega (arith, short)), parse_from_string, known)
        (read_port-decimal (record e { ip = ip }) n h)

  -- An address with a port of at most 65535, printed and parsed again over any other, gives itself, if
  -- the text that `inet_ntop` prints for it has no colon and at most 63 bytes and `inet_pton` reads it
  -- back.
  pub parse_from_string-ip_to_str :
      (inet_ntop : ℕ → List ℕ) (e e' : EndPoint)
      → NoColon (inet_ntop e.ip)
      → length (inet_ntop e.ip) ≤ 63
      → inet_pton (inet_ntop e.ip) ≡ some e.ip
      → e.port ≤ 65535
      → parse_from_string inet_pton gethostbyname_r e' (ip_to_str inet_ntop e) ≡ (true, e)
  unfolding ip_to_str int_text host_ip is_negative
  parse_from_string-ip_to_str inet_ntop e e' plain short back small =
      let positive : leb (2 ^ 31) e.port ≡ false = ground arith in
      let within : leb (e.port % 2 ^ 32) 65535 ≡ true = ground arith in
      let bits : e.port % 2 ^ 32 ≡ e.port = omega (arith, small) in
      ap (λ t. parse_from_string inet_pton gethostbyname_r e' (inet_ntop e.ip ++ (58 ∷ t)))
        (by_sign e.port positive)
      ∙ parse_from_string-decimal e' (inet_ntop e.ip) e.ip e.port plain short
          (ap
            (λ o. elim o [
              | some ip ↦ some ip
              | none ↦ elim (gethostbyname_r (inet_ntop e.ip)) [
                | Lookup.error ↦ none
                | Lookup.not_found ↦ none
                | Lookup.found ip ↦ some ip
              ]
            ])
            back)
          (omega (arith, small))
      ∙ ap₂ (λ b p. (b, record { ip = e.ip; port = p })) within bits
    where
      by_sign : (p : ℕ) → leb (2 ^ 31) p ≡ false → int_text p ≡ decimal p
      by_sign p f = rw f refl

-- What `read_port` accepts.
read_port-accepted :
    (e e' : EndPoint) (p : List ℕ)
    → read_port e p ≡ (true, e')
    → (e'.ip ≡ e.ip)
      × (e'.port ≤ 65535)
      × ((n : ℕ) × (strtol p ≡ some (n, [])) × (e'.port ≡ n % 2 ^ 32))
unfolding read_port int_bits
read_port-accepted e e' p done = elim (Option-cases (strtol p)) [
  | inl f ↦ absurd (cc (ap (λ q. q.0) (rw (f, read_port) at done)))
  | inr ((n, []), f) ↦ elim (Bool-cases (leb (n % 2 ^ 32) 65535)) [
    | inl g ↦
        let same : record e { port = n % 2 ^ 32 } ≡ e' =
          ap (λ q. q.1) (rw (f, read_port, port_test (n % 2 ^ 32), g) at done) in
        let small : n % 2 ^ 32 ≤ 65535 = ground arith in rw (← same) (refl, small, (n, f, refl))
    | inr g ↦ absurd (cc (ap (λ q. q.0) (rw (f, read_port, port_test (n % 2 ^ 32), g) at done)))
  ]
  | inr ((n, c ∷ more), f) ↦ absurd (cc (ap (λ q. q.0) (rw (f, read_port) at done)))
]

-- A text that is accepted is a host of at most 63 bytes without a colon, a colon and a number with
-- nothing behind it; the address is the one found for the host, and the port, at most 65535, is the
-- low 32 bits of the number.
pub parse_from_string-accepted :
    (inet_pton : List ℕ → Option ℕ) (gethostbyname_r : List ℕ → Lookup) (e e' : EndPoint)
    (str : List ℕ)
    → parse_from_string inet_pton gethostbyname_r e str ≡ (true, e')
    → (host p : List ℕ) × (str ≡ host ++ (58 ∷ p))
      × NoColon host
      × (length host ≤ 63)
      × (host_ip inet_pton gethostbyname_r host ≡ some e'.ip)
      × (e'.port ≤ 65535)
      × ((n : ℕ) × (strtol p ≡ some (n, [])) × (e'.port ≡ n % 2 ^ 32))
unfolding parse_from_string
parse_from_string-accepted inet_pton gethostbyname_r e e' str done =
    elim (Option-cases (scan_host 0 str)) [
      | inl f ↦ absurd (cc (ap (λ q. q.0) (rw (f, parse_from_string) at done)))
      | inr ((host, p), f) ↦ elim (Option-cases (host_ip inet_pton gethostbyname_r host)) [
        | inl g ↦ absurd (cc (ap (λ q. q.0) (rw (f, parse_from_string, g) at done)))
        | inr (ip, g) ↦
            let (text, plain, short) = scan_host-found 0 str (host, p) (omega arith) f in
            let (same, small, number) =
              read_port-accepted (record e { ip = ip }) e' p
                (rw (f, parse_from_string, g) at done) in
            (host, p, text, plain, omega (arith, short), g ∙ ap some (sym same), small, number)
      ]
    ]
