-- ===== src/EndPoint/Tests.antt =====
-- `EndPoint` of src/tcp/endpoint.cpp on small texts; `inet_ntop` prints a letter and `inet_pton` reads it.
use sofa_bolt_cpp.Base.{
  ℕ, ◌+◌, ◌-◌, ◌%◌, ◌^◌, ◌≡◌, refl, true, false, Option, none, some, List, [], ◌∷◌, ◌++◌, arith,
  leb, codes,
}
use sofa_bolt_cpp.Http.Request.{decimal}
use sofa_bolt_cpp.EndPoint.{
  EndPoint, Lookup, scan_host, strtol, skip_spaces, is_space, read_sign, starts_digit, is_digit,
  read_digits, long_bits, int_bits, is_negative, host_ip, read_port, parse_from_string, ip_to_str,
}
use sofa_bolt_cpp.EndPoint.RoundTrip.{parse_from_string-decimal, parse_from_string-ip_to_str}

abbrev printed : ℕ → List ℕ
printed ip = (65 + ip) ∷ []

abbrev reads : List ℕ → Option ℕ
reads [] = none
reads (c ∷ []) = some (c - 65)
reads (c ∷ d ∷ cs) = none

abbrev unknown : List ℕ → Lookup
unknown host = Lookup.not_found

abbrev here : EndPoint
here = record { ip = 2; port = 8080 }

abbrev nowhere : EndPoint
nowhere = record { ip = 0; port = 0 }

parse_from_string-decimal_example :
    parse_from_string reads unknown nowhere (codes "C:" ++ decimal (2 ^ 32 + 80))
    ≡ (leb ((2 ^ 32 + 80) % 2 ^ 32) 65535, record { ip = 2; port = (2 ^ 32 + 80) % 2 ^ 32 })
unfolding host_ip
parse_from_string-decimal_example =
    parse_from_string-decimal reads unknown nowhere (codes "C") 2 (2 ^ 32 + 80) (refl, tt)
      (omega arith) refl (omega arith)

parse_from_string-ip_to_str_example :
    parse_from_string reads unknown nowhere (ip_to_str printed here) ≡ (true, here)
parse_from_string-ip_to_str_example =
    parse_from_string-ip_to_str reads unknown printed here nowhere (refl, tt) (omega arith) refl
      (omega arith)

is_accepted :
    parse_from_string reads unknown nowhere (codes "C:80") ≡ (true, record here { port = 80 })
unfolding parse_from_string scan_host host_ip read_port strtol skip_spaces is_space read_sign
    starts_digit is_digit read_digits long_bits int_bits is_negative
is_accepted = refl

no_number :
    parse_from_string reads unknown nowhere (codes "C: 80x") ≡ (false, record here { port = 80 })
unfolding parse_from_string scan_host host_ip read_port strtol skip_spaces is_space read_sign
    starts_digit is_digit read_digits long_bits int_bits is_negative
no_number = refl
