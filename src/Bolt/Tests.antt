-- ===== src/Bolt/Tests.antt =====
-- The BOLT requests and responses of src/protocol/bolt on small inputs.
use sofa_bolt_cpp.Base.{
  take, ℕ, zero, suc, ◌-◌, ◌^◌, ◌≡◌, refl, some, none, List, [], ◌∷◌, ◌++◌, arith, length,
}
use sofa_bolt_cpp.IoBuffer.{Memory, Buffer, to_string}
use sofa_bolt_cpp.IoBuffer.Source.{io_source}
use sofa_bolt_cpp.IoBuffer.Append.Valid.{IsValid}
use sofa_bolt_cpp.IoBuffer.Append.Put.{Holds}
use sofa_bolt_cpp.IoBuffer.Tests.{small, small-IsValid, two_slices, two_slices-Holds}
use sofa_bolt_cpp.Bolt.{parse_ok}
use sofa_bolt_cpp.Bolt.Response.{Header, Response, string, check_header, deserialize, emplace_all}
use sofa_bolt_cpp.Bolt.Response.Encode.{hton, Fits, encode_entries}
use sofa_bolt_cpp.Bolt.Response.Reads.{Yields}
use sofa_bolt_cpp.Bolt.Response.RoundTrip.{deserialize-encode}
use sofa_bolt_cpp.Bolt.Response.Ends.{Ends, deserialize-Ends}
use sofa_bolt_cpp.Bolt.Response.Check.{Checked, check_header-Checked, check_header_wraps}
use sofa_bolt_cpp.Bolt.Request.{
  Request, hton as request_hton, init_header, class_name, assemble_request,
}
use sofa_bolt_cpp.Bolt.Request.{string as string_payload, Payload}
use sofa_bolt_cpp.Bolt.Request.Frame.{entries}
use sofa_bolt_cpp.Bolt.Request.Contents.{filled_header, assemble_string_lem}

-- A call of method "m" at service "s".
abbrev call : Payload → Request
call p = record { service = 115 ∷ []; method = 109 ∷ []; trace_id = []; payload = p }

assemble_string_lem_example :
    let (m, b) = assemble_request small two_slices (call (string_payload (some (1 ∷ 2 ∷ [])))) 7 in
    (to_string m b
      ≡ to_string small two_slices
        ++ (request_hton (
              filled_header
                (init_header (call (string_payload (some (1 ∷ 2 ∷ [])))) 7)
                (call (string_payload (some (1 ∷ 2 ∷ []))))
                2)
            ++ (class_name
                ++ (encode_entries (entries (call (string_payload (some (1 ∷ 2 ∷ [])))))
                    ++ (1 ∷ 2 ∷ [])))))
    × (to_string m two_slices ≡ to_string small two_slices)
    × IsValid m
    × Holds m b
assemble_string_lem_example =
    assemble_string_lem small two_slices two_slices (call (string_payload (some (1 ∷ 2 ∷ [])))) 7
      (1 ∷ 2 ∷ []) small-IsValid two_slices-Holds two_slices-Holds refl (omega arith) (omega arith)

-- A memory whose one block starts with given bytes, and the buffer of the first `n` of them.
abbrev cells_of : List ℕ → ℕ → ℕ
cells_of [] i = 0
cells_of (x ∷ xs) zero = x
cells_of (x ∷ xs) (suc i) = cells_of xs i

abbrev holding : List ℕ → Memory
holding bs = record small {
  blocks = λ _. record { next = none; size = length bs; capacity = 8168; cells = cells_of bs };
}

abbrev first : ℕ → Buffer
first n = record { ref = record { block = 0; offset = 0; count = n } ∷ []; ref_offset = 0 }

-- A response to request 9: class name "C", one entry "k" with the value "v", and two bytes.
abbrev reply : Header
reply = record {
  proto = 1;
  type = 0;
  cmdcode = 2;
  ver2 = 1;
  request_id = 9;
  codec = 11;
  status = 0;
  class_len = 1;
  header_len = 10;
  content_len = 2;
}

abbrev reply_entries : List (List ℕ × List ℕ)
reply_entries = (107 ∷ [], 118 ∷ []) ∷ []

abbrev reply_bytes : List ℕ
reply_bytes = hton reply ++ (67 ∷ [] ++ (encode_entries reply_entries ++ (5 ∷ 6 ∷ [] ++ [])))

abbrev blank : Header → Response
blank h = record { header = h; class_name = []; header_map = []; content = []; data_type = string }

reply-Fits : Fits reply
reply-Fits = record {
  cmdcode = omega arith;
  request_id = omega arith;
  status = omega arith;
  class_len = omega arith;
  header_len = omega arith;
  content_len = omega arith;
}

deserialize-encode_example :
    Yields
      (io_source (holding reply_bytes))
      (deserialize
        (io_source (holding reply_bytes))
        (λ _. none)
        (record { buf = first 33; rsp = blank reply }))
      tt
      (record {
        header = reply;
        class_name = 67 ∷ [];
        header_map = emplace_all [] reply_entries;
        content = 5 ∷ 6 ∷ [];
        data_type = string;
      })
      []
deserialize-encode_example =
    deserialize-encode (io_source (holding reply_bytes)) (λ _. none) reply (67 ∷ []) (5 ∷ 6 ∷ []) []
      reply_entries (record { buf = first 33; rsp = blank reply }) (omega arith) refl refl
      reply-Fits refl refl refl refl refl refl refl

deserialize-Ends_example :
    let B = io_source (holding reply_bytes) in
    let (r, st) = deserialize B (λ _. none) (record { buf = first 30; rsp = blank reply }) in
    Ends B (λ _. none) 30 0 r st
deserialize-Ends_example =
    deserialize-Ends (io_source (holding reply_bytes)) (λ _. none)
      (record { buf = first 30; rsp = blank reply }) (omega arith)

check_header-Checked_example :
    let B = io_source (holding reply_bytes) in Checked reply 10 (check_header B (first 30))
check_header-Checked_example =
    check_header-Checked (io_source (holding reply_bytes)) (first 30) reply
      (take 10 (67 ∷ [] ++ (encode_entries reply_entries ++ (5 ∷ 6 ∷ [])))) (omega arith) refl
      reply-Fits (omega arith)

-- A header that announces 2^32 + 3 bytes of body.
abbrev huge : Header
huge = record reply { class_len = 2; header_len = 2; content_len = 2 ^ 32 - 1 }

huge-Fits : Fits huge
huge-Fits = record {
  cmdcode = omega arith;
  request_id = omega arith;
  status = omega arith;
  class_len = omega arith;
  header_len = omega arith;
  content_len = omega arith;
}

check_header_wraps_example :
    check_header (io_source (holding (hton huge ++ (1 ∷ 2 ∷ 3 ∷ [])))) (first 23)
    ≡ (parse_ok, 23, 9)
check_header_wraps_example =
    check_header_wraps (io_source (holding (hton huge ++ (1 ∷ 2 ∷ 3 ∷ [])))) (first 23) huge
      (1 ∷ 2 ∷ 3 ∷ []) (omega arith) refl huge-Fits (omega arith) (omega arith)
