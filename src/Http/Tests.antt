-- ===== src/Http/Tests.antt =====
-- The HTTP protocol on a small message.
use sofa_bolt_cpp.Base.{◌≡◌, ◌⊎◌, inl, refl, true, some, none, List, [], ◌∷◌, ◌++◌, codes, arith}
use sofa_bolt_cpp.Http.{
  on_message_complete, value_part, field_part, on_event, on_field, on_value, is_field, is_value,
  is_empty, add_header,
}
use sofa_bolt_cpp.IoBuffer.{to_string}
use sofa_bolt_cpp.IoBuffer.Tests.{small, small-IsValid, two_slices, two_slices-Holds}
use sofa_bolt_cpp.Http.Request.{method_post, HttpRequest, attach_size, assemble_http_request}
use sofa_bolt_cpp.Http.Text.{post_text, log_line, connection_line, assemble_http_request-post_text}
use sofa_bolt_cpp.Http.Response.{new_info}
use sofa_bolt_cpp.Http.Message.{
  run_events, HeaderParts, concat, message_events, lookup, values, joined,
}
use sofa_bolt_cpp.Http.Headers.{message_events-parts}

-- "to" comes twice, once in two parts.
abbrev headers : List HeaderParts
headers =
    record { first = codes "to"; more = []; value = codes "a" }
    ∷ record { first = codes "at"; more = []; value = codes "b" }
    ∷ record { first = codes "t"; more = codes "o" ∷ []; value = codes "c" }
    ∷ []

message_events-parts_example :
    let (ok, i) = run_events (message_events headers (codes "x" ∷ codes "y" ∷ [])) new_info in
    (ok ≡ true)
    × (i.stage ≡ on_message_complete)
    × (i.body ≡ concat (codes "x" ∷ codes "y" ∷ []))
    × (lookup (codes "to") i.header ≡ joined none (values (codes "to") headers))
unfolding is_empty
message_events-parts_example =
    message_events-parts headers (codes "x" ∷ codes "y" ∷ []) (codes "to") refl

joined_to : joined none (values (codes "to") headers) ≡ some (codes "a,c")
joined_to = refl

-- A value that comes in two parts is given a comma where it was cut.
cut_value :
    (run_events
      (field_part (codes "to") ∷ value_part (codes "a") ∷ value_part (codes "c") ∷ [])
      new_info).1.header
    ≡ (codes "to", codes "a,c") ∷ []
unfolding on_event on_field on_value is_field is_value is_empty add_header
cut_value = refl

-- A POST request with five bytes of data.
abbrev request : HttpRequest
request = record {
  uri = record {
    schema = codes "http";
    host = codes "a.b";
    path = codes "/x";
    user_info = [];
    query = [];
    fragment = [];
    port = some 80;
    parse_ok = true;
  };
  method = method_post;
  attach_type = codes "a/b";
  attached = some two_slices;
}

assemble_http_request-post_text_example :
    let (ok, (m', (b', r'))) = assemble_http_request (λ h. h) small two_slices request 7 in
    let text = post_text (codes "/x") (codes "a/b") (codes "a.b") 80 5 in
    (ok ≡ true)
    × ((to_string m' b'
          ≡ to_string small two_slices
            ++ (text (log_line 7) connection_line ++ to_string small two_slices))
        ⊎ (to_string m' b'
            ≡ to_string small two_slices
              ++ (text connection_line (log_line 7) ++ to_string small two_slices)))
    × (attach_size r'.attached ≡ 0)
unfolding is_empty
assemble_http_request-post_text_example =
    assemble_http_request-post_text (λ h. h) small two_slices two_slices request 7 80
      (λ h. inl refl) refl refl refl refl refl refl small-IsValid two_slices-Holds two_slices-Holds
      (omega arith) (omega arith)
