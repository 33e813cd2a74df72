-- ===== src/Http/Request.antt =====
-- src/protocol/http/http_protocol.cpp, include/protocol/http/http_header.h and
-- src/protocol/http/http_request.cpp: what is written for a request.
use sofa_bolt_cpp.Base.{
  ℕ, zero, suc, ◌+◌, ◌/◌, ◌%◌, ◌≤◌, ◌≡◌, refl, ap, ap₂, subst, take, ◌∙◌, sym, Bool, true, false,
  Option, none, some, List, [], ◌∷◌, ◌++◌, if◌then◌else◌, ltb, codes, length, append_assoc,
}
use sofa_bolt_cpp.Bolt.Response.{bytes_eq}
use sofa_bolt_cpp.IoBuffer.{Memory, Buffer, size, to_string, slices_bytes, new_buffer}
use sofa_bolt_cpp.IoBuffer.Append.{append, append_moved, append_buffer}
use sofa_bolt_cpp.IoBuffer.Append.Valid.{IsValid}
use sofa_bolt_cpp.IoBuffer.Append.Put.{Holds}
use sofa_bolt_cpp.IoBuffer.Append.Contents.{append_lem, append_buffer_lem, append_moved_lem}
use sofa_bolt_cpp.Uri.{Uri}
use sofa_bolt_cpp.Http.{is_empty}

-- `EHttpMethod` and `EHttpHeaderKey`, with the texts of `HttpHeader`.
pub data Method : Type 0 where
  method_get method_post : Method

pub data HeaderKey : Type 0 where
  log_id content_type_json connection : HeaderKey

abbrev pub get_method : Method → List ℕ
get_method method_get = codes "GET"
get_method method_post = codes "POST"

abbrev pub get_header_key : HeaderKey → List ℕ
get_header_key log_id = codes "log-id"
get_header_key content_type_json = codes "application/json"
get_header_key connection = codes "connection"

-- `HttpRequest`
pub record HttpRequest : Type 0 where
  pub uri : Uri
  pub method : Method
  pub attach_type : List ℕ
  pub attached : Option Buffer

unfoldable pub attach_size : Option Buffer → ℕ
attach_size none = 0
attach_size (some b) = size b

-- `operator<<` of a number: its digits, of which there are `fuel` at most, before `text`.
abbrev pub digits : ℕ → ℕ → List ℕ → List ℕ
digits zero n text = text
digits (suc fuel) n text =
    let rest = digits fuel (n / 10) ((48 + n % 10) ∷ text) in
    if ltb n 10 then (48 + n) ∷ text else rest

abbrev pub decimal : ℕ → List ℕ
decimal n = digits (suc n) n []

-- A port that is not there is -1.
abbrev pub port_text : Option ℕ → List ℕ
port_text none = codes "-1"
port_text (some p) = decimal p

-- `HttpHeaderData::setHeader`; the map is the list of its entries.
unfoldable pub key_eq : HeaderKey → HeaderKey → Bool
key_eq k j = bytes_eq (get_header_key k) (get_header_key j)

unfoldable pub set_header :
    HeaderKey → List ℕ → List (HeaderKey × List ℕ) → List (HeaderKey × List ℕ)
set_header k v [] = (k, v) ∷ []
set_header k v ((j, w) ∷ m) =
    let rest = set_header k v m in if key_eq k j then (j, v) ∷ m else (j, w) ∷ rest

-- `HttpInternalRequest`: its header map.
unfoldable pub request_headers : ℕ → List (HeaderKey × List ℕ)
request_headers request_id =
    set_header connection (codes "keep-alive") (set_header log_id (decimal request_id) [])

abbrev pub line_end : List ℕ
line_end = 13 ∷ 10 ∷ []

unfoldable pub header_lines : List (HeaderKey × List ℕ) → List ℕ
header_lines [] = []
header_lines ((k, v) ∷ m) = get_header_key k ++ (codes ": " ++ (v ++ (line_end ++ header_lines m)))

unfoldable pub length_line : Method → ℕ → List ℕ
length_line method_get n = []
length_line method_post n = codes "Content-Length: " ++ (decimal n ++ line_end)

unfoldable pub type_line : List ℕ → List ℕ
type_line t = if is_empty t then [] else codes "Content-Type: " ++ (t ++ line_end)

-- The text before the body. `entries` is the header map in the order of its iteration.
unfoldable pub request_head : HttpRequest → List (HeaderKey × List ℕ) → List ℕ
request_head r entries =
    get_method r.method
    ++ (codes " "
        ++ (r.uri.path
            ++ (codes " HTTP/1.1"
                ++ (line_end
                    ++ (length_line r.method (attach_size r.attached)
                        ++ (type_line r.attach_type
                            ++ (codes "Host: "
                                ++ (r.uri.host
                                    ++ (codes ":"
                                        ++ (port_text r.uri.port
                                            ++ (line_end
                                                ++ (codes "Accept: */*"
                                                    ++ (line_end
                                                        ++ (codes "User-Agent: curl/7.0"
                                                            ++ (line_end
                                                            ++ (header_lines entries
                                                            ++ line_end))))))))))))))))

-- `HttpInternalRequest::serialize`, with what is left of the data of the request, which is moved away.
pub attach_data : Buffer → Option Buffer → Buffer × Option Buffer
attach_data b none = (b, none)
attach_data b (some d) = let (b', left) = append_moved b d in (b', some left)

pub serialize_http :
    Memory → Buffer → HttpRequest → List (HeaderKey × List ℕ) → Memory × (Buffer × HttpRequest)
serialize_http m b r entries =
    let (m', b') = append m b (request_head r entries) in
    let (b'', left) = attach_data b' r.attached in (m', (b'', record r { attached = left }))

-- `assembleHttpRequest`, which refuses a request whose address was not parsed. `order` is the order in
-- which the header map is iterated.
pub assemble_http_request :
    (List (HeaderKey × List ℕ) → List (HeaderKey × List ℕ))
    → Memory
    → Buffer
    → HttpRequest
    → ℕ
    → Bool × (Memory × (Buffer × HttpRequest))
assemble_http_request order m b r request_id =
    if r.uri.parse_ok
    then (true, serialize_http m b r (order (request_headers request_id)))
    else (false, (m, (b, r)))

-- `parseHttpResponse` keeps the parser; `converseHttpRequest` keeps the number.
pub converse_http_request : ℕ → ℕ
converse_http_request request_id = request_id

abbrev append_attached : Buffer → Buffer → Buffer × Option Buffer
append_attached b d = (append_buffer b d, some new_buffer)

-- Where the memory has room, and the address was parsed, a request with data of which nothing is
-- consumed is written behind what the buffer has, as the head and then the data; after that the
-- request has no data left for another attempt.
pub assemble_http_request_lem :
    (order : List (HeaderKey × List ℕ) → List (HeaderKey × List ℕ)) (m : Memory) (b d : Buffer)
    (r : HttpRequest) (id : ℕ)
    → r.uri.parse_ok ≡ true
    → r.attached ≡ some d
    → d.ref_offset ≡ 0
    → IsValid m
    → Holds m b
    → Holds m d
    → length (request_head r (order (request_headers id))) ≤ m.room
    → let (ok, (m', (b', r'))) = assemble_http_request order m b r id in
      (ok ≡ true)
      × (to_string m' b'
          ≡ to_string m b ++ (request_head r (order (request_headers id)) ++ to_string m d))
      × (attach_size r'.attached ≡ 0)
unfolding assemble_http_request serialize_http attach_data attach_size
assemble_http_request_lem order m b d r id ok e at_start v h g room =
    let entries = order (request_headers id) in
    let head = request_head r entries in
    let (same, kept, valid, holds, held) = append_lem m b d head v h g room in
    let (m', b') = append m b head in
    let (both, rest) = append_buffer_lem m' b' d holds held in
    let moved : attach_data b' r.attached ≡ append_attached b' d =
      ap (attach_data b') e ∙ ap (λ p. (p.0, some p.1)) (append_moved_lem b' d) in
    let front : slices_bytes m' (take d.ref_offset d.ref) ≡ [] =
      ap (λ n. slices_bytes m' (take n d.ref)) at_start in
    let body : to_string m' (append_buffer b' d) ≡ to_string m b ++ (head ++ to_string m d) =
      both
      ∙ ap (λ x. to_string m' b' ++ (x ++ to_string m' d)) front
      ∙ ap₂ (◌++◌) same kept
      ∙ append_assoc (to_string m b) head (to_string m d) in
    let written : assemble_http_request order m b r id ≡ (true, serialize_http m b r entries) =
      ap (λ t. if t then (true, serialize_http m b r entries) else (false, (m, (b, r)))) ok in
    subst
      (λ q.
        (q.0 ≡ true)
        × (to_string q.1.0 q.1.1.0 ≡ to_string m b ++ (head ++ to_string m d))
        × (attach_size q.1.1.1.attached ≡ 0))
      (sym written) (refl, ap (λ p. to_string m' p.0) moved ∙ body, ap (λ p. attach_size p.1) moved)
