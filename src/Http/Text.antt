-- ===== src/Http/Text.antt =====
-- The text of a POST request of src/protocol/http/http_request.cpp, line by line.
use sofa_bolt_cpp.Base.{
  ℕ, ◌≤◌, length, arith, ◌≡◌, ◌⊎◌, inl, inr, true, ap, ◌∙◌, false, some, List, [], ◌∷◌, ◌++◌, codes,
  append_assoc,
}
use sofa_bolt_cpp.IoBuffer.{Memory, Buffer, size, to_string}
use sofa_bolt_cpp.IoBuffer.Append.Valid.{IsValid}
use sofa_bolt_cpp.IoBuffer.Append.Put.{Holds}
use sofa_bolt_cpp.Http.{is_empty}
use sofa_bolt_cpp.Http.Request.{
  method_post, HeaderKey, HttpRequest, attach_size, decimal, key_eq, set_header, request_headers,
  header_lines, length_line, type_line, request_head, assemble_http_request,
  assemble_http_request_lem,
}
use mathlib.Core.List.{reverse}

-- Lines, each with its end.
abbrev pub lines : List (List ℕ) → List ℕ
lines [] = []
lines (l ∷ ls) = l ++ (13 ∷ 10 ∷ lines ls)

-- The lines of a POST request with `n` bytes of data, of which two, `x` and `y`, come from the header map.
abbrev pub post_text : (path type host : List ℕ) (port n : ℕ) (x y : List ℕ) → List ℕ
post_text path type host port n x y = lines (
    (codes "POST " ++ (path ++ codes " HTTP/1.1"))
    ∷ (codes "Content-Length: " ++ decimal n)
    ∷ (codes "Content-Type: " ++ type)
    ∷ (codes "Host: " ++ (host ++ (codes ":" ++ decimal port)))
    ∷ codes "Accept: */*"
    ∷ codes "User-Agent: curl/7.0"
    ∷ x
    ∷ y
    ∷ []
    ∷ [])

abbrev pub log_line : ℕ → List ℕ
log_line id = codes "log-id: " ++ decimal id

abbrev pub connection_line : List ℕ
connection_line = codes "connection: keep-alive"

pub request_head-post_text :
    (order : List (HeaderKey × List ℕ) → List (HeaderKey × List ℕ)) (r : HttpRequest) (d : Buffer)
    (id port : ℕ)
    → ((h : List (HeaderKey × List ℕ)) → (order h ≡ h) ⊎ (order h ≡ reverse h))
    → r.method ≡ method_post
    → r.attached ≡ some d
    → is_empty r.attach_type ≡ false
    → r.uri.port ≡ some port
    → let text = post_text r.uri.path r.attach_type r.uri.host port (size d) in
      let head = request_head r (order (request_headers id)) in
      (head ≡ text (log_line id) connection_line) ⊎ (head ≡ text connection_line (log_line id))
unfolding request_head request_headers set_header key_eq header_lines length_line type_line
    attach_size is_empty
request_head-post_text order r d id port orders post attached typed at =
    elim (orders (request_headers id)) [
      | inl e ↦ inl (rw (e, post, attached, typed, at) (simp append_assoc))
      | inr e ↦ inr (rw (e, post, attached, typed, at) (simp append_assoc))
    ]

-- A POST request whose address was parsed and has a port, with a type and with data of which nothing is
-- consumed, is written behind what the buffer has where the memory has room: the request line with the
-- path and HTTP/1.1, the length, the type, the host and the port, what is accepted, the agent, the number
-- of the request and that the connection is kept, these two in the order in which the map is iterated, an
-- empty line, and then the data. After that the request has no data left for another attempt.
pub assemble_http_request-post_text :
    (order : List (HeaderKey × List ℕ) → List (HeaderKey × List ℕ)) (m : Memory) (b d : Buffer)
    (r : HttpRequest) (id port : ℕ)
    → ((h : List (HeaderKey × List ℕ)) → (order h ≡ h) ⊎ (order h ≡ reverse h))
    → r.method ≡ method_post
    → r.attached ≡ some d
    → is_empty r.attach_type ≡ false
    → r.uri.port ≡ some port
    → r.uri.parse_ok ≡ true
    → d.ref_offset ≡ 0
    → IsValid m
    → Holds m b
    → Holds m d
    → let text = post_text r.uri.path r.attach_type r.uri.host port (size d) in
      length (text (log_line id) connection_line) ≤ m.room
      → length (text connection_line (log_line id)) ≤ m.room
      → let (ok, (m', (b', r'))) = assemble_http_request order m b r id in
        (ok ≡ true)
        × ((to_string m' b'
              ≡ to_string m b ++ (text (log_line id) connection_line ++ to_string m d))
            ⊎ (to_string m' b'
                ≡ to_string m b ++ (text connection_line (log_line id) ++ to_string m d)))
        × (attach_size r'.attached ≡ 0)
assemble_http_request-post_text order m b d r id port orders post attached typed at ok start v h g
      room room' =
    let head = request_head r (order (request_headers id)) in
    elim (request_head-post_text order r d id port orders post attached typed at) [
      | inl e ↦
          let (done, bytes, left) =
            assemble_http_request_lem order m b d r id ok attached start v h g
              (omega (arith, room, ap length e)) in
          (done, inl (bytes ∙ ap (λ t. to_string m b ++ (t ++ to_string m d)) e), left)
      | inr e ↦
          let (done, bytes, left) =
            assemble_http_request_lem order m b d r id ok attached start v h g
              (omega (arith, room', ap length e)) in
          (done, inr (bytes ∙ ap (λ t. to_string m b ++ (t ++ to_string m d)) e), left)
    ]
