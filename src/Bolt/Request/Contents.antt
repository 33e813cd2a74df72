-- ===== src/Bolt/Request/Contents.antt =====
-- What `BoltInternalRequest::serialize` of src/protocol/bolt/bolt_protocol.cpp leaves in the buffer of
-- the caller.
use sofa_bolt_cpp.Base.{
  ℕ, ◌+◌, ◌%◌, ◌^◌, ◌≤◌, ◌<◌, ◌≡◌, refl, ap, ap₂, subst, ◌∙◌, sym, some, List, ◌++◌, arith, length,
  take, append_assoc, length-append, eq→==, ◌⊎◌, inl, inr,
}
use sofa_bolt_cpp.IoBuffer.{Memory, Buffer, slices_bytes, to_string, new_buffer}
use sofa_bolt_cpp.IoBuffer.Append.{append}
use sofa_bolt_cpp.IoBuffer.Append.Valid.{IsValid, Extends, Extends-trans}
use sofa_bolt_cpp.IoBuffer.Append.Put.{Holds, to_string-Extends}
use sofa_bolt_cpp.IoBuffer.Append.Contents.{
  Appends, append-Appends, append_buffer_lem, append_moved_lem,
}
use sofa_bolt_cpp.Bolt.{cmd_heartbeat}
use sofa_bolt_cpp.Bolt.Response.Encode.{encode_entries}
use sofa_bolt_cpp.Bolt.Request.{
  Request, RequestHeader, cstring, string, nothing, hton, init_header, class_name, put_entries,
  Filled, put_content, put_frame, serialize_request, serialize, assemble_request,
}
use sofa_bolt_cpp.Bolt.Request.Frame.{
  append-then, entries, entries_size, length-entries, put_entries-Appends,
}

-- What a step leaves when the caller's buffer then reads `bytes`.
pub record Frames (m : Memory) (bytes : List ℕ) (r : Memory × Buffer) : Type 0 where
  pub valid : IsValid r.0
  pub extends : Extends m r.0
  pub holds : Holds r.0 r.1
  pub same : to_string r.0 r.1 ≡ bytes

-- The header goes behind the caller's bytes, and the body behind the header.
put_frame-Frames :
    (w : Filled)
    → IsValid w.memory
    → Holds w.memory w.outer
    → Holds w.memory w.body
    → w.body.ref_offset ≡ 0
    → 22 ≤ w.memory.room
    → Frames w.memory
        (to_string w.memory w.outer ++ (hton w.header ++ to_string w.memory w.body))
        (put_frame w)
unfolding put_frame
put_frame-Frames w v h g zero_offset room =
    let done = append-Appends w.memory w.outer (hton w.header) v h room in
    let m' = (append w.memory w.outer (hton w.header)).0 in
    let b' = (append w.memory w.outer (hton w.header)).1 in
    let (kept, held) = to_string-Extends w.body done.extends g in
    let (same, all) = append_buffer_lem m' b' w.body done.holds held in
    record {
      valid = done.valid;
      extends = done.extends;
      holds = subst (λ p. Holds m' p.0) (sym (append_moved_lem b' w.body)) all;
      same =
          ap (λ p. to_string m' p.0) (append_moved_lem b' w.body)
          ∙ same
          ∙ ap₂ ◌++◌ done.same (
              ap (λ j. slices_bytes m' (take j w.body.ref) ++ to_string m' w.body) zero_offset
              ∙ kept)
          ∙ append_assoc (to_string w.memory w.outer) (hton w.header) (to_string w.memory w.body);
    }

Frames-from :
    {m m' : Memory} {xs ys : List ℕ} {r : Memory × Buffer}
    → Extends m m'
    → xs ≡ ys
    → Frames m' xs r
    → Frames m ys r
Frames-from e same f = record {
  valid = f.valid;
  extends = Extends-trans e f.extends;
  holds = f.holds;
  same = f.same ∙ same;
}

-- The three headers of the results below differ in the length of the content.
abbrev pub filled_header : RequestHeader → Request → ℕ → RequestHeader
filled_header h req n = record h {
  class_len = length class_name;
  header_len = entries_size req;
  content_len = n % 2 ^ 32;
}

-- `serialize` with a string: the bytes of the caller, the header, the class name, the entries of the
-- header map and the string, with the lengths of the last three in the header, where the entries
-- take less than 2^16 bytes and there is room for all of it.
pub serialize_string_lem :
    (m : Memory) (b : Buffer) (h : RequestHeader) (req : Request) (s : List ℕ)
    → IsValid m
    → Holds m b
    → req.payload ≡ string (some s)
    → entries_size req < 2 ^ 16
    → 66 + entries_size req + length s ≤ m.room
    → Frames m
        (to_string m b
          ++ (hton (filled_header h req (length s))
              ++ (class_name ++ (encode_entries (entries req) ++ s))))
        (serialize_request m b h req)
unfolding serialize_request put_content
serialize_string_lem m b h req s v held e small room =
    let nothing_yet : Holds m new_buffer = record { aligned = omega arith; in_use = tt } in
    let first = append-Appends m new_buffer class_name v nothing_yet (omega arith) in
    let (second, size) = put_entries-Appends req first small (omega arith) in
    let (m₁, b₁) = append m new_buffer class_name in
    let (m₂, b₂, n) = put_entries m₁ b₁ req in
    let (m₃, b₃) = append m₂ b₂ s in
    let body : List ℕ = class_name ++ encode_entries (entries req) in
    let body_size = length-append class_name (encode_entries (entries req)) in
    let third = append-then s second (omega (arith, body_size, length-entries req)) in
    let (kept, outer) = to_string-Extends b third.extends held in
    let w : Filled = record {
      memory = m₃;
      outer = b;
      body = b₃;
      header = filled_header h req (length s);
    } in
    let framed =
      put_frame-Frames w third.valid outer third.holds third.offset
        (omega (arith, third.spent, length-append body s, body_size, length-entries req)) in
    simp (e, size)
      (Frames-from third.extends
        (ap₂ (λ p q. p ++ (hton (filled_header h req (length s)) ++ q)) kept
          (third.same ∙ append_assoc class_name (encode_entries (entries req)) s))
        framed)

-- `serialize` with a `char*` text puts the text before the header instead of behind the entries.
pub serialize_cstring_lem :
    (m : Memory) (b : Buffer) (h : RequestHeader) (req : Request) (s : List ℕ)
    → IsValid m
    → Holds m b
    → req.payload ≡ cstring (some s)
    → entries_size req < 2 ^ 16
    → 66 + entries_size req + length s ≤ m.room
    → Frames m
        ((to_string m b ++ s)
          ++ (hton (filled_header h req (length s))
              ++ (class_name ++ encode_entries (entries req))))
        (serialize_request m b h req)
unfolding serialize_request put_content
serialize_cstring_lem m b h req s v held e small room =
    let nothing_yet : Holds m new_buffer = record { aligned = omega arith; in_use = tt } in
    let first = append-Appends m new_buffer class_name v nothing_yet (omega arith) in
    let (second, size) = put_entries-Appends req first small (omega arith) in
    let (m₁, b₁) = append m new_buffer class_name in
    let (m₂, b₂, n) = put_entries m₁ b₁ req in
    let (m₃, b₃) = append m₂ b s in
    let body_size = length-append class_name (encode_entries (entries req)) in
    let (kept, outer) = to_string-Extends b second.extends held in
    let third =
      append-Appends m₂ b s second.valid outer
        (omega (arith, second.spent, body_size, length-entries req)) in
    let (body, body_held) = to_string-Extends b₂ third.extends second.holds in
    let w : Filled = record {
      memory = m₃;
      outer = b₃;
      body = b₂;
      header = filled_header h req (length s);
    } in
    let framed =
      put_frame-Frames w third.valid third.holds body_held second.offset
        (omega (arith, third.spent, second.spent, body_size, length-entries req)) in
    simp (e, size)
      (Frames-from (Extends-trans second.extends third.extends)
        (ap₂ (λ p q. p ++ (hton (filled_header h req (length s)) ++ q))
          (third.same ∙ ap (λ p. p ++ s) kept) (body ∙ second.same))
        framed)

-- Only a request without data is a heartbeat.
assemble_request-content :
    (m : Memory) (b : Buffer) (req : Request) (id : ℕ) (s : List ℕ)
    → (req.payload ≡ string (some s)) ⊎ (req.payload ≡ cstring (some s))
    → assemble_request m b req id ≡ serialize_request m b (init_header req id) req
unfolding assemble_request serialize init_header
assemble_request-content m b req id s (inl e) = rw e refl
assemble_request-content m b req id s (inr e) = rw e refl

-- `assembleBoltRequest` of a request with a string, whose header map takes less than 2^16 bytes, where
-- `malloc` grants what it asks for: behind
-- the caller's bytes stand the header with the lengths, the class name, the header map and the
-- string, and what any other buffer holds stays.
pub assemble_string_lem :
    (m : Memory) (b c : Buffer) (req : Request) (id : ℕ) (s : List ℕ)
    → IsValid m
    → Holds m b
    → Holds m c
    → req.payload ≡ string (some s)
    → entries_size req < 2 ^ 16
    → 66 + entries_size req + length s ≤ m.room
    → let (m', b') = assemble_request m b req id in
      (to_string m' b'
        ≡ to_string m b
          ++ (hton (filled_header (init_header req id) req (length s))
              ++ (class_name ++ (encode_entries (entries req) ++ s))))
      × (to_string m' c ≡ to_string m c)
      × IsValid m'
      × Holds m' b'
assemble_string_lem m b c req id s v h g e small room =
    let done = serialize_string_lem m b (init_header req id) req s v h e small room in
    let (kept, held) = to_string-Extends c done.extends g in
    rw (assemble_request-content m b req id s (inl e)) (done.same, kept, done.valid, done.holds)

-- The same for a `char*` text, which stands before the header that counts it.
pub assemble_cstring_lem :
    (m : Memory) (b : Buffer) (req : Request) (id : ℕ) (s : List ℕ)
    → IsValid m
    → Holds m b
    → req.payload ≡ cstring (some s)
    → entries_size req < 2 ^ 16
    → 66 + entries_size req + length s ≤ m.room
    → let (m', b') = assemble_request m b req id in
      to_string m' b'
      ≡ (to_string m b ++ s)
        ++ (hton (filled_header (init_header req id) req (length s))
            ++ (class_name ++ encode_entries (entries req)))
assemble_cstring_lem m b req id s v h e small room =
    rw (assemble_request-content m b req id s (inr e))
      (serialize_cstring_lem m b (init_header req id) req s v h e small room).same

-- A heartbeat is a header and nothing behind it.
pub assemble_heartbeat_lem :
    (m : Memory) (b : Buffer) (req : Request) (id : ℕ)
    → IsValid m
    → Holds m b
    → req.payload ≡ nothing
    → 22 ≤ m.room
    → Appends m b (hton (init_header req id)) (assemble_request m b req id)
unfolding assemble_request serialize init_header
assemble_heartbeat_lem m b req id v h e room =
    let heartbeat : (init_header req id).cmdcode ≡ cmd_heartbeat = rw e refl in
    rw (eq→== _ _ heartbeat) (append-Appends m b (hton (init_header req id)) v h room)
