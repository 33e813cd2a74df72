-- ===== src/Bolt/Response.antt =====
-- src/protocol/bolt/bolt_response.cpp: the response header, `deserialize` and `checkHeader`.
pub mod Ends
pub mod Encode
pub mod Reads
pub mod RoundTrip
pub mod Check
use sofa_bolt_cpp.Base.{
  ℕ, zero, suc, ◌+◌, ◌-◌, ◌*◌, ◌%◌, ◌^◌, Bool, true, false, ◌&&◌, not, Option, none, some, List, [],
  ◌∷◌, ◌++◌, if◌then◌else◌, ltb, ◌==◌, length,
}
use sofa_bolt_cpp.ByteSource.{ByteSource}
use sofa_bolt_cpp.Bolt.{
  ParseResult, parse_ok, parse_error, not_enough_data, protocol_type, protocol_response,
  cmd_heartbeat, cmd_response,
}
use sofa_bolt_cpp.Bolt.Wire.{byte, read16, read32}

-- `BoltResponse::BoltHeader`, after `ntoh`.
pub record Header : Type 0 where
  pub proto : ℕ
  pub type : ℕ
  pub cmdcode : ℕ
  pub ver2 : ℕ
  pub request_id : ℕ
  pub codec : ℕ
  pub status : ℕ
  pub class_len : ℕ
  pub header_len : ℕ
  pub content_len : ℕ

-- `sizeof(BoltHeader)`: the structure is packed.
abbrev pub header_size : ℕ
header_size = 20

abbrev pub ntoh : List ℕ → Header
ntoh bs = record {
  proto = byte bs 0;
  type = byte bs 1;
  cmdcode = read16 bs 2;
  ver2 = byte bs 4;
  request_id = read32 bs 5;
  codec = byte bs 9;
  status = read16 bs 10;
  class_len = read16 bs 12;
  header_len = read16 bs 14;
  content_len = read32 bs 16;
}

-- `class_len + header_len + content_len`, a sum of type `uint32_t`.
abbrev pub body_size : Header → ℕ
body_size h = (h.class_len + h.header_len + h.content_len) % 2 ^ 32

abbrev pub bytes_eq : List ℕ → List ℕ → Bool
bytes_eq [] [] = true
bytes_eq [] (y ∷ ys) = false
bytes_eq (x ∷ xs) [] = false
bytes_eq (x ∷ xs) (y ∷ ys) = x == y && bytes_eq xs ys

-- `_header_map`: `emplace` keeps the value of a key that is there.
abbrev pub HeaderMap : Type 0
HeaderMap = List (List ℕ × List ℕ)

pub emplace : HeaderMap → List ℕ → List ℕ → HeaderMap
emplace [] k v = (k, v) ∷ []
emplace ((j, w) ∷ m) k v = if bytes_eq j k then (j, w) ∷ m else (j, w) ∷ emplace m k v

-- `EDataType`, and the state of a `BoltResponse`: `content` is what `_data` points to.
pub data DataType : Type 0 where
  string protobuf none_type : DataType

pub record Response : Type 0 where
  pub header : Header
  pub class_name : List ℕ
  pub header_map : HeaderMap
  pub content : List ℕ
  pub data_type : DataType

-- What `deserialize` puts into the map for entries in the order of the wire.
abbrev pub emplace_all : HeaderMap → List (List ℕ × List ℕ) → HeaderMap
emplace_all m [] = m
emplace_all m ((k, v) ∷ es) = emplace_all (emplace m k v) es

-- How a step of `deserialize` ends: it goes on with a value, or the function returns. `stuck` is a
-- loop without fuel.
pub data Outcome {ℓ} (A : Type ℓ) : Type ℓ where
  done : A → Outcome A
  stop : ParseResult → Outcome A
  stuck : Outcome A

-- `MAX_BOLT_BODY_SIZE`
abbrev pub max_body_size : ℕ
max_body_size = 64 * 1024 * 1024

-- `left_size -= k` on a `uint16_t`, for a `k` of at most 32 bits.
abbrev pub sub16 : ℕ → ℕ → ℕ
sub16 left k = (left + 2 ^ 32 - k) % 2 ^ 16

-- `BoltResponse::checkHeader` once the header is copied: from how many bytes of it there are, the
-- header, and the size of the buffer, the result, `data_size` and `request_id`. Of a header that is
-- not there in full nothing is reported.
unfoldable pub judge : ℕ → Header → ℕ → ParseResult × ℕ × ℕ
judge cn h buffer_size =
    if ltb cn header_size
    then (not_enough_data, 0, 0)
    else (if ltb max_body_size (body_size h)
        then (parse_error, body_size h, h.request_id)
        else (if ltb buffer_size (body_size h + header_size)
            then (not_enough_data, body_size h + header_size, h.request_id)
            else (parse_ok, body_size h + header_size, h.request_id)))

unfoldable pub check_header : (B : ByteSource) → B.Buf → ParseResult × ℕ × ℕ
check_header B b = let (cn, bs) = B.copy_to b header_size in judge cn (ntoh bs) (B.size b)

-- The buffer and the response, which `deserialize` both changes.
pub record State (Buf : Type 0) : Type 0 where
  pub buf : Buf
  pub rsp : Response

abbrev pub M {ℓ} : Type 0 → Type ℓ → Type ℓ
M Buf A = State Buf → Outcome A × State Buf

module _ {Buf : Type 0} where
  infixl 5 ◌>>=◌ ◌>>◌
  abbrev pub ◌>>=◌ {ℓ κ} : {A : Type ℓ} {B : Type κ} → M Buf A → (A → M Buf B) → M Buf B
  ◌>>=◌ m f st =
      let (r, st') = m st in
      elim r [ done a ↦ f a st' | stop e ↦ (stop e, st') | stuck ↦ (stuck, st') ]

  abbrev pub ◌>>◌ {ℓ} : {B : Type ℓ} → M Buf (Unit {0}) → M Buf B → M Buf B
  m >> k = m >>= λ _. k

  abbrev pub give {ℓ} : {A : Type ℓ} → A → M Buf A
  give a st = (done a, st)

  abbrev pub leave {ℓ} : {A : Type ℓ} → ParseResult → M Buf A
  leave e st = (stop e, st)

  -- `if (!ok) { return e; }`
  abbrev pub require : Bool → ParseResult → M Buf (Unit {0})
  require ok e = if ok then give tt else leave e

  abbrev pub change : (Response → Response) → M Buf (Unit {0})
  change f st = (done tt, record st { rsp = f st.rsp })

-- `parse_proto` stands for `ParseFromCodedStream` with `ConsumedEntireMessage`: from the bytes of
-- the buffer, what the message holds then and how many bytes the stream gave out; nothing if it
-- fails.
module _ (B : ByteSource) (parse_proto : List ℕ → Option (List ℕ × ℕ)) where
  open B use {Buf, view, size, cut, pop_front}

  -- `cn = buffer.cut(p, n); if (cn < n) { return PARSE_NOT_ENOUGH_DATA; }`
  -- What a short read leaves in its target, before the function returns, is left out.
  pub cut_exact : ℕ → M Buf (List ℕ)
  cut_exact n st =
      let (cn, out, b') = cut st.buf n in
      (if ltb cn n then stop not_enough_data else done out, record st { buf = b' })

  -- `if (n > 0) { ... }`: a string of `n` bytes, with `n`.
  pub read_string : ℕ → M Buf (ℕ × List ℕ)
  read_string n = do s ← if ltb 0 n then cut_exact n else give []; give (n, s)

  -- A string behind its length of four bytes.
  pub read_sized : M Buf (ℕ × List ℕ)
  read_sized = do bs ← cut_exact 4; read_string (read32 bs 0)

  -- One round of `while (left_size > 0)`: an entry goes into the map; the `left_size` after it.
  pub store_entry : ℕ → ℕ × List ℕ → ℕ × List ℕ → M Buf ℕ
  store_entry left key value = do
    change (λ r. record r { header_map = emplace r.header_map key.1 value.1 })
    give (sub16 (sub16 (sub16 (sub16 left 4) key.0) 4) value.0)

  pub read_value : ℕ → ℕ × List ℕ → M Buf ℕ
  read_value left key = read_sized >>= store_entry left key

  pub read_entry : ℕ → M Buf ℕ
  read_entry left = read_sized >>= read_value left

  -- `while (left_size > 0)` over the header's entries.
  pub read_entries : ℕ → ℕ → M Buf (Unit {0})
  read_entries zero left = if left == 0 then give tt else λ st. (stuck, st)
  read_entries (suc fuel) left =
      let round = read_entry left >>= (λ left'. read_entries fuel left') in
      if left == 0 then give tt else round

  -- The branches on `_data_type`, where there is content.
  pub read_content : Header → DataType → M Buf (Unit {0})
  read_content h string = do bs ← cut_exact h.content_len; change (λ r. record r { content = bs })
  read_content h protobuf = λ st. elim (parse_proto (view st.buf)) [
    | none ↦ (stop parse_error, st)
    | some (message, count) ↦
        if count == h.content_len
        then (
          done tt,
          record {
            buf = (pop_front st.buf h.content_len).1;
            rsp = record (st.rsp) { content = message };
          },
        )
        else (stop parse_error, record st { rsp = record (st.rsp) { content = message } })
  ]
  read_content h none_type = give tt

  -- `if (_header.content_len > 0)`
  pub read_any_content : Header → M Buf (Unit {0})
  read_any_content h st =
      if ltb 0 h.content_len then read_content h st.rsp.data_type st else give tt st

  -- The body of a response whose status is success.
  pub read_named : ℕ → Header → List ℕ → M Buf (Unit {0})
  read_named fuel h name = do
    change (λ r. record r { class_name = name })
    read_entries fuel h.header_len
    read_any_content h

  pub read_body : ℕ → Header → M Buf (Unit {0})
  read_body fuel h = cut_exact h.class_len >>= read_named fuel h

  -- What follows the header in `deserialize`.
  pub dispatch : ℕ → Header → M Buf (Unit {0})
  dispatch fuel h = do
    require (h.proto == protocol_type) parse_error
    require (h.type == protocol_response) parse_error
    if h.cmdcode == cmd_heartbeat then give tt else do
      require (h.cmdcode == cmd_response) parse_error
      if h.status == 0 then read_body fuel h else λ st.
          (done tt, record st { buf = (pop_front st.buf (body_size h)).1 })

  -- `BoltResponse::deserialize`, with fuel for the loop over the entries. A short read leaves the
  -- header unspecified in the source, and as it was here.
  pub read_headed : ℕ → List ℕ → M Buf (Unit {0})
  read_headed fuel bs = do change (λ r. record r { header = ntoh bs }); dispatch fuel (ntoh bs)

  pub deserialize_from : ℕ → M Buf (Unit {0})
  deserialize_from fuel = cut_exact header_size >>= read_headed fuel

  -- Each round takes eight bytes off the buffer at least.
  pub deserialize : M Buf (Unit {0})
  deserialize st = deserialize_from (size st.buf + 1) st
