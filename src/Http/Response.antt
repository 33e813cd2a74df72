-- ===== src/Http/Response.antt =====
-- src/protocol/http/http_response.cpp: `checkHeader`, which hands the slices of a buffer to the parser,
-- and `deserialize`.
use sofa_bolt_cpp.Base.{ℕ, ◌+◌, Bool, Option, none, some, List, [], ◌∷◌, if◌then◌else◌, ◌==◌}
use sofa_bolt_cpp.Bolt.{ParseResult, parse_ok, parse_error, not_enough_data}
use sofa_bolt_cpp.IoBuffer.{Memory, Slice, Buffer, slice_bytes, live}
use sofa_bolt_cpp.IoBuffer.Cut.{pop_front}
use sofa_bolt_cpp.Http.{on_message_begin, MessageInfo, Event, is_complete, on_event}

-- What `http_parser_execute` leaves: how many bytes it has parsed, whether `http_errno` is set, the
-- parser, and what the callbacks made of the message.
pub record Executed (P : Type 0) : Type 0 where
  pub parsed : ℕ
  pub has_errno : Bool
  pub parser : P
  pub info : MessageInfo

-- The library: `http_parser_init`, and `http_parser_execute` with the callbacks.
pub record HttpParser : Type 1 where
  pub Parser : Type 0
  pub http_parser_init : Parser
  pub http_parser_execute :
      (Event → MessageInfo → Bool × MessageInfo) → Parser → MessageInfo → List ℕ → Executed Parser

abbrev pub new_info : MessageInfo
new_info = record { stage = on_message_begin; url = []; cur_header = []; body = []; header = [] }

module _ (L : HttpParser) where
  -- The loop over the slices, from the parser and the message as they are, with `nr` bytes parsed:
  -- the result, `nr`, and the parser with the message, unless they were deleted.
  pub parse_slices :
      Memory
      → List Slice
      → L.Parser
      → MessageInfo
      → ℕ
      → ParseResult × ℕ × Option (L.Parser × MessageInfo)
  parse_slices m [] p i nr = (not_enough_data, nr, some (p, i))
  parse_slices m (s ∷ ss) p i nr =
      let done = L.http_parser_execute on_event p i (slice_bytes m s) in
      let skipped = parse_slices m ss p i nr in
      let rest = parse_slices m ss done.parser done.info (nr + done.parsed) in
      if s.count == 0
      then skipped
      else if done.has_errno
      then (parse_error, nr + done.parsed, none)
      else if is_complete done.info.stage
      then (parse_ok, nr + done.parsed, some (done.parser, done.info))
      else rest

  -- `HttpResponse::checkHeader`, where `slot` is what `*p` points to.
  pub check_message :
      Memory
      → Buffer
      → Option (L.Parser × MessageInfo)
      → ParseResult × Buffer × Option (L.Parser × MessageInfo)
  check_message m b slot = let (result, nr, left) = from slot in (result, (pop_front b nr).1, left)
    where
      from : Option (L.Parser × MessageInfo) → ParseResult × ℕ × Option (L.Parser × MessageInfo)
      from (some (p, i)) = parse_slices m (live b) p i 0
      from none = parse_slices m (live b) L.http_parser_init new_info 0

-- `HttpResponse`: what it holds, and the message of its parser; `none` is a null pointer.
pub record HttpResponse : Type 0 where
  pub url : List ℕ
  pub body : List ℕ
  pub header : List (List ℕ × List ℕ)
  pub parser_data : Option (Option MessageInfo)

-- `HttpResponse::deserialize`
pub deserialize_message : HttpResponse → ParseResult × HttpResponse
deserialize_message r = from r.parser_data
  where
    from : Option (Option MessageInfo) → ParseResult × HttpResponse
    from (some (some i)) =
        if is_complete i.stage
        then (
          parse_ok,
          record { url = i.url; body = i.body; header = i.header; parser_data = none },
        )
        else (parse_error, record r { parser_data = none })
    from other = (parse_error, record r { parser_data = none })
