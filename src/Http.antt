-- ===== src/Http.antt =====
-- The HTTP protocol: src/protocol/http/http_response.cpp and src/protocol/http/http_protocol.cpp.
-- http_parser.c is the library of that name, which calls the callbacks below.
pub mod Response
pub mod Request
pub mod Text
pub mod Message
pub mod Runs
pub mod Headers
pub mod Tests
use sofa_bolt_cpp.Base.{
  ℕ, ◌≡◌, Bool, true, false, not, Option, none, some, List, [], ◌∷◌, ◌++◌, if◌then◌else◌,
}
use sofa_bolt_cpp.Bolt.Response.{bytes_eq}

-- `HttpParserStage`
pub data Stage : Type 0 where
  on_message_begin on_url on_status on_header_field on_header_value : Stage
  on_headers_complete on_body on_message_complete : Stage

-- `HttpMessageInfo`; the header map is the list of its entries.
pub record MessageInfo : Type 0 where
  pub stage : Stage
  pub url : List ℕ
  pub cur_header : List ℕ
  pub body : List ℕ
  pub header : List (List ℕ × List ℕ)

-- The calls of the functions of `g_parser_settings`, with the text that each one is given.
pub data Event : Type 0 where
  message_begin status headers_complete message_complete : Event
  url_part field_part value_part body_part : (text : List ℕ) → Event

pub is_field : Stage → Bool
is_field on_header_field = true
is_field other = false

pub is_value : Stage → Bool
is_value on_header_value = true
is_value other = false

pub is_complete : Stage → Bool
is_complete on_message_complete = true
is_complete other = false

pub is_empty : List ℕ → Bool
is_empty [] = true
is_empty (c ∷ cs) = false

-- `header.emplace`, and the comma and the value behind a value that is there.
pub add_header : List ℕ → List ℕ → List (List ℕ × List ℕ) → List (List ℕ × List ℕ)
add_header k v [] = (k, v) ∷ []
add_header k v ((j, w) ∷ m) =
    let rest = add_header k v m in if bytes_eq j k then (j, w ++ (44 ∷ v)) ∷ m else (j, w) ∷ rest

-- `onHeaderField`: a name that is not the rest of one begins anew.
pub on_field : List ℕ → MessageInfo → MessageInfo
on_field text i = record i {
  stage = on_header_field;
  cur_header = if is_field i.stage then i.cur_header ++ text else text;
}

-- `onHeaderValue`, which fails where a value begins without a name.
pub on_value : List ℕ → MessageInfo → Bool × MessageInfo
on_value text i =
    let i' = record i { stage = on_header_value } in
    let nameless = if is_value i.stage then false else is_empty i.cur_header in
    if nameless
    then (false, i')
    else (true, record i' { header = add_header i.cur_header text i.header })

-- The callbacks; false is a result that is not 0.
pub on_event : Event → MessageInfo → Bool × MessageInfo
on_event message_begin i = (true, record i { stage = on_message_begin })
on_event (url_part text) i = (true, record i { stage = on_url; url = i.url ++ text })
on_event status i = (true, record i { stage = on_status })
on_event (field_part text) i = (true, on_field text i)
on_event (value_part text) i = on_value text i
on_event headers_complete i = (true, record i { stage = on_headers_complete })
on_event (body_part text) i = (true, record i { stage = on_body; body = i.body ++ text })
on_event message_complete i = (true, record i { stage = on_message_complete })
