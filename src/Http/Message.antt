-- ===== src/Http/Message.antt =====
-- src/protocol/http/http_response.cpp: the order in which the callbacks are called for a message, and
-- what its headers are to be.
use sofa_bolt_cpp.Base.{
  ℕ, Bool, true, false, not, ◌&&◌, Option, none, some, List, [], ◌∷◌, ◌++◌, map, if◌then◌else◌,
}
use sofa_bolt_cpp.Bolt.Response.{bytes_eq}
use sofa_bolt_cpp.Http.{
  MessageInfo, Event, message_begin, status, headers_complete, message_complete, field_part,
  value_part, body_part, is_empty, on_event,
}

-- The callbacks are called one after the other, until one of them fails.
abbrev pub run_events : List Event → MessageInfo → Bool × MessageInfo
run_events [] i = (true, i)
run_events (e ∷ es) i =
    let (ok, i') = on_event e i in let rest = run_events es i' in if ok then rest else (false, i')

-- A header of a message: its name comes in one part or more, its value in one.
pub record HeaderParts : Type 0 where
  pub first : List ℕ
  pub more : List (List ℕ)
  pub value : List ℕ

abbrev pub concat : List (List ℕ) → List ℕ
concat [] = []
concat (t ∷ ts) = t ++ concat ts

abbrev pub name : HeaderParts → List ℕ
name h = h.first ++ concat h.more

abbrev pub named : List HeaderParts → Bool
named [] = true
named (h ∷ hs) = not (is_empty (name h)) && named hs

-- The calls for a message with the headers `hs` and the body in the parts `bodies`.
abbrev pub header_events : List HeaderParts → List Event
header_events [] = []
header_events (h ∷ hs) =
    field_part h.first ∷ (map field_part h.more ++ (value_part h.value ∷ header_events hs))

abbrev pub message_events : List HeaderParts → List (List ℕ) → List Event
message_events hs bodies =
    message_begin
    ∷ status
    ∷ (header_events hs ++ (headers_complete ∷ (map body_part bodies ++ (message_complete ∷ []))))

-- The value of a name in a map, and what it is to be: all values of that name, with commas.
abbrev pub lookup : List ℕ → List (List ℕ × List ℕ) → Option (List ℕ)
lookup n [] = none
lookup n ((j, w) ∷ m) = if bytes_eq n j then some w else lookup n m

abbrev pub values : List ℕ → List HeaderParts → List (List ℕ)
values n [] = []
values n (h ∷ hs) = if bytes_eq n (name h) then h.value ∷ values n hs else values n hs

abbrev pub join_values : List ℕ → List (List ℕ) → List ℕ
join_values v [] = v
join_values v (w ∷ ws) = join_values (v ++ (44 ∷ w)) ws

abbrev pub joined : Option (List ℕ) → List (List ℕ) → Option (List ℕ)
joined none [] = none
joined none (v ∷ vs) = some (join_values v vs)
joined (some u) vs = some (join_values u vs)
