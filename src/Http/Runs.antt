-- ===== src/Http/Runs.antt =====
-- src/protocol/http/http_response.cpp: what the callbacks make of the parts of a message.
use sofa_bolt_cpp.Base.{
  ℕ, ◌≡◌, refl, ap, sym, ◌∙◌, inl, inr, ap₂, true, false, List, [], ◌∷◌, ◌++◌, map, append-nil,
  append_assoc, if◌then◌else◌, Bool-cases,
}
use sofa_bolt_cpp.Http.{
  on_header_value, on_header_field, MessageInfo, Event, on_body, field_part, value_part, body_part,
  is_field, is_value, is_empty, add_header, on_field, on_value, on_event,
}
use sofa_bolt_cpp.Http.Message.{run_events, HeaderParts, concat, name, named, header_events}

on_field-first :
    (t : List ℕ) (i : MessageInfo)
    → is_field i.stage ≡ false
    → on_field t i ≡ record i { stage = on_header_field; cur_header = t }
unfolding on_field
on_field-first t i e = rw e refl

on_field-more :
    (t : List ℕ) (i : MessageInfo)
    → i.stage ≡ on_header_field
    → on_field t i ≡ record i { cur_header = i.cur_header ++ t }
unfolding on_field is_field
on_field-more t i e =
    ap₂ (λ st b. record i { stage = st; cur_header = if b then i.cur_header ++ t else t }) (sym e)
      (ap is_field e)

-- The calls for the rest of a name.
run-fields :
    (ts : List (List ℕ)) (es : List Event) (i : MessageInfo)
    → i.stage ≡ on_header_field
    → run_events (map field_part ts ++ es) i
      ≡ run_events es (record i { cur_header = i.cur_header ++ concat ts })
unfolding on_event
run-fields [] es i e =
    ap (λ t. run_events es (record i { cur_header = t })) (sym (append-nil i.cur_header))
run-fields (t ∷ ts) es i e =
    ap (run_events (map field_part ts ++ es)) (on_field-more t i e)
    ∙ run-fields ts es (record i { cur_header = i.cur_header ++ t }) e
    ∙ ap (λ x. run_events es (record i { cur_header = x }))
        (append_assoc i.cur_header t (concat ts))

on_value-named :
    (v : List ℕ) (i : MessageInfo)
    → i.stage ≡ on_header_field
    → is_empty i.cur_header ≡ false
    → on_value v i
      ≡ (true, record i { stage = on_header_value; header = add_header i.cur_header v i.header })
unfolding on_value is_value
on_value-named v i e f = let g : is_value i.stage ≡ false = ap is_value e in rw g (rw f refl)

-- The message after the calls for one header, and for all of them.
abbrev pub after_header : HeaderParts → MessageInfo → MessageInfo
after_header h i = record i {
  stage = on_header_value;
  cur_header = name h;
  header = add_header (name h) h.value i.header;
}

abbrev pub after_headers : List HeaderParts → MessageInfo → MessageInfo
after_headers [] i = i
after_headers (h ∷ hs) i = after_headers hs (after_header h i)

run-header :
    (h : HeaderParts) (es : List Event) (i : MessageInfo)
    → is_empty (name h) ≡ false
    → is_field i.stage ≡ false
    → run_events (field_part h.first ∷ (map field_part h.more ++ (value_part h.value ∷ es))) i
      ≡ run_events es (after_header h i)
unfolding on_event
run-header h es i e f =
    let begun = record i { stage = on_header_field; cur_header = h.first } in
    let whole = record i { stage = on_header_field; cur_header = name h } in
    ap (run_events (map field_part h.more ++ (value_part h.value ∷ es)))
      (on_field-first h.first i f)
    ∙ run-fields h.more (value_part h.value ∷ es) begun refl
    ∙ rw (on_value-named h.value whole refl e) refl

pub run-headers :
    (hs : List HeaderParts) (es : List Event) (i : MessageInfo)
    → named hs ≡ true
    → is_field i.stage ≡ false
    → run_events (header_events hs ++ es) i ≡ run_events es (after_headers hs i)
unfolding is_field
run-headers [] es i e f = refl
run-headers (h ∷ hs) es i e f = elim (Bool-cases (is_empty (name h))) [
  | inl g ↦ let e' : false ≡ true = rw g at (e) in absurd (cc e')
  | inr g ↦
      let e' : named hs ≡ true = rw g at (e) in
      ap (λ xs. run_events (field_part h.first ∷ xs) i)
        (append_assoc (map field_part h.more) (value_part h.value ∷ header_events hs) es)
      ∙ run-header h (header_events hs ++ es) i g f
      ∙ run-headers hs es (after_header h i) e' refl
]

abbrev pub after_bodies : List (List ℕ) → MessageInfo → MessageInfo
after_bodies [] i = i
after_bodies (b ∷ bs) i = after_bodies bs (record i { stage = on_body; body = i.body ++ b })

pub run-bodies :
    (bs : List (List ℕ)) (es : List Event) (i : MessageInfo)
    → run_events (map body_part bs ++ es) i ≡ run_events es (after_bodies bs i)
unfolding on_event
run-bodies [] es i = refl
run-bodies (b ∷ bs) es i = run-bodies bs es (record i { stage = on_body; body = i.body ++ b })
