-- ===== src/Http/Headers.antt =====
-- src/protocol/http/http_response.cpp: the callbacks put a message together from its parts.
use sofa_bolt_cpp.Base.{
  ℕ, ◌≡◌, refl, ap, sym, ◌∙◌, inl, inr, ap₂, true, false, Option, none, some, List, [], ◌∷◌, ◌++◌,
  map, append-nil, append_assoc, if◌then◌else◌, ◌==◌, Bool-cases, ==→eq,
}
use sofa_bolt_cpp.Bolt.Response.{bytes_eq}
use sofa_bolt_cpp.Http.{
  on_status, on_headers_complete, on_message_complete, MessageInfo, headers_complete, on_body,
  message_complete, body_part, is_field, add_header, on_event,
}
use sofa_bolt_cpp.Http.Response.{new_info}
use sofa_bolt_cpp.Http.Message.{
  run_events, HeaderParts, concat, name, named, message_events, lookup, values, joined,
}
use sofa_bolt_cpp.Http.Runs.{after_header, after_headers, after_bodies, run-headers, run-bodies}

bytes_eq→eq : (x y : List ℕ) → bytes_eq x y ≡ true → x ≡ y
bytes_eq→eq [] [] h = refl
bytes_eq→eq [] (b ∷ y) h = absurd (cc h)
bytes_eq→eq (a ∷ x) [] h = absurd (cc h)
bytes_eq→eq (a ∷ x) (b ∷ y) h = elim (Bool-cases (a == b)) [
  | inl e ↦
      let h' : bytes_eq x y ≡ true = rw e at (h) in ap₂ (◌∷◌) (==→eq a b e) (bytes_eq→eq x y h')
  | inr e ↦ let h' : false ≡ true = rw e at (h) in absurd (cc h')
]

lookup-add_header :
    (n k v : List ℕ) (m : List (List ℕ × List ℕ))
    → lookup n (add_header k v m)
      ≡ (if bytes_eq n k then joined (lookup n m) (v ∷ []) else lookup n m)
unfolding add_header
lookup-add_header n k v [] = refl
lookup-add_header n k v ((j, w) ∷ m) = elim (Bool-cases (bytes_eq j k)) [
  | inl e ↦
      let same : bytes_eq n k ≡ bytes_eq n j = ap (bytes_eq n) (sym (bytes_eq→eq j k e)) in
      rw (e, same) (elim (Bool-cases (bytes_eq n j)) [ inl f ↦ rw f refl | inr f ↦ rw f refl ])
  | inr e ↦ rw e (elim (Bool-cases (bytes_eq n j)) [
    | inl f ↦ let g : bytes_eq n k ≡ false = rw (bytes_eq→eq n j f) e in rw f (rw g refl)
    | inr f ↦ rw f (lookup-add_header n k v m)
  ])
]

after_bodies-body :
    (bs : List (List ℕ)) (i : MessageInfo)
    → ((after_bodies bs i).body ≡ i.body ++ concat bs) × ((after_bodies bs i).header ≡ i.header)
after_bodies-body [] i = (sym (append-nil i.body), refl)
after_bodies-body (b ∷ bs) i =
    let (body, same) = after_bodies-body bs (record i { stage = on_body; body = i.body ++ b }) in
    (body ∙ append_assoc i.body b (concat bs), same)

joined-nil : (o : Option (List ℕ)) → o ≡ joined o []
joined-nil none = refl
joined-nil (some u) = refl

joined-cons :
    (o : Option (List ℕ)) (v : List ℕ) (vs : List (List ℕ))
    → joined (joined o (v ∷ [])) vs ≡ joined o (v ∷ vs)
joined-cons none v vs = refl
joined-cons (some u) v vs = refl

after_headers-lookup :
    (n : List ℕ) (hs : List HeaderParts) (i : MessageInfo)
    → lookup n (after_headers hs i).header ≡ joined (lookup n i.header) (values n hs)
after_headers-lookup n [] i = joined-nil (lookup n i.header)
after_headers-lookup n (h ∷ hs) i =
    after_headers-lookup n hs (after_header h i)
    ∙ ap (λ o. joined o (values n hs)) (lookup-add_header n (name h) h.value i.header)
    ∙ elim (Bool-cases (bytes_eq n (name h))) [
      | inl e ↦ rw e (joined-cons (lookup n i.header) h.value (values n hs))
      | inr e ↦ rw e refl
    ]

after_headers-body : (hs : List HeaderParts) (i : MessageInfo) → (after_headers hs i).body ≡ i.body
after_headers-body [] i = refl
after_headers-body (h ∷ hs) i = after_headers-body hs (after_header h i)

-- When the parser calls back for a message whose headers have names that are not empty, in one part or
-- more, with each value in one part, and whose body comes in parts, no callback fails, the message is
-- complete, its body is the parts of the body, and the value of each name is all values that the
-- message has for it, in their order, with commas between them.
pub message_events-parts :
    (hs : List HeaderParts) (bodies : List (List ℕ)) (n : List ℕ)
    → named hs ≡ true
    → let (ok, i) = run_events (message_events hs bodies) new_info in
      (ok ≡ true)
      × (i.stage ≡ on_message_complete)
      × (i.body ≡ concat bodies)
      × (lookup n i.header ≡ joined none (values n hs))
unfolding on_event is_field
message_events-parts hs bodies n e =
    let begun = record new_info { stage = on_status } in
    let after = after_headers hs begun in
    let ended = after_bodies bodies (record after { stage = on_headers_complete }) in
    let (body, header) = after_bodies-body bodies (record after { stage = on_headers_complete }) in
    let runs =
      run-headers hs (headers_complete ∷ (map body_part bodies ++ (message_complete ∷ []))) begun e
        refl
      ∙ run-bodies bodies (message_complete ∷ []) (record after { stage = on_headers_complete }) in
    rw runs (
      refl,
      refl,
      body ∙ ap (λ t. t ++ concat bodies) (after_headers-body hs begun),
      ap (lookup n) header ∙ after_headers-lookup n hs begun,
    )
