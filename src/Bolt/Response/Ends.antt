-- ===== src/Bolt/Response/Ends.antt =====
-- `BoltResponse::deserialize` of src/protocol/bolt/bolt_response.cpp always returns: each round of its
-- loop takes bytes off the buffer or returns, whatever `left_size` wraps to.
use sofa_bolt_cpp.Base.{
  ℕ, zero, suc, ◌+◌, ◌≤◌, ◌<◌, ap, Option, none, some, List, [], arith, ltb→le, ltb, ◌==◌,
  Bool-cases, length, length-drop, inl, inr, if◌then◌else◌,
}
use sofa_bolt_cpp.ByteSource.{ByteSource}
use sofa_bolt_cpp.Bolt.{parse_error, protocol_type, protocol_response, cmd_heartbeat, cmd_response}
use sofa_bolt_cpp.Bolt.Wire.{read32}
use sofa_bolt_cpp.Bolt.Response.{
  Header, DataType, string, protobuf, none_type, Outcome, done, stop, stuck, State, M, ◌>>=◌,
  cut_exact, read_string, read_sized, store_entry, read_value, read_entry, read_entries,
  read_content, read_any_content, read_named, read_headed, read_body, dispatch, body_size,
  deserialize_from, deserialize, header_size, ntoh, change, give,
}

module _ (B : ByteSource) (parse_proto : List ℕ → Option (List ℕ × ℕ)) where
  open B use {Buf, IsOk, view, size, cut, pop_front, size_lem, cut_lem, pop_front_lem}

  -- A step that began with `n` bytes in the buffer is not stuck, and if it goes on, it has
  -- taken `k`; if it stops there are no more bytes than before.
  abbrev pub Ends {ℓ} : {A : Type ℓ} → ℕ → ℕ → Outcome A → State Buf → Type 0
  Ends n k (done a) st = IsOk st.buf × (length (view st.buf) + k ≤ n)
  Ends n k (stop e) st = IsOk st.buf × (length (view st.buf) ≤ n)
  Ends n k stuck st = ⊥

  Ends-bind {ℓ κ} :
      {A : Type ℓ} {C : Type κ} (m : M Buf A) (f : A → M Buf C) (st : State Buf) (n j k : ℕ)
      → Ends n j (m st).0 (m st).1
      → ((a : A) (st' : State Buf)
          → IsOk st'.buf
          → length (view st'.buf) + j ≤ n
          → Ends n k (f a st').0 (f a st').1)
      → Ends n k ((m >>= f) st).0 ((m >>= f) st).1
  Ends-bind {A} {C} m f st n j k h g = go (m st).0 (m st).1 h
    where
      next : Outcome A → State Buf → Outcome C × State Buf
      next r st' = elim r [ done a ↦ f a st' | stop e ↦ (stop e, st') | stuck ↦ (stuck, st') ]

      go :
          (r : Outcome A) (st' : State Buf)
          → Ends n j r st'
          → Ends n k (next r st').0 (next r st').1
      go (done a) st' h = g a st' h.0 h.1
      go (stop e) st' h = h
      go stuck st' h = h

  -- A step that ends from the bytes that another left.
  Ends-more {ℓ} :
      {A : Type ℓ} (l k j n : ℕ) (p : Outcome A × State Buf)
      → Ends l k p.0 p.1
      → l + j ≤ n + k
      → l ≤ n
      → Ends n j p.0 p.1
  Ends-more {A} l k j n p h g less = go p.0 h
    where
      go : (r : Outcome A) → Ends l k r p.1 → Ends n j r p.1
      go (done a) h = (h.0, omega (arith, h.1))
      go (stop e) h = (h.0, omega (arith, h.1, less))
      go stuck h = h

  cut_exact-Ends :
      (k : ℕ) (st : State Buf)
      → IsOk st.buf
      → let (r, st') = cut_exact B parse_proto k st in Ends (length (view st.buf)) k r st'
  unfolding cut_exact
  cut_exact-Ends k st h =
      let (count, out, rest, ok) = cut_lem st.buf k h in
      elim (Bool-cases (ltb (cut st.buf k).0 k)) [
        | inl e ↦ rw e (ok, omega (arith, ap length rest, length-drop k (view st.buf)))
        | inr e ↦
            rw e
              (ok, omega (arith, ap length rest, length-drop k (view st.buf), ltb→le _ _ e, count))
      ]

  read_sized-Ends :
      (st : State Buf)
      → IsOk st.buf
      → let (r, st') = read_sized B parse_proto st in Ends (length (view st.buf)) 4 r st'
  unfolding read_sized read_string
  read_sized-Ends st h =
      Ends-bind (cut_exact B parse_proto 4) _ st _ 4 4 (cut_exact-Ends 4 st h) λ bs st' ok left.
        let n = read32 bs 0 in
        Ends-bind (if ltb 0 n then cut_exact B parse_proto n else give []) (λ s. give (n, s)) st' _
          4 4
          (elim (Bool-cases (ltb 0 n)) [
            | inl e ↦ rw e (
                Ends-more _ n 4 _ (cut_exact B parse_proto n st') (cut_exact-Ends n st' ok)
                  (omega arith) (omega arith))
            | inr e ↦ rw e (ok, left)
          ])
          (λ s st'' ok' left'. (ok', left'))

  read_entry-Ends :
      (left : ℕ) (st : State Buf)
      → IsOk st.buf
      → let (r, st') = read_entry B parse_proto left st in Ends (length (view st.buf)) 8 r st'
  unfolding read_entry read_value store_entry
  read_entry-Ends left st h =
      Ends-bind (read_sized B parse_proto) (read_value B parse_proto left) st _ 4 8
        (read_sized-Ends st h)
        λ key st' ok left'.
          Ends-bind (read_sized B parse_proto) (store_entry B parse_proto left key) st' _ 8 8
            (Ends-more _ 4 8 _ (read_sized B parse_proto st') (read_sized-Ends st' ok) (omega arith)
              (omega arith))
            λ value st'' ok' left''. (ok', left'')

  -- With fuel for every byte of the buffer the loop ends.
  read_entries-Ends :
      (fuel left : ℕ) (st : State Buf)
      → IsOk st.buf
      → length (view st.buf) < fuel
      → let (r, st') = read_entries B parse_proto fuel left st in
        Ends (length (view st.buf)) 0 r st'
  unfolding read_entries
  read_entries-Ends zero left st h f = absurd (omega arith)
  read_entries-Ends (suc fuel) left st h f = elim (Bool-cases (left == 0)) [
    | inl e ↦ rw e (h, omega arith)
    | inr e ↦ rw e (
        Ends-bind (read_entry B parse_proto left) (λ l. read_entries B parse_proto fuel l) st _ 8 0
          (read_entry-Ends left st h)
          λ l st' ok left'.
            Ends-more _ 0 0 _ (read_entries B parse_proto fuel l st')
              (read_entries-Ends fuel l st' ok (omega arith)) (omega arith) (omega arith))
  ]

  read_content-Ends :
      (h : Header) (t : DataType) (st : State Buf)
      → IsOk st.buf
      → let (r, st') = read_content B parse_proto h t st in Ends (length (view st.buf)) 0 r st'
  unfolding read_content
  read_content-Ends h string st ok =
      Ends-bind (cut_exact B parse_proto h.content_len)
        (λ bs. change (λ r. record r { content = bs })) st _ h.content_len 0
        (cut_exact-Ends h.content_len st ok) (λ bs st' ok' left. (ok', omega (arith, left)))
  read_content-Ends h protobuf st ok = go (parse_proto (view st.buf))
    where
      ends : Outcome (Unit {0}) × State Buf → Type 0
      ends p = Ends (length (view st.buf)) 0 p.0 p.1

      took : List ℕ → State Buf
      took message = record {
        buf = (pop_front st.buf h.content_len).1;
        rsp = record (st.rsp) { content = message };
      }

      go :
          (o : Option (List ℕ × ℕ))
          → ends (elim o [
            | none ↦ (stop parse_error, st)
            | some (message, count) ↦
                if count == h.content_len
                then (done tt, took message)
                else (stop parse_error, record st { rsp = record (st.rsp) { content = message } })
          ])
      go none = (ok, omega arith)
      go (some (message, count)) = elim (Bool-cases (count == h.content_len)) [
        | inl e ↦
            let (n, rest, ok') = pop_front_lem st.buf h.content_len ok in
            rw e (ok', omega (arith, ap length rest, length-drop h.content_len (view st.buf)))
        | inr e ↦ rw e (ok, omega arith)
      ]
  read_content-Ends h none_type st ok = (ok, omega arith)

  read_body-Ends :
      (fuel : ℕ) (h : Header) (st : State Buf)
      → IsOk st.buf
      → length (view st.buf) < fuel
      → let (r, st') = read_body B parse_proto fuel h st in Ends (length (view st.buf)) 0 r st'
  unfolding read_body read_named read_any_content
  read_body-Ends fuel h st ok f =
      Ends-bind (cut_exact B parse_proto h.class_len) _ st _ h.class_len 0
        (cut_exact-Ends h.class_len st ok)
        λ name st₁ ok₁ left₁.
          let st₂ = named st₁ name in
          Ends-bind (read_entries B parse_proto fuel h.header_len)
            (λ u. read_any_content B parse_proto h) st₂ (length (view st.buf)) 0 0
            (Ends-more _ 0 0 _ (read_entries B parse_proto fuel h.header_len st₂)
              (read_entries-Ends fuel h.header_len st₂ ok₁ (omega arith)) (omega arith)
              (omega arith))
            λ u st₃ ok₃ left₃. elim (Bool-cases (ltb 0 h.content_len)) [
              | inl e ↦ rw e (
                  Ends-more _ 0 0 _ (read_content B parse_proto h st₃.rsp.data_type st₃)
                    (read_content-Ends h st₃.rsp.data_type st₃ ok₃) (omega arith) (omega arith))
              | inr e ↦ rw e (ok₃, omega arith)
            ]
    where
      named : State Buf → List ℕ → State Buf
      named st name = record st { rsp = record (st.rsp) { class_name = name } }

  dispatch-Ends :
      (fuel : ℕ) (h : Header) (st : State Buf)
      → IsOk st.buf
      → length (view st.buf) < fuel
      → let (r, st') = dispatch B parse_proto fuel h st in Ends (length (view st.buf)) 0 r st'
  unfolding dispatch
  dispatch-Ends fuel h st ok f = elim (Bool-cases (h.proto == protocol_type)) [
    | inr e ↦ rw e (ok, omega arith)
    | inl e ↦ rw e (elim (Bool-cases (h.type == protocol_response)) [
      | inr e ↦ rw e (ok, omega arith)
      | inl e ↦ rw e (elim (Bool-cases (h.cmdcode == cmd_heartbeat)) [
        | inl e ↦ rw e (ok, omega arith)
        | inr e ↦ rw e (elim (Bool-cases (h.cmdcode == cmd_response)) [
          | inr e ↦ rw e (ok, omega arith)
          | inl e ↦ rw e (elim (Bool-cases (h.status == 0)) [
            | inl e ↦ rw e (read_body-Ends fuel h st ok f)
            | inr e ↦
                let (n, rest, ok') = pop_front_lem st.buf (body_size h) ok in
                rw e (ok', omega (arith, ap length rest, length-drop (body_size h) (view st.buf)))
          ])
        ])
      ])
    ])
  ]

  -- Whatever a buffer in good order holds, `deserialize` returns, with success or with an error, and
  -- leaves the buffer in good order and with no more bytes than before.
  pub deserialize-Ends :
      (st : State Buf)
      → IsOk st.buf
      → let (r, st') = deserialize B parse_proto st in Ends (length (view st.buf)) 0 r st'
  unfolding deserialize deserialize_from read_headed
  deserialize-Ends st ok =
      Ends-bind (cut_exact B parse_proto header_size) _ st _ header_size 0
        (cut_exact-Ends header_size st ok)
        λ bs st₁ ok₁ left₁.
          let st₂ = headed st₁ (ntoh bs) in
          Ends-more _ 0 0 _ (dispatch B parse_proto (size st.buf + 1) (ntoh bs) st₂)
            (dispatch-Ends (size st.buf + 1) (ntoh bs) st₂ ok₁ (omega (arith, size_lem st.buf)))
            (omega arith) (omega arith)
    where
      headed : State Buf → Header → State Buf
      headed st h = record st { rsp = record (st.rsp) { header = h } }
