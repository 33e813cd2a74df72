-- ===== src/Bolt/Response/RoundTrip.antt =====
-- `BoltResponse::deserialize` of src/protocol/bolt/bolt_response.cpp reads back what a server wrote.
use sofa_bolt_cpp.Base.{
  ℕ, ◌+◌, ◌^◌, ◌<◌, ◌≡◌, refl, ap, sym, subst, Option, List, [], ◌∷◌, ◌++◌, arith, length,
  length-append, lt→ltb, le→ltb, eq→==, ne→==,
}
use sofa_bolt_cpp.ByteSource.{ByteSource}
use sofa_bolt_cpp.Bolt.{protocol_type, protocol_response, cmd_heartbeat, cmd_response}
use sofa_bolt_cpp.Bolt.Response.{
  Header, string, State, cut_exact, read_entries, read_content, read_any_content, read_body,
  dispatch, deserialize_from, deserialize, header_size, emplace_all, change, read_named,
  read_headed,
}
use sofa_bolt_cpp.Bolt.Response.Encode.{hton, Fits, ntoh-hton, encode_entries}
use sofa_bolt_cpp.Bolt.Response.Reads.{Yields, Yields-bind, cut_exact-Yields, read_entries-Yields}

module _ (B : ByteSource) (parse_proto : List ℕ → Option (List ℕ × ℕ)) where
  open B use {Buf, IsOk, view, size, cut, size_lem, cut_lem}

  -- `content` of the response: an empty one is not stored.
  abbrev pub received : List ℕ → List ℕ → List ℕ
  received old [] = old
  received old (x ∷ xs) = x ∷ xs

  read_any_content-Yields :
      (h : Header) (st : State Buf) (content left : List ℕ)
      → IsOk st.buf
      → view st.buf ≡ content ++ left
      → st.rsp.data_type ≡ string
      → h.content_len ≡ length content
      → Yields B
          (read_any_content B parse_proto h st)
          tt
          (record (st.rsp) { content = received st.rsp.content content })
          left
  unfolding read_any_content read_content
  read_any_content-Yields h st [] left ok e t len =
      rw (le→ltb 0 h.content_len (omega arith))
        (record { rest = st.buf; runs = refl; shows = e; good = ok })
  read_any_content-Yields h st (x ∷ xs) left ok e t len =
      rw (lt→ltb 0 h.content_len (omega arith)) (
        subst
          (λ k.
            Yields B (read_content B parse_proto h k st) tt (record (st.rsp) { content = x ∷ xs })
              left)
          (sym t)
          (Yields-bind B (cut_exact B parse_proto h.content_len)
            (λ bs. change (λ r. record r { content = bs })) st (x ∷ xs) st.rsp left _ _ _
            (cut_exact-Yields B parse_proto st h.content_len (x ∷ xs) left ok e (sym len))
            λ b shown good. record { rest = b; runs = refl; shows = shown; good = good }))

  read_body-Yields :
      (fuel : ℕ) (h : Header) (st : State Buf) (name content left : List ℕ)
      (es : List (List ℕ × List ℕ))
      → IsOk st.buf
      → view st.buf ≡ name ++ (encode_entries es ++ (content ++ left))
      → st.rsp.data_type ≡ string
      → h.class_len ≡ length name
      → h.header_len ≡ length (encode_entries es)
      → h.content_len ≡ length content
      → h.header_len < 2 ^ 16
      → h.header_len < fuel
      → Yields B
          (read_body B parse_proto fuel h st)
          tt
          (record (st.rsp) {
            class_name = name;
            header_map = emplace_all st.rsp.header_map es;
            content = received st.rsp.content content;
          })
          left
  unfolding read_body read_named
  read_body-Yields fuel h st name content left es ok e t c l d short f =
      Yields-bind B (cut_exact B parse_proto h.class_len) (read_named B parse_proto fuel h) st name
        st.rsp (encode_entries es ++ (content ++ left)) _ _ _
        (cut_exact-Yields B parse_proto st h.class_len name (encode_entries es ++ (content ++ left))
          ok e (sym c))
        λ b shown good.
          Yields-bind B (read_entries B parse_proto fuel h.header_len)
            (λ u. read_any_content B parse_proto h)
            (record { buf = b; rsp = record (st.rsp) { class_name = name } }) tt
            (record (st.rsp) { class_name = name; header_map = emplace_all st.rsp.header_map es })
            (content ++ left) _ _ _
            (subst
              (λ n.
                Yields B
                  (read_entries B parse_proto fuel n
                    (record { buf = b; rsp = record (st.rsp) { class_name = name } }))
                  tt
                  (record (st.rsp) {
                    class_name = name;
                    header_map = emplace_all st.rsp.header_map es;
                  })
                  (content ++ left))
              (sym l)
              (read_entries-Yields B parse_proto fuel es
                (record { buf = b; rsp = record (st.rsp) { class_name = name } }) (content ++ left)
                good shown (omega arith) (omega arith)))
            λ b' shown' good'. read_any_content-Yields h _ content left good' shown' t d

  -- The header of a successful response passes every test.
  dispatch_success :
      (fuel : ℕ) (h : Header) (st : State Buf)
      → h.proto ≡ protocol_type
      → h.type ≡ protocol_response
      → h.cmdcode ≡ cmd_response
      → h.status ≡ 0
      → dispatch B parse_proto fuel h st ≡ read_body B parse_proto fuel h st
  unfolding dispatch
  dispatch_success fuel h st p q r s =
      rw
        (
          eq→== _ _ p,
          eq→== _ _ q,
          ne→== h.cmdcode cmd_heartbeat (omega arith),
          eq→== _ _ r,
          eq→== _ _ s,
        )
        refl

  -- A response of status success, of the protocol's type and of consistent lengths, is read back into
  -- a string: header, class name, entries and content; what stands behind it in the buffer stays.
  pub deserialize-encode :
      (h : Header) (name content left : List ℕ) (es : List (List ℕ × List ℕ)) (st : State Buf)
      → IsOk st.buf
      → view st.buf ≡ hton h ++ (name ++ (encode_entries es ++ (content ++ left)))
      → st.rsp.data_type ≡ string
      → Fits h
      → h.proto ≡ protocol_type
      → h.type ≡ protocol_response
      → h.cmdcode ≡ cmd_response
      → h.status ≡ 0
      → h.class_len ≡ length name
      → h.header_len ≡ length (encode_entries es)
      → h.content_len ≡ length content
      → Yields B
          (deserialize B parse_proto st)
          tt
          (record {
            header = h;
            class_name = name;
            header_map = emplace_all st.rsp.header_map es;
            content = received st.rsp.content content;
            data_type = st.rsp.data_type;
          })
          left
  unfolding deserialize deserialize_from read_headed
  deserialize-encode h name content left es st ok e t f p q r s c l d =
      let fuel = size st.buf + 1 in
      let body = name ++ (encode_entries es ++ (content ++ left)) in
      let enough : h.header_len < fuel = omega (
        arith,
        size_lem st.buf,
        ap length e,
        length-append name (encode_entries es ++ (content ++ left)),
        length-append (encode_entries es) (content ++ left),
      ) in
      Yields-bind B (cut_exact B parse_proto header_size) (read_headed B parse_proto fuel) st
        (hton h) st.rsp body _ _ _
        (cut_exact-Yields B parse_proto st header_size (hton h) body ok e refl)
        λ b shown good.
          subst
            (λ g.
              Yields B
                (dispatch B parse_proto fuel g
                  (record { buf = b; rsp = record (st.rsp) { header = g } }))
                tt
                (record {
                  header = h;
                  class_name = name;
                  header_map = emplace_all st.rsp.header_map es;
                  content = received st.rsp.content content;
                  data_type = st.rsp.data_type;
                })
                left)
            (sym (ntoh-hton h f))
            (rw
              (dispatch_success fuel h (record { buf = b; rsp = record (st.rsp) { header = h } }) p
                q r s)
              (read_body-Yields fuel h _ name content left es good shown t c l d f.header_len
                enough))
