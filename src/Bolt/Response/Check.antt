-- ===== src/Bolt/Response/Check.antt =====
-- `BoltResponse::checkHeader` of src/protocol/bolt/bolt_response.cpp: each of its answers, and the sum
-- of the lengths, which wraps.
use sofa_bolt_cpp.Base.{
  ℕ, ◌+◌, ◌-◌, ◌*◌, ◌^◌, ◌≤◌, ◌<◌, ◌≡◌, refl, ap, subst, sym, ◌∙◌, List, ◌++◌, arith, ltb,
  Bool-cases, inl, inr, length, take, ltb→lt, ltb→le, le→ltb, length-append, take-append_self,
}
use sofa_bolt_cpp.ByteSource.{ByteSource}
use sofa_bolt_cpp.Bolt.{ParseResult, parse_ok, parse_error, not_enough_data}
use sofa_bolt_cpp.Bolt.Response.{
  Header, header_size, ntoh, body_size, max_body_size, judge, check_header,
}
use sofa_bolt_cpp.Bolt.Response.Encode.{hton, Fits, ntoh-hton}

-- The bytes that a header announces behind itself.
abbrev pub announced : Header → ℕ
announced h = h.class_len + h.header_len + h.content_len

-- What is to be said of a response whose header is `h`, with `left` bytes behind the header.
pub data Checked (h : Header) (left : ℕ) : ParseResult × ℕ × ℕ → Type 0 where
  too_long :
      64 * 1024 * 1024 < announced h → Checked h left (parse_error, announced h, h.request_id)
  partial :
      announced h ≤ 64 * 1024 * 1024
      → left < announced h
      → Checked h left (not_enough_data, announced h + 20, h.request_id)
  whole :
      announced h ≤ 64 * 1024 * 1024
      → announced h ≤ left
      → Checked h left (parse_ok, announced h + 20, h.request_id)

judge-Checked :
    (cn n left : ℕ) (h : Header)
    → header_size ≤ cn
    → body_size h ≡ announced h
    → n ≡ 20 + left
    → Checked h left (judge cn h n)
unfolding judge
judge-Checked cn n left h enough sum there =
    rw (le→ltb cn header_size enough, sum)
      (elim (Bool-cases (ltb max_body_size (announced h))) [
        | inl b ↦ rw b (too_long (ltb→lt _ _ b))
        | inr b ↦
            let small = ltb→le _ _ b in
            rw b (elim (Bool-cases (ltb n (announced h + header_size))) [
              | inl d ↦ rw d (partial small (omega (arith, ltb→lt _ _ d, there)))
              | inr d ↦ rw d (whole small (omega (arith, ltb→le _ _ d, there)))
            ])
      ])

judge_wraps :
    (cn n rest : ℕ) (h : Header)
    → header_size ≤ cn
    → body_size h ≡ rest
    → rest ≤ max_body_size
    → rest + header_size ≤ n
    → judge cn h n ≡ (parse_ok, rest + header_size, h.request_id)
unfolding judge
judge_wraps cn n rest h enough sum small there =
    rw
      (
        le→ltb cn header_size enough,
        sum,
        le→ltb max_body_size rest small,
        le→ltb n (rest + header_size) there,
      )
      refl

module _ (B : ByteSource) where
  open B use {Buf, IsOk, view, size, copy_to, size_lem, copy_to_lem}

  -- Of a buffer that shows a header whose fields fit, written in network order, and some bytes behind
  -- it, where the lengths in the header have a sum below 2^32: `checkHeader` refuses a sum of more than
  -- 64 MB, asks for more data where there are fewer bytes behind the header than it announces, and else
  -- accepts, with the size of the whole response and the number in the header.
  pub check_header-Checked :
      (b : Buf) (h : Header) (body : List ℕ)
      → IsOk b
      → view b ≡ hton h ++ body
      → Fits h
      → announced h < 2 ^ 32
      → Checked h (length body) (check_header B b)
  unfolding check_header
  check_header-Checked b h body ok e f small =
      let (count, out) = copy_to_lem b header_size ok in
      let front : (copy_to b header_size).1 ≡ hton h =
        out ∙ ap (take header_size) e ∙ take-append_self (hton h) body in
      let len : length (view b) ≡ 20 + length body = ap length e ∙ length-append (hton h) body in
      subst (λ g. Checked h (length body) (judge (copy_to b header_size).0 g (size b)))
        (sym (ap ntoh front ∙ ntoh-hton h f))
        (judge-Checked (copy_to b header_size).0 (size b) (length body) h
          (omega (arith, count, len)) (omega (arith, small)) (size_lem b ∙ len))

  -- The sum of the lengths wraps: a body that is announced with 2^32 bytes or more is taken for a
  -- short one, and a buffer that holds only the remainder, of at most 64 MB, passes for a whole
  -- response.
  pub check_header_wraps :
      (b : Buf) (h : Header) (body : List ℕ)
      → IsOk b
      → view b ≡ hton h ++ body
      → Fits h
      → 2 ^ 32 ≤ h.class_len + h.header_len + h.content_len
      → h.class_len + h.header_len + h.content_len - 2 ^ 32 ≤ length body
      → check_header B b ≡ (
        parse_ok,
        h.class_len + h.header_len + h.content_len - 2 ^ 32 + header_size,
        h.request_id,
      )
  unfolding check_header
  check_header_wraps b h body ok e f wraps there =
      let (count, out) = copy_to_lem b header_size ok in
      let front : (copy_to b header_size).1 ≡ hton h =
        out ∙ ap (take header_size) e ∙ take-append_self (hton h) body in
      let rest = h.class_len + h.header_len + h.content_len - 2 ^ 32 in
      let len : length (view b) ≡ 20 + length body = ap length e ∙ length-append (hton h) body in
      let sum : body_size h ≡ rest = omega (arith, f.class_len, f.header_len, f.content_len) in
      ap (λ g. judge (copy_to b header_size).0 g (size b)) (ap ntoh front ∙ ntoh-hton h f)
      ∙ judge_wraps (copy_to b header_size).0 (size b) rest h (omega (arith, count, len)) sum
          (omega (arith, f.class_len, f.header_len, f.content_len)) (omega (arith, size_lem b, len))
