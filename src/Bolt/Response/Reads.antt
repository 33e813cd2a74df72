-- ===== src/Bolt/Response/Reads.antt =====
-- `BoltResponse::deserialize` of src/protocol/bolt/bolt_response.cpp reads strings and entries back: the
-- steps, one by one.
use sofa_bolt_cpp.Base.{
  ℕ, zero, suc, ◌+◌, ◌^◌, ◌<◌, ◌≡◌, refl, ap, ap₂, ◌∙◌, sym, subst, false, Option, List, [], ◌∷◌,
  ◌++◌, arith, ltb, length, take, drop, length-append, append_assoc, take-append_self,
  drop-append_self, lt→ltb, le→ltb, ne→==,
}
use sofa_bolt_cpp.ByteSource.{ByteSource}
use sofa_bolt_cpp.Bolt.Wire.{be32, read32, read32-be32}
use sofa_bolt_cpp.Bolt.Response.{
  Response, Outcome, done, stop, stuck, State, M, ◌>>=◌, cut_exact, read_string, read_sized,
  store_entry, read_value, read_entry, read_entries, sub16, emplace, emplace_all, give,
}
use sofa_bolt_cpp.Bolt.Response.Encode.{sized, encode_entries}

module _ (B : ByteSource) where
  open B use {Buf, IsOk, view}

  -- The step gives `a`, leaves the response `r`, and `left` in a buffer in good order.
  pub record Yields {ℓ} {A : Type ℓ} (p : Outcome A × State Buf) (a : A) (r : Response)
      (left : List ℕ) : Type ℓ where
    pub rest : Buf
    pub runs : p ≡ (done a, record { buf = rest; rsp = r })
    pub shows : view rest ≡ left
    pub good : IsOk rest

  pub Yields-bind {ℓ κ} :
      {A : Type ℓ} {C : Type κ} (m : M Buf A) (f : A → M Buf C) (st : State Buf) (a : A)
      (r : Response) (left : List ℕ) (c : C) (r' : Response) (left' : List ℕ)
      → Yields (m st) a r left
      → ((b : Buf) → view b ≡ left → IsOk b → Yields (f a (record { buf = b; rsp = r })) c r' left')
      → Yields ((m >>= f) st) c r' left'
  Yields-bind {A} {C} m f st a r left c r' left' y next =
      subst (λ p. Yields (after p) c r' left') (sym y.runs) (next y.rest y.shows y.good)
    where
      after : Outcome A × State Buf → Outcome C × State Buf
      after p = elim p.0 [ done a ↦ f a p.1 | stop e ↦ (stop e, p.1) | stuck ↦ (stuck, p.1) ]

module _ (B : ByteSource) (parse_proto : List ℕ → Option (List ℕ × ℕ)) where
  open B use {Buf, IsOk, view, size, cut, size_lem, cut_lem}

  -- Bytes that stand at the front of the buffer are cut off it.
  pub cut_exact-Yields :
      (st : State Buf) (n : ℕ) (xs left : List ℕ)
      → IsOk st.buf
      → view st.buf ≡ xs ++ left
      → length xs ≡ n
      → Yields B (cut_exact B parse_proto n st) xs st.rsp left
  unfolding cut_exact
  cut_exact-Yields st n xs left ok e len =
      let (count, out, rest, ok') = cut_lem st.buf n ok in
      let there : length (view st.buf) ≡ length xs + length left =
        ap length e ∙ length-append xs left in
      let whole : ltb (cut st.buf n).0 n ≡ false = le→ltb _ _ (omega (arith, count)) in
      let front : (cut st.buf n).1 ≡ xs = out ∙ ap₂ take (sym len) e ∙ take-append_self xs left in
      record {
        rest = (cut st.buf n).2;
        runs = rw (whole, front) refl;
        shows = rest ∙ ap₂ drop (sym len) e ∙ drop-append_self xs left;
        good = ok';
      }

  read_string-Yields :
      (st : State Buf) (s left : List ℕ)
      → IsOk st.buf
      → view st.buf ≡ s ++ left
      → Yields B (read_string B parse_proto (length s) st) (length s, s) st.rsp left
  unfolding read_string
  read_string-Yields st [] left ok e = record { rest = st.buf; runs = refl; shows = e; good = ok }
  read_string-Yields st (x ∷ xs) left ok e = rw (lt→ltb 0 (suc (length xs)) (omega arith)) (
      Yields-bind B (cut_exact B parse_proto (suc (length xs))) (λ s. give (suc (length xs), s)) st
        (x ∷ xs) st.rsp left _ _ _ (cut_exact-Yields st (suc (length xs)) (x ∷ xs) left ok e refl)
        (λ b shown good. record { rest = b; runs = refl; shows = shown; good = good }))

  read_sized-Yields :
      (st : State Buf) (s left : List ℕ)
      → IsOk st.buf
      → view st.buf ≡ sized s ++ left
      → length s < 2 ^ 32
      → Yields B (read_sized B parse_proto st) (length s, s) st.rsp left
  unfolding read_sized
  read_sized-Yields st s left ok e short =
      Yields-bind B (cut_exact B parse_proto 4) (λ bs. read_string B parse_proto (read32 bs 0)) st
        (be32 (length s)) st.rsp (s ++ left) _ _ _
        (cut_exact-Yields st 4 (be32 (length s)) (s ++ left) ok e refl)
        λ b shown good.
          subst
            (λ n.
              Yields B (read_string B parse_proto n (record { buf = b; rsp = st.rsp }))
                (length s, s) st.rsp left)
            (sym (read32-be32 (length s) [] short))
            (read_string-Yields (record { buf = b; rsp = st.rsp }) s left good shown)

  -- `left_size` counts the bytes of the entries down to nothing.
  left_size_lem :
      (k v more : ℕ)
      → 8 + k + v + more < 2 ^ 16
      → sub16 (sub16 (sub16 (sub16 (8 + k + v + more) 4) k) 4) v ≡ more
  left_size_lem k v more h = omega arith

  length-entry :
      (k v : List ℕ) (es : List (List ℕ × List ℕ))
      → length (encode_entries ((k, v) ∷ es)) ≡ 8 + length k + length v + length (encode_entries es)
  length-entry k v es =
      omega
        (arith, length-append k (sized v ++ encode_entries es), length-append v (encode_entries es))

  -- One entry is read back.
  read_entry-Yields :
      (st : State Buf) (k v left : List ℕ) (more : ℕ)
      → IsOk st.buf
      → view st.buf ≡ sized k ++ (sized v ++ left)
      → 8 + length k + length v + more < 2 ^ 16
      → Yields B
          (read_entry B parse_proto (8 + length k + length v + more) st)
          more
          (record (st.rsp) { header_map = emplace st.rsp.header_map k v })
          left
  unfolding read_entry read_value store_entry
  read_entry-Yields st k v left more ok e short =
      let size = 8 + length k + length v + more in
      Yields-bind B (read_sized B parse_proto) (read_value B parse_proto size) st (length k, k)
        st.rsp (sized v ++ left) _ _ _ (read_sized-Yields st k (sized v ++ left) ok e (omega arith))
        λ b shown good.
          Yields-bind B (read_sized B parse_proto) (store_entry B parse_proto size (length k, k))
            (record { buf = b; rsp = st.rsp }) (length v, v) st.rsp left _ _ _
            (read_sized-Yields (record { buf = b; rsp = st.rsp }) v left good shown (omega arith))
            λ b' shown' good'. record {
              rest = b';
              runs = rw (left_size_lem (length k) (length v) more short) refl;
              shows = shown';
              good = good';
            }

  entries-append :
      (k v : List ℕ) (es : List (List ℕ × List ℕ)) (left : List ℕ)
      → encode_entries ((k, v) ∷ es) ++ left ≡ sized k ++ (sized v ++ (encode_entries es ++ left))
  entries-append k v es left = simp append_assoc

  -- The loop reads entries back in their order.
  pub read_entries-Yields :
      (fuel : ℕ) (es : List (List ℕ × List ℕ)) (st : State Buf) (left : List ℕ)
      → IsOk st.buf
      → view st.buf ≡ encode_entries es ++ left
      → length (encode_entries es) < 2 ^ 16
      → length (encode_entries es) < fuel
      → Yields B
          (read_entries B parse_proto fuel (length (encode_entries es)) st)
          tt
          (record (st.rsp) { header_map = emplace_all st.rsp.header_map es })
          left
  unfolding read_entries
  read_entries-Yields zero es st left ok e short f = absurd (omega arith)
  read_entries-Yields (suc fuel) [] st left ok e short f = record {
    rest = st.buf;
    runs = refl;
    shows = e;
    good = ok;
  }
  read_entries-Yields (suc fuel) ((k, v) ∷ es) st left ok e short f =
      let size = 8 + length k + length v + length (encode_entries es) in
      let len = length-entry k v es in
      rw (len, ne→== size 0 (λ z. omega arith))
        (Yields-bind B (read_entry B parse_proto size) (λ l. read_entries B parse_proto fuel l) st
          (length (encode_entries es))
          (record (st.rsp) { header_map = emplace st.rsp.header_map k v })
          (encode_entries es ++ left) _ _ _
          (read_entry-Yields st k v (encode_entries es ++ left) (length (encode_entries es)) ok
            (e ∙ entries-append k v es left) (omega (arith, len)))
          λ b shown good.
            read_entries-Yields fuel es _ left good shown (omega (arith, len)) (omega (arith, len)))
