-- ===== src/Socket/Write/Sends.antt =====
-- What `Socket::write` of src/tcp/socket.cpp has sent when it returns.
use native.Mathlib.Nat.{mod-eq_of_lt}
use sofa_bolt_cpp.Base.{
  ℕ, zero, suc, ◌+◌, ◌-◌, ◌%◌, ◌^◌, ◌≤◌, ◌<◌, ◌≡◌, refl, ap, ap₂, subst, sym, ◌∙◌, ◌⊎◌, inl, inr,
  Bool, true, false, Bool-cases, List, [], ◌∷◌, ◌++◌, ltb, ◌==◌, arith, take, drop, length,
  take-append-drop, take-add, length-drop, lt→ltb, le→ltb, ==→eq,
}
use sofa_bolt_cpp.IoBuffer.{Memory, Buffer, size, live, to_string}
use sofa_bolt_cpp.IoBuffer.Cut.Slices.{length-slices_bytes}
use sofa_bolt_cpp.IoBuffer.Cut.Contents.{IsAligned}
use sofa_bolt_cpp.IoBuffer.Cut.Full.{NoEmpty}
use sofa_bolt_cpp.IoBuffer.Descriptor.{
  Answer, ready, again, broken, Wrote, cut_into_file_descriptor-Wrote,
  cut_into_file_descriptor-failed,
}
use sofa_bolt_cpp.Socket.{RpcStatus, write_error}
use sofa_bolt_cpp.Socket.Write.{
  Result, returns, Written, ends, continues, after_cut, turn, more_bytes, write_loop, write,
}

module _ (m : Memory) (answers : ℕ → Answer) (buffer_size fuel i cur : ℕ) (st : RpcStatus)
    (b : Buffer) where
  write_loop-continues :
      (cur' : ℕ) (sent : List ℕ) (b' : Buffer)
      → cur < buffer_size
      → turn m buffer_size (answers i) cur st b ≡ continues cur' sent b'
      → write_loop m answers buffer_size (suc fuel) i cur st b
        ≡ more_bytes sent (write_loop m answers buffer_size fuel (suc i) cur' st b')
  unfolding write_loop
  write_loop-continues cur' sent b' h e = rw (lt→ltb cur buffer_size h, e, write_loop) refl

  write_loop-ends :
      (r : Result) (st' : RpcStatus)
      → cur < buffer_size
      → turn m buffer_size (answers i) cur st b ≡ ends r st'
      → write_loop m answers buffer_size (suc fuel) i cur st b
        ≡ record { result = r; bytes = []; buffer = b; status = st' }
  unfolding write_loop
  write_loop-ends r st' h e = rw (lt→ltb cur buffer_size h, e, write_loop) refl

  write_loop-finished :
      buffer_size ≤ cur
      → write_loop m answers buffer_size (suc fuel) i cur st b
        ≡ record { result = returns true; bytes = []; buffer = b; status = st }
  unfolding write_loop
  write_loop-finished h = rw (le→ltb cur buffer_size h, write_loop) refl

-- All bytes are sent and the status stays, or the first ones are, `false` is returned and the status
-- says so.
abbrev pub Sends : RpcStatus → List ℕ → Written → Type 0
Sends st all w =
    ((w.result ≡ returns true) × (w.bytes ≡ all) × (w.status ≡ st))
    ⊎ ((w.result ≡ returns false) × (w.status ≡ write_error) × ((k : ℕ) × (w.bytes ≡ take k all)))

-- Where a call writes, it writes a byte at least.
abbrev pub Writes : Answer → Type 0
Writes (ready n) = 0 < n
Writes again = Unit {0}
Writes broken = Unit {0}

-- One of the calls from `i` on, of which there are `n` at most, is answered with EAGAIN.
abbrev pub IsAgain : (ℕ → Answer) → ℕ → ℕ → Type 0
IsAgain answers i n = (j : ℕ) × (i ≤ j) × (j < i + n) × (answers j ≡ again)

later-IsAgain :
    (answers : ℕ → Answer) (i n n' : ℕ) → n' < n → IsAgain answers (suc i) n' → IsAgain answers i n
later-IsAgain answers i n n' less (j, low, high, e) =
    (j, omega (arith, low), omega (arith, high, less), e)

more_bytes-Sends :
    (st : RpcStatus) (nw : ℕ) (sent all rest : List ℕ) (w : Written)
    → sent ≡ take nw all
    → rest ≡ drop nw all
    → Sends st rest w
    → Sends st all (more_bytes sent w)
unfolding more_bytes
more_bytes-Sends st nw sent all rest w e f (inl (r, bytes, status)) =
    inl (r, ap₂ ◌++◌ e (bytes ∙ f) ∙ take-append-drop nw all, status)
more_bytes-Sends st nw sent all rest w e f (inr (r, status, (k, bytes))) =
    inr (r, status, (nw + k, ap₂ ◌++◌ e (bytes ∙ ap (take k) f) ∙ sym (take-add nw k all)))

nil_of_length : (bs : List ℕ) → length bs ≡ 0 → [] ≡ bs
nil_of_length [] h = refl
nil_of_length (c ∷ bs) h = absurd (omega (arith, h))

module _ (m : Memory) (answers : ℕ → Answer) (writes : (j : ℕ) → Writes (answers j))
    (buffer_size : ℕ) (fits : buffer_size < 2 ^ 64) (st : RpcStatus) where
  -- A round that writes.
  turn-continues :
      (i cur n : ℕ) (b : Buffer)
      → answers i ≡ ready n
      → 0 < n
      → IsAligned b
      → NoEmpty (live b)
      → 0 < size b
      → cur + size b ≡ buffer_size
      → (nw : ℕ) × (sent : List ℕ) × (b' : Buffer) × (turn m buffer_size (answers i) cur st b
          ≡ continues (cur + nw) sent b')
        × Wrote m b nw sent b'
  unfolding turn after_cut
  turn-continues i cur n b e pos a f left total =
      let (nw, sent, b', call, w) = cut_into_file_descriptor-Wrote m buffer_size b a f left n pos in
      (
        nw,
        sent,
        b',
        ap (λ x. turn m buffer_size x cur st b) e
            ∙ ap (after_cut (ready n) cur st) call
            ∙ ap (λ c. continues c sent b')
                (mod-eq_of_lt (omega (arith, w.some_bytes.1, total, fits))),
        w,
      )

  turn-broken :
      (i cur : ℕ) (b : Buffer)
      → answers i ≡ broken
      → IsAligned b
      → NoEmpty (live b)
      → 0 < size b
      → turn m buffer_size (answers i) cur st b ≡ ends (returns false) write_error
  unfolding turn after_cut
  turn-broken i cur b e a f left =
      ap (λ x. turn m buffer_size x cur st b) e
      ∙ ap (after_cut broken cur st)
          (cut_into_file_descriptor-failed m buffer_size b a f left broken (λ t. refl))

  write_loop-Sends :
      (fuel i cur : ℕ) (b : Buffer)
      → IsAligned b
      → NoEmpty (live b)
      → cur + size b ≡ buffer_size
      → size b < fuel
      → Sends st (to_string m b) (write_loop m answers buffer_size fuel i cur st b)
        ⊎ IsAgain answers i (size b)
  write_loop-Sends zero i cur b a f total enough = absurd (omega (arith, enough))
  write_loop-Sends (suc fuel) i cur b a f total enough = elim (Bool-cases (ltb 0 (size b))) [
    | inr e ↦
        let none_left : size b ≡ 0 = ground arith in
        inl (
          subst (Sends st (to_string m b))
            (sym (write_loop-finished m answers buffer_size fuel i cur st b (omega (arith, total))))
            (inl (
              refl,
              nil_of_length (to_string m b) (length-slices_bytes m (live b) ∙ none_left),
              refl,
            )))
    | inl e ↦ by_answer (answers i) refl (writes i) (ground arith) (write_loop-Sends fuel)
  ]
    where
      by_answer :
          (x : Answer)
          → answers i ≡ x
          → Writes x
          → 0 < size b
          → ((i' cur' : ℕ) (b' : Buffer)
              → IsAligned b'
              → NoEmpty (live b')
              → cur' + size b' ≡ buffer_size
              → size b' < fuel
              → Sends st (to_string m b') (write_loop m answers buffer_size fuel i' cur' st b')
                ⊎ IsAgain answers i' (size b'))
          → Sends st (to_string m b) (write_loop m answers buffer_size (suc fuel) i cur st b)
            ⊎ IsAgain answers i (size b)
      by_answer (ready n) e pos left ih =
          let (nw, sent, b', t, w) = turn-continues i cur n b e pos a f left total in
          let less : size b' ≡ size b - nw =
            sym (length-slices_bytes m (live b'))
            ∙ ap length w.left
            ∙ length-drop nw (to_string m b)
            ∙ ap (λ j. j - nw) (length-slices_bytes m (live b)) in
          elim (ih (suc i) (cur + nw) b' w.aligned w.full
            (omega (arith, less, w.some_bytes.1, total))
            (omega (arith, less, w.some_bytes.0, w.some_bytes.1, enough))) [
              | inl sends ↦ inl (
                  subst (Sends st (to_string m b))
                    (sym (
                      write_loop-continues m answers buffer_size fuel i cur st b (cur + nw) sent b'
                        (omega (arith, left, total)) t))
                    (more_bytes-Sends st nw sent (to_string m b) (to_string m b') _ w.sent_front
                      w.left sends))
              | inr later ↦ inr (
                  later-IsAgain answers i (size b) (size b')
                    (omega (arith, less, w.some_bytes.0, w.some_bytes.1)) later)
            ]
      by_answer again e pos left ih = inr (i, omega arith, omega (arith, left), e)
      by_answer broken e pos left ih = inl (
          subst (Sends st (to_string m b))
            (sym (
              write_loop-ends m answers buffer_size fuel i cur st b (returns false) write_error
                (omega (arith, left, total)) (turn-broken i cur b e a f left)))
            (inr (refl, refl, (0, refl))))

-- Where each `writev` that writes takes a byte at least, `write` returns, unless one of the calls it may
-- make, of which there are at most as many as bytes, is answered with EAGAIN: at once with false, with
-- nothing sent and no status set, where the time is over or the buffer is empty; otherwise with all bytes
-- of the buffer sent in their order and true, or with the first ones sent, false and the status of a write
-- error. The buffer has no empty slice and less than 2^64 bytes, and one unit of fuel for each byte and
-- one more is enough.
pub write-Sends :
    (m : Memory) (answers : ℕ → Answer) (fuel : ℕ) (late : Bool) (st : RpcStatus) (b : Buffer)
    → ((j : ℕ) → Writes (answers j))
    → IsAligned b
    → NoEmpty (live b)
    → size b < 2 ^ 64
    → size b < fuel
    → (((late ≡ true) ⊎ (size b ≡ 0))
        × (write m answers fuel late st b
            ≡ record { result = returns false; bytes = []; buffer = b; status = st }))
      ⊎ (Sends st (to_string m b) (write m answers fuel late st b) ⊎ IsAgain answers 0 (size b))
unfolding write
write-Sends m answers fuel true st b writes a f fits enough = inl (inl refl, refl)
write-Sends m answers fuel false st b writes a f fits enough = elim (Bool-cases (size b == 0)) [
  | inl e ↦ inl (inr (==→eq (size b) 0 e), rw e refl)
  | inr e ↦ inr (
      rw e (write_loop-Sends m answers writes (size b) fits st fuel 0 0 b a f (omega arith) enough))
]

-- A system that is not ready for the first bytes makes `write` return true with no byte sent.
pub write-again :
    (m : Memory) (answers : ℕ → Answer) (fuel : ℕ) (st : RpcStatus) (b : Buffer)
    → answers 0 ≡ again
    → IsAligned b
    → NoEmpty (live b)
    → 0 < size b
    → size b < 2 ^ 64
    → write m answers (suc (suc fuel)) false st b
      ≡ record { result = returns true; bytes = []; buffer = b; status = st }
unfolding write turn after_cut more_bytes
write-again m answers fuel st b e a f left fits =
    let test : (size b == 0) ≡ false = ground arith in
    let failed = cut_into_file_descriptor-failed m (size b) b a f left again (λ t. refl) in
    let cur : (0 + (2 ^ 64 - 1)) % 2 ^ 64 ≡ 2 ^ 64 - 1 = omega arith in
    let round : turn m (size b) (answers 0) 0 st b ≡ continues (2 ^ 64 - 1) [] b =
      ap (λ x. turn m (size b) x 0 st b) e
      ∙ ap (after_cut again 0 st) failed
      ∙ ap (λ c. continues c [] b) cur in
    rw test (
      write_loop-continues m answers (size b) (suc fuel) 0 0 st b (2 ^ 64 - 1) [] b left round
      ∙ ap (more_bytes [])
          (write_loop-finished m answers (size b) fuel 1 (2 ^ 64 - 1) st b (omega (arith, fits))))
