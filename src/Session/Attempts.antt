-- ===== src/Session/Attempts.antt =====
-- src/session/session.cpp: how many attempts a call makes, and how it ends.
use sofa_bolt_cpp.Base.{
  ℕ, zero, suc, ◌+◌, ◌≤◌, ◌≡◌, ◌⊎◌, refl, inl, inr, Bool, true, false, not, ◌&&◌, Option, none,
  some, if◌then◌else◌, ◌==◌, Bool-cases, arith,
}
use sofa_bolt_cpp.Session.{
  session_ok, protocol_not_found, assemble_request_fail, socket_lost, socket_busy, write_fail,
  read_fail, read_timeout, parse_response_fail, timer_busy, SessionError, Callback, no_callback,
  callback, moved_away, Session, Answers, send_internal, send_on_socket, wait_result, fail_with,
  is_final, retry_loop, retry_count, send_internal_with_retry,
}

fail_with-attempts :
    (e : SessionError) (s : Session) (f : Callback) → (fail_with e s f).0.attempts ≡ s.attempts
unfolding fail_with
fail_with-attempts e s f = refl

wait_result-attempts :
    (a : Answers) (s : Session) (f : Callback) → (wait_result a s f).0.attempts ≡ s.attempts
unfolding wait_result
wait_result-attempts a s callback = refl
wait_result-attempts a s no_callback = refl
wait_result-attempts a s moved_away = refl

-- The number of attempts of a test's result.
if-attempts :
    (b : Bool) (x y : Session × Callback) (n : ℕ)
    → x.0.attempts ≡ n
    → y.0.attempts ≡ n
    → (if b then x else y).0.attempts ≡ n
if-attempts true x y n e f = e
if-attempts false x y n e f = f

send_on_socket-attempts :
    (a : Answers) (s : Session) (f : Callback) → (send_on_socket a s f).0.attempts ≡ s.attempts
unfolding send_on_socket fail_with
send_on_socket-attempts a s f =
    if-attempts (not (s.has_request && a.assembles)) _ _ s.attempts refl (
      if-attempts (not a.prepares) _ _ s.attempts refl (
        if-attempts (a.timer_id == 0) _ _ s.attempts refl
          (if-attempts (not a.writes) _ _ s.attempts refl (wait_result-attempts a s f))))

send_internal-attempts :
    (a : Answers) (s : Session) (f : Callback) → (send_internal a s f).0.attempts ≡ s.attempts
unfolding send_internal fail_with
send_internal-attempts a s f = if-attempts (not s.has_protocol) _ _ s.attempts refl (
    if-attempts (not (if s.has_channel then a.gets_socket else s.has_socket)) _ _ s.attempts refl
      (send_on_socket-attempts a _ f))

-- How a loop with `n` attempts ends, where `k` were made before.
pub record Ends (n k : ℕ) (s : Session) : Type 0 where
  pub counted : k ≤ s.attempts
  pub started : (n ≡ 0) ⊎ (suc k ≤ s.attempts)
  pub bounded : s.attempts ≤ k + n
  pub stopped : (is_final s.error_code ≡ true) ⊎ (s.attempts ≡ k + n)

retry_loop-Ends :
    (answers : ℕ → Answers) (n i : ℕ) (s : Session) (f : Callback)
    → Ends n s.attempts (retry_loop answers n i s f).0
unfolding retry_loop
retry_loop-Ends answers zero i s f = record {
  counted = omega arith;
  started = inl refl;
  bounded = omega arith;
  stopped = inr (omega arith);
}
retry_loop-Ends answers (suc n) i s f =
    let begun = record s { error_code = session_ok; attempts = suc s.attempts } in
    let (s', f') = send_internal (answers i) begun f in
    let one : s'.attempts ≡ suc s.attempts = send_internal-attempts (answers i) begun f in
    let rest = retry_loop-Ends answers n (suc i) s' f' in
    elim (Bool-cases (is_final s'.error_code)) [
      | inl e ↦ rw e (record {
        counted = omega (arith, one);
        started = inr (omega (arith, one));
        bounded = omega (arith, one);
        stopped = inl e;
      })
      | inr e ↦ rw e (record {
        counted = omega (arith, one, rest.counted);
        started = inr (omega (arith, one, rest.counted));
        bounded = omega (arith, one, rest.bounded);
        stopped = elim rest.stopped [ inl t ↦ inl t | inr t ↦ inr (omega (arith, t, one)) ];
      })
    ]

-- How many attempts a number of retries stands for, where `none` is a number below 0.
pub data Allows : Option ℕ → ℕ → Type 0 where
  unset : Allows none 1
  never : Allows (some 0) 1
  some_times : (n : ℕ) → 1 ≤ n → Allows (some n) n

retry_count-Allows : {r : Option ℕ} {n : ℕ} → Allows r n → retry_count r ≡ n
unfolding retry_count
retry_count-Allows unset = refl
retry_count-Allows never = refl
retry_count-Allows (some_times zero h) = absurd (omega (arith, h))
retry_count-Allows (some_times (suc n) h) = refl

Allows-least : {r : Option ℕ} {n : ℕ} → Allows r n → 1 ≤ n
Allows-least unset = omega arith
Allows-least never = omega arith
Allows-least (some_times n h) = h

is_final-errors : (e : SessionError) → is_final e ≡ true → (e ≡ session_ok) ⊎ (e ≡ read_timeout)
unfolding is_final
is_final-errors session_ok h = inl refl
is_final-errors read_timeout h = inr refl
is_final-errors protocol_not_found h = absurd (cc h)
is_final-errors assemble_request_fail h = absurd (cc h)
is_final-errors socket_lost h = absurd (cc h)
is_final-errors socket_busy h = absurd (cc h)
is_final-errors write_fail h = absurd (cc h)
is_final-errors read_fail h = absurd (cc h)
is_final-errors parse_response_fail h = absurd (cc h)
is_final-errors timer_busy h = absurd (cc h)

-- Of a session that has made no attempt, a call makes one attempt at least and no more than its number
-- of retries, or one where that is not above 0; and it makes that many unless it ends with SESSION_OK or
-- READ_TIMEOUT.
pub send_internal_with_retry-Ends :
    (answers : ℕ → Answers) (s : Session) (f : Callback) (n : ℕ)
    → s.attempts ≡ 0
    → Allows s.retry n
    → let s' = (send_internal_with_retry answers s f).0 in
      (1 ≤ s'.attempts)
      × (s'.attempts ≤ n)
      × (((s'.error_code ≡ session_ok) ⊎ (s'.error_code ≡ read_timeout)) ⊎ (s'.attempts ≡ n))
unfolding send_internal_with_retry
send_internal_with_retry-Ends answers s f n e allows =
    let ends = retry_loop-Ends answers (retry_count s.retry) 0 s f in
    let count = retry_count-Allows allows in
    (
      elim ends.started [
        | inl z ↦ absurd (omega (arith, z, count, Allows-least allows))
        | inr m ↦ omega (arith, m)
      ],
      omega (arith, ends.bounded, e, count),
      elim ends.stopped [
        | inl t ↦ inl (is_final-errors _ t)
        | inr t ↦ inr (omega (arith, t, e, count))
      ],
    )
