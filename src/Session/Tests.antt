-- ===== src/Session/Tests.antt =====
-- src/session/session.cpp with calls that fail.
use sofa_bolt_cpp.Base.{◌≡◌, ◌≤◌, ◌⊎◌, refl, true, some, arith}
use sofa_bolt_cpp.Session.{
  session_ok, read_timeout, Session, Answers, no_callback, moved_away, send_internal,
  send_on_socket, fail_with, is_final, after_move, failed_with, retry_loop, retry_count,
  send_internal_with_retry, async,
}
use sofa_bolt_cpp.Session.Attempts.{some_times, send_internal_with_retry-Ends}

-- A call that may be tried twice; the timer's thread takes no task.
abbrev session : Session
session = record {
  has_protocol = true;
  has_channel = true;
  has_socket = true;
  has_request = true;
  has_response = true;
  timeout = some 100;
  retry = some 2;
  error_code = session_ok;
  attempts = 0;
}

abbrev busy_timer : Answers
busy_timer = record {
  gets_socket = true;
  assembles = true;
  prepares = true;
  timer_id = 0;
  writes = true;
  result = session_ok;
  parses = true;
}

send_internal_with_retry-Ends_example :
    let s' = (send_internal_with_retry (λ i. busy_timer) session no_callback).0 in
    (1 ≤ s'.attempts)
    × (s'.attempts ≤ 2)
    × (((s'.error_code ≡ session_ok) ⊎ (s'.error_code ≡ read_timeout)) ⊎ (s'.attempts ≡ 2))
send_internal_with_retry-Ends_example =
    send_internal_with_retry-Ends (λ i. busy_timer) session no_callback 2 refl
      (some_times 2 (omega arith))

-- The callback that is called in the end was moved away in the first attempt.
empty_call : (async (λ i. busy_timer) session).1 ≡ some moved_away
unfolding async send_internal_with_retry retry_loop retry_count send_internal send_on_socket
    fail_with after_move failed_with is_final
empty_call = refl
