-- ===== src/Session.antt =====
-- include/session/session.h and src/session/session.cpp: a call, its attempts, and how each one ends.
-- What the other parts of the library answer in an attempt is an argument.
pub mod Attempts
pub mod Tests
use sofa_bolt_cpp.Base.{
  ℕ, zero, suc, ◌+◌, Bool, true, false, not, ◌&&◌, Option, none, some, List, [], ◌∷◌, if◌then◌else◌,
  ltb, ◌==◌, codes,
}

-- `ESessionError`, and `s_session_error_info`.
pub data SessionError : Type 0 where
  session_ok protocol_not_found assemble_request_fail socket_lost socket_busy : SessionError
  write_fail read_fail read_timeout parse_response_fail timer_busy : SessionError

pub get_err_text : SessionError → List ℕ
get_err_text session_ok = codes "success"
get_err_text protocol_not_found = codes "protocol not found"
get_err_text assemble_request_fail = codes "package request fail"
get_err_text socket_lost = codes "socket object lost"
get_err_text socket_busy = codes "socket is busy reading data"
get_err_text write_fail = codes "write into remote fail"
get_err_text read_fail = codes "read data from remote fail"
get_err_text read_timeout = codes "read data timeout"
get_err_text parse_response_fail = codes "parse response fail"
get_err_text timer_busy = codes "timer thread busy"

-- The caller's callback: none, a function, or one that was moved away.
pub data Callback : Type 0 where
  no_callback callback moved_away : Callback

-- `Session`. `attempts` counts the calls of `sendInternal`.
pub record Session : Type 0 where
  pub has_protocol : Bool
  pub has_channel : Bool
  pub has_socket : Bool
  pub has_request : Bool
  pub has_response : Bool
  pub timeout : Option ℕ
  pub retry : Option ℕ
  pub error_code : SessionError
  pub attempts : ℕ

-- In one attempt: the results of `getSocket`, the assembling function, `prepareRead`, `addTimeschdule`
-- and `write`, what `notify` puts into the result, and whether the response is then parsed.
pub record Answers : Type 0 where
  pub gets_socket : Bool
  pub assembles : Bool
  pub prepares : Bool
  pub timer_id : ℕ
  pub writes : Bool
  pub result : SessionError
  pub parses : Bool

-- `SocketReadSession::postProcess`
pub post_process : Bool → Bool → SessionError → SessionError
post_process has_response parses session_ok =
    if has_response && not parses then parse_response_fail else session_ok
post_process has_response parses other = other

-- The end of an attempt, with the error and what is left of the callback.
pub fail_with : SessionError → Session → Callback → Session × Callback
fail_with e s f = (record s { error_code = e }, f)

-- A callback is moved into the record of the call.
pub after_move : Callback → Callback
after_move no_callback = no_callback
after_move other = moved_away

-- The last part of an attempt: a call that has no callback waits for its result.
pub wait_result : Answers → Session → Callback → Session × Callback
wait_result a s callback = (s, moved_away)
wait_result a s f =
    (record s { error_code = post_process s.has_response a.parses a.result }, after_move f)

-- The part of `sendInternal` with a socket.
pub send_on_socket : Answers → Session → Callback → Session × Callback
send_on_socket a s f =
    if not (s.has_request && a.assembles)
    then fail_with assemble_request_fail s f
    else if not a.prepares
    then fail_with socket_busy s (after_move f)
    else if a.timer_id == 0
    then fail_with timer_busy s (after_move f)
    else if not a.writes
    then fail_with write_fail s (after_move f)
    else wait_result a s f

-- `Session::sendInternal`
pub send_internal : Answers → Session → Callback → Session × Callback
send_internal a s f =
    let s' = record s { has_socket = if s.has_channel then a.gets_socket else s.has_socket } in
    if not s.has_protocol
    then fail_with protocol_not_found s f
    else if not s'.has_socket
    then fail_with socket_lost s' f
    else send_on_socket a s' f

-- The errors after which there is no other attempt.
pub is_final : SessionError → Bool
is_final session_ok = true
is_final read_timeout = true
is_final other = false

-- The loop of `sendInternalWithRetry`, with `n` attempts left, of which `i` is the next.
pub retry_loop : (ℕ → Answers) → ℕ → ℕ → Session → Callback → Session × Callback
retry_loop answers zero i s f = (s, f)
retry_loop answers (suc n) i s f =
    let begun = record s { error_code = session_ok; attempts = suc s.attempts } in
    let (s', f') = send_internal (answers i) begun f in
    let more = retry_loop answers n (suc i) s' f' in
    if is_final s'.error_code then (s', f') else more

-- A retry that is not above 0 is one attempt; `none` is a number below 0.
pub retry_count : Option ℕ → ℕ
retry_count none = 1
retry_count (some zero) = 1
retry_count (some (suc n)) = suc n

pub send_internal_with_retry : (ℕ → Answers) → Session → Callback → Session × Callback
send_internal_with_retry answers s f = retry_loop answers (retry_count s.retry) 0 s f

-- `Session::sync`
pub sync : (ℕ → Answers) → Session → Session
sync answers s = (send_internal_with_retry answers s no_callback).0

-- `Session::async`, with the callback that is called where the call has failed, if it is.
pub failed_with : SessionError → Bool
failed_with session_ok = false
failed_with other = true

pub async : (ℕ → Answers) → Session → Session × Option Callback
async answers s =
    let (s', f) = send_internal_with_retry answers s callback in
    (s', if failed_with s'.error_code then some f else none)

-- `Session::to(Channel&)`, with the channel's timeout, number of retries and protocol.
pub default_to : Option ℕ → Option ℕ → Option ℕ
default_to none d = d
default_to (some n) d = some n

pub to_channel : Option ℕ → Option ℕ → Bool → Session → Session
to_channel timeout_ms max_retry has_protocol s = record s {
  timeout = default_to s.timeout timeout_ms;
  retry = default_to s.retry max_retry;
  has_protocol = has_protocol;
  has_channel = true;
}

-- `Session::to(std::shared_ptr<Socket>&)`, `Session::reset`
pub to_socket : Bool → Session → Session
to_socket has_protocol s = record s { has_socket = true; has_protocol = has_protocol }

pub reset : Session → Session
reset s = record s {
  has_request = false;
  has_response = false;
  has_channel = false;
  error_code = session_ok;
  has_socket = false;
}
