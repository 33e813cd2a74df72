-- ===== src/Socket.antt =====
-- src/tcp/socket.h and src/tcp/socket.cpp: a connection, the calls that wait on it, and what it does
-- with the bytes that it receives.
pub mod Messages
pub mod Protocols
pub mod Write
pub mod Tests
use sofa_bolt_cpp.Base.{
  ℕ, suc, ◌+◌, ◌≡◌, Bool, true, false, not, Option, none, some, List, [], ◌∷◌, ◌++◌, if◌then◌else◌,
  leb, ◌==◌,
}
use sofa_bolt_cpp.Bolt.{ParseResult, parse_ok, parse_error, not_enough_data}
use sofa_bolt_cpp.IoBuffer.{Memory, Buffer, size}
use sofa_bolt_cpp.IoBuffer.Cut.{cut_slices, pop_front}
use sofa_bolt_cpp.LifeCycleLock.{try_shared, release_shared, try_upgrade_once, try_exclusive}

-- `ERpcStatus`, as far as a socket sets it.
pub data RpcStatus : Type 0 where
  status_init status_ok connect_fail connect_timeout closed_by_server read_error write_error :
      RpcStatus

-- `SocketReadSession`, as the thread that reads the socket sees it. `message_data` is what the protocol
-- keeps of a message; `owners` is the lock of that name, and `told` says how often a `notify` of SESSION_OK
-- has told how the call ended.
pub record PendingSession : Type 0 where
  pub request_id : ℕ
  pub request_time : ℕ
  pub read_buf : Buffer
  pub message_data : Option ℕ
  pub owners : ℕ
  pub has_callback : Bool
  pub told : ℕ

-- `Protocol`: whether it is HTTP, and `parse_protocol_fn`, which gives its result, the size of the
-- response, the request's number and the additional data, and may change the buffer.
pub record Protocol : Type 0 where
  pub is_http : Bool
  pub parse_protocol_fn : Memory → Buffer → Option ℕ → ParseResult × (ℕ × ℕ) × (Buffer × Option ℕ)

-- `Socket`. `session_info` is the queue of that name, `session_map` the map in the order of its
-- iteration.
pub record Socket : Type 0 where
  pub status : RpcStatus
  pub read_buf : Buffer
  pub session_info : List PendingSession
  pub session_map : List (ℕ × PendingSession)
  pub last_active_time : ℕ
  pub read_additional_data : Option ℕ

-- What `cutIntoMessage` returns: -1, or a number. 0 stands for a message that is not there in full, and
-- for one with the number 0.
pub data CutResult : Type 0 where
  cut_error : CutResult
  received : (request_id : ℕ) → CutResult

abbrev pub need_more : CutResult
need_more = received 0

-- `_session_map.find` and `emplace`, which changes nothing where the key is there.
pub find : ℕ → List (ℕ × PendingSession) → Option PendingSession
find id [] = none
find id ((k, s) ∷ m) = if id == k then some s else find id m

pub emplace_session : PendingSession → List (ℕ × PendingSession) → List (ℕ × PendingSession)
emplace_session s m = put_new (find s.request_id m)
  where
    put_new : Option PendingSession → List (ℕ × PendingSession)
    put_new none = m ++ ((s.request_id, s) ∷ [])
    put_new (some t) = m

-- The loop that empties `_session_info`, up to the first call that is not older than `begin`.
pub collect_sessions :
    ℕ
    → List PendingSession
    → List (ℕ × PendingSession)
    → List PendingSession × List (ℕ × PendingSession)
collect_sessions begin [] m = ([], m)
collect_sessions begin (s ∷ q) m =
    let m' = emplace_session s m in
    let rest = collect_sessions begin q m' in if leb begin s.request_time then (q, m') else rest

-- `_session_map.begin()` for HTTP, and the call of that number otherwise.
pub choose_session : Bool → ℕ → List (ℕ × PendingSession) → Option PendingSession
choose_session true id [] = none
choose_session true id ((k, s) ∷ m) = some s
choose_session false id m = find id m

-- The call `s` in place of the one with its number.
pub replace : PendingSession → List (ℕ × PendingSession) → List (ℕ × PendingSession)
replace s [] = []
replace s ((k, t) ∷ m) =
    let rest = replace s m in if s.request_id == k then (k, s) ∷ m else (k, t) ∷ rest

-- `SocketReadSession::notify` with SESSION_OK, which no other thread disturbs: a call that has no callback
-- keeps the share that is taken here.
pub notify : PendingSession → PendingSession
notify s =
    let (shared, v) = try_shared s.owners in
    let (upgraded, w) = try_upgrade_once v in
    if not shared
    then record s { owners = release_shared v }
    else if not upgraded
    then record s { owners = release_shared w }
    else record s { owners = if s.has_callback then release_shared w else w; told = suc s.told }

-- The message goes to its call, or is dropped where no call waits for it.
pub deliver : Option PendingSession → ℕ → Socket → Socket
unfolding notify
deliver none response_size k = record k { read_buf = (pop_front k.read_buf response_size).1 }
deliver (some s) response_size k =
    let (cur, out, left) = cut_slices k.read_buf s.read_buf response_size in
    record k {
      read_buf = left;
      session_map =
          replace (notify (record s { read_buf = out; message_data = k.read_additional_data }))
            k.session_map;
      read_additional_data = none;
    }

-- After `parse_protocol_fn`, which has told `result`, where the clock says `now`, and then `begin`.
pub after_parse : Protocol → ParseResult → ℕ → ℕ → ℕ → ℕ → Socket → CutResult × Socket
after_parse p not_enough_data response_size id now begin k = (need_more, k)
after_parse p parse_error response_size id now begin k =
    (cut_error, record k { status = read_error })
after_parse p parse_ok response_size id now begin k =
    let (q, m) = collect_sessions begin k.session_info k.session_map in
    (
      received id,
      deliver (choose_session p.is_http id m) response_size
          (record k { last_active_time = now; session_info = q; session_map = m }),
    )

-- `Socket::cutIntoMessage`
pub cut_into_message : Memory → Protocol → ℕ → ℕ → Socket → CutResult × Socket
cut_into_message m p now begin k =
    let (result, (response_size, id), (buf, extra)) =
      p.parse_protocol_fn m k.read_buf k.read_additional_data in
    if size k.read_buf == 0
    then (need_more, k)
    else after_parse p result response_size id now begin
        (record k { read_buf = buf; read_additional_data = extra })

-- `Socket::tryReclaimSessionMap`
pub try_reclaim_session_map : List (ℕ × PendingSession) → List (ℕ × PendingSession)
try_reclaim_session_map [] = []
try_reclaim_session_map ((k, s) ∷ m) =
    let rest = try_reclaim_session_map m in
    if (try_exclusive s.owners).0 then rest else (k, s) ∷ rest
