-- ===== src/Socket/Tests.antt =====
-- src/tcp/socket.cpp with a short BOLT response for a call that waits.
use sofa_bolt_cpp.Base.{◌≡◌, refl, false, none, [], ◌∷◌}
use sofa_bolt_cpp.LifeCycleLock.{try_exclusive}
use sofa_bolt_cpp.IoBuffer.{Memory, Buffer}
use sofa_bolt_cpp.Socket.{PendingSession, Socket, status_ok, try_reclaim_session_map}

-- All bytes are 0: a response without a body, for the call 0, and five more bytes.
abbrev zeros : Memory
zeros = record {
  blocks = λ _. record { next = none; size = 25; capacity = 8168; cells = λ i. 0 };
  fresh = 1;
  room = 1000;
  chain = none;
}

abbrev no_bytes : Buffer
no_bytes = record { ref = []; ref_offset = 0 }

abbrev call : PendingSession
call = record {
  request_id = 0;
  request_time = 3;
  read_buf = no_bytes;
  message_data = none;
  owners = 4;
  has_callback = false;
  told = 0;
}

abbrev received_socket : Socket
received_socket = record {
  status = status_ok;
  read_buf = record { ref = record { block = 0; offset = 0; count = 25 } ∷ []; ref_offset = 0 };
  session_info = [];
  session_map = (0, call) ∷ [];
  last_active_time = 0;
  read_additional_data = none;
}

-- A call whose lock has no bit and no share is not reclaimed, so that `~Socket` does not end.
stays :
    try_reclaim_session_map ((0, record call { owners = 0 }) ∷ [])
    ≡ (0, record call { owners = 0 }) ∷ []
unfolding try_reclaim_session_map try_exclusive
stays = refl
