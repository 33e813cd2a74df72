-- ===== src/Bolt/Heartbeat.antt =====
-- Heartbeats in src/protocol/bolt/bolt_protocol.cpp, and the texts for a response's status in
-- src/protocol/bolt/bolt_response.cpp.
use sofa_bolt_cpp.Base.{
  ℕ, Bool, false, ◌&&◌, Option, none, some, List, [], ◌∷◌, if◌then◌else◌, ◌==◌, codes,
}
use sofa_bolt_cpp.Bolt.{cmd_heartbeat}
use sofa_bolt_cpp.Bolt.Request.{Request, nothing}
use sofa_bolt_cpp.Bolt.Response.{Header}

-- The request that `BoltHeartbeatBuffer` holds: one as it is made.
abbrev pub heartbeat_request : Request
heartbeat_request = record { service = []; method = []; trace_id = []; payload = nothing }

-- `isHeartbeat` and `status`
abbrev pub is_heartbeat : Header → Bool
is_heartbeat h = h.cmdcode == cmd_heartbeat

-- `parseHeartbeatResponse`, of a pointer that may be null.
pub parse_heartbeat_response : Option Header → Bool
parse_heartbeat_response none = false
parse_heartbeat_response (some h) = is_heartbeat h && h.status == 0

-- `s_rsp_error_info`, whose keys are the values of `EBoltResponseStatus`, and `msg`.
abbrev pub rsp_error_info : List (ℕ × List ℕ)
rsp_error_info =
    (0, codes "success")
    ∷ (1, codes "error")
    ∷ (2, codes "server exception")
    ∷ (3, codes "unknown")
    ∷ (4, codes "server thread pool busy")
    ∷ (5, codes "error communication")
    ∷ (6, codes "no processor")
    ∷ (7, codes "timeout")
    ∷ (8, codes "client send error")
    ∷ (9, codes "codec exception")
    ∷ (16, codes "connection closed")
    ∷ (17, codes "server serial exception")
    ∷ (18, codes "server deserial exception")
    ∷ []

pub find_msg : List (ℕ × List ℕ) → ℕ → List ℕ
find_msg [] status = codes "unknown"
find_msg ((s, text) ∷ infos) status = if s == status then text else find_msg infos status

pub msg : Header → List ℕ
msg h = find_msg rsp_error_info h.status
