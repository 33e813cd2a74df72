-- ===== src/Bolt/Request.antt =====
-- src/protocol/bolt/bolt_protocol.cpp and include/protocol/bolt/bolt_request.h: a request and its
-- bytes. Requests are written into I/O buffers, whose blocks the memory holds.
pub mod Frame
pub mod Contents
use sofa_bolt_cpp.Base.{
  ℕ, ◌+◌, ◌-◌, ◌%◌, ◌^◌, Option, none, some, List, [], ◌∷◌, ◌++◌, if◌then◌else◌, ◌==◌, length,
  codes, take, add16, add32,
}
use sofa_bolt_cpp.IoBuffer.{Memory, Buffer, new_buffer, size}
use sofa_bolt_cpp.IoBuffer.Append.{append, append_moved}
use sofa_bolt_cpp.Bolt.{
  protocol_type, protocol_request, cmd_heartbeat, cmd_request, protocol_ver2, codec_pb,
}
use sofa_bolt_cpp.Bolt.Wire.{be16, be32}

-- `_data` with `_data_type`: a null pointer is `none`. A protobuf message is what
-- `SerializeToZeroCopyStream` does to a buffer.
pub data Payload : Type 0 where
  cstring : Option (List ℕ) → Payload
  string : Option (List ℕ) → Payload
  protobuf : Option (Memory → Buffer → Memory × Buffer) → Payload
  nothing : Payload

-- `BoltRequest`
pub record Request : Type 0 where
  pub service : List ℕ
  pub method : List ℕ
  pub trace_id : List ℕ
  pub payload : Payload

-- `BoltRequestHeader`, its constant fields left out.
pub record RequestHeader : Type 0 where
  pub cmdcode : ℕ
  pub request_id : ℕ
  pub timeout : ℕ
  pub class_len : ℕ
  pub header_len : ℕ
  pub content_len : ℕ

-- `hton`, as the bytes of the packed structure.
abbrev pub hton : RequestHeader → List ℕ
hton h =
    protocol_type ∷ protocol_request ∷ be16 h.cmdcode
    ++ (protocol_ver2 ∷ be32 h.request_id
        ++ (codec_pb ∷ be32 h.timeout
            ++ (be16 h.class_len ++ (be16 h.header_len ++ be32 h.content_len))))

-- `initHeader` and the constructor of `BoltInternalRequest`.
pub init_header : Request → ℕ → RequestHeader
init_header req id = record {
  cmdcode = elim req.payload [ nothing ↦ cmd_heartbeat | _ ↦ cmd_request ];
  request_id = id % 2 ^ 32;
  timeout = 2 ^ 32 - 1;
  class_len = 0;
  header_len = 0;
  content_len = 0;
}

-- `appendBoltHeaderKV`: sizes are passed as `uint32_t`.
pub append_kv : Memory → Buffer → List ℕ → List ℕ → Memory × Buffer × ℕ
append_kv m b key value =
    let key_size = length key % 2 ^ 32 in
    let value_size = length value % 2 ^ 32 in
    let (m₁, b₁) = append m b (be32 key_size) in
    let (m₂, b₂) = append m₁ b₁ (take key_size key) in
    let (m₃, b₃) = append m₂ b₂ (be32 value_size) in
    let (m₄, b₄) = append m₃ b₃ (take value_size value) in
    (m₄, b₄, add32 (add32 8 key_size) value_size)

abbrev pub class_name : List ℕ
class_name = codes "com.alipay.sofa.rpc.core.request.SofaRequest"

abbrev pub service_key : List ℕ
service_key = codes "service"

abbrev pub sofa_service_key : List ℕ
sofa_service_key = codes "sofa_head_target_service"

abbrev pub method_key : List ℕ
method_key = codes "sofa_head_method_name"

abbrev pub trace_id_key : List ℕ
trace_id_key = codes "rpc_trace_context.sofaTraceId"

-- The body up to the content: the buffer, and `_header.header_len`.
pub put_entries : Memory → Buffer → Request → Memory × Buffer × ℕ
put_entries m body req =
    let (m₁, b₁, n₁) = append_kv m body service_key req.service in
    let (m₂, b₂, n₂) = append_kv m₁ b₁ sofa_service_key req.service in
    let (m₃, b₃, n₃) = append_kv m₂ b₂ method_key req.method in
    let (m₄, b₄, n₄) = append_kv m₃ b₃ trace_id_key req.trace_id in
    (m₄, b₄, add16 (add16 (add16 (add16 0 n₁) n₂) n₃) n₄)

-- The content: `_header` with its length, the body, and the buffer of the caller.
pub record Filled : Type 0 where
  pub memory : Memory
  pub outer : Buffer
  pub body : Buffer
  pub header : RequestHeader

pub put_content : Filled → Payload → Filled
put_content w (protobuf (some write)) =
    let (m, body) = write w.memory w.body in
    record w {
      memory = m;
      body = body;
      header = record (w.header) {
        content_len = (size body + 2 ^ 64 - w.header.class_len - w.header.header_len) % 2 ^ 32;
      };
    }
put_content w (string (some s)) =
    let (m, body) = append w.memory w.body s in
    record w {
      memory = m;
      body = body;
      header = record (w.header) { content_len = length s % 2 ^ 32 };
    }
put_content w (cstring (some s)) =
    let (m, outer) = append w.memory w.outer s in
    record w {
      memory = m;
      outer = outer;
      header = record (w.header) { content_len = length s % 2 ^ 32 };
    }
put_content w other = w

-- The end of `serialize`: the header, and the body behind it.
pub put_frame : Filled → Memory × Buffer
put_frame w = let (m, b) = append w.memory w.outer (hton w.header) in (m, (append_moved b w.body).0)

-- `BoltInternalRequest::serialize`, for a request that is no heartbeat.
pub serialize_request : Memory → Buffer → RequestHeader → Request → Memory × Buffer
serialize_request m buffer h req =
    let (m₁, body) = append m new_buffer class_name in
    let (m₂, body', n) = put_entries m₁ body req in
    put_frame (
      put_content
        (record {
          memory = m₂;
          outer = buffer;
          body = body';
          header = record h { class_len = length class_name; header_len = n };
        })
        req.payload)

pub serialize : Memory → Buffer → RequestHeader → Request → Memory × Buffer
serialize m buffer h req =
    if h.cmdcode == cmd_heartbeat
    then append m buffer (hton h)
    else serialize_request m buffer h req

-- `assembleBoltRequest`
pub assemble_request : Memory → Buffer → Request → ℕ → Memory × Buffer
assemble_request m buffer req id = serialize m buffer (init_header req id) req

-- `converseBoltRequest`
pub converse_request : ℕ → ℕ
converse_request id = id % 2 ^ 32
