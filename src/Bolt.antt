-- ===== src/Bolt.antt =====
-- The BOLT protocol: include/protocol/bolt, src/protocol/bolt and the constants of
-- include/common/common_defines.h. Numbers on the wire are big-endian.
pub mod Wire
pub mod Response
pub mod Request
pub mod Heartbeat
pub mod Tests
use sofa_bolt_cpp.Base.{ℕ}

-- `EResParseResult`
pub data ParseResult : Type 0 where
  parse_ok parse_error not_enough_data : ParseResult

abbrev pub protocol_type : ℕ
protocol_type = 1

abbrev pub protocol_request : ℕ
protocol_request = 1

abbrev pub protocol_response : ℕ
protocol_response = 0

abbrev pub cmd_heartbeat : ℕ
cmd_heartbeat = 0

abbrev pub cmd_request : ℕ
cmd_request = 1

abbrev pub cmd_response : ℕ
cmd_response = 2

abbrev pub protocol_ver2 : ℕ
protocol_ver2 = 1

abbrev pub codec_pb : ℕ
codec_pb = 11
