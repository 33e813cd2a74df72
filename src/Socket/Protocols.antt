-- ===== src/Socket/Protocols.antt =====
-- src/protocol/protocol_define.cpp: the protocols that are registered, of which BOLT's is a part of
-- src/protocol/bolt/bolt_protocol.cpp.
use sofa_bolt_cpp.Base.{ℕ, false, Option}
use sofa_bolt_cpp.Bolt.{ParseResult}
use sofa_bolt_cpp.Bolt.Response.{check_header}
use sofa_bolt_cpp.IoBuffer.{Memory, Buffer}
use sofa_bolt_cpp.IoBuffer.Source.{io_source}
use sofa_bolt_cpp.Socket.{Protocol}

-- `parseBoltProtocol`: nothing is taken off the buffer, and nothing kept.
unfoldable pub parse_bolt_protocol :
    Memory → Buffer → Option ℕ → ParseResult × (ℕ × ℕ) × (Buffer × Option ℕ)
parse_bolt_protocol m b extra =
    let (result, data_size, request_id) = check_header (io_source m) b in
    (result, (data_size, request_id), (b, extra))

unfoldable pub bolt_protocol : Protocol
bolt_protocol = record { is_http = false; parse_protocol_fn = parse_bolt_protocol }

-- `EProtocolType`, `registerProtocol` and `getProtocol`, where a table maps the types to protocols.
pub data ProtocolType : Type 0 where
  protocol_bolt protocol_http : ProtocolType

pub register_protocol :
    ProtocolType → Protocol → (ProtocolType → Protocol) → ProtocolType → Protocol
register_protocol protocol_bolt p table protocol_bolt = p
register_protocol protocol_bolt p table protocol_http = table protocol_http
register_protocol protocol_http p table protocol_bolt = table protocol_bolt
register_protocol protocol_http p table protocol_http = p

pub get_protocol : (ProtocolType → Protocol) → ProtocolType → Protocol
get_protocol table type = table type
