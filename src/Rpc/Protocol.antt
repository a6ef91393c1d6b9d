-- ===== src/Rpc/Protocol.antt =====
-- rpc/protocol.hpp: the message format. Integers are bit patterns (`int32_t` too), a `std::string`
-- or `std::vector<uint8_t>` is its list of bytes, and memory is little-endian, as on x86-64 and
-- AArch64. The clock is the argument `now` of `create_request`.
pub mod Header
pub mod RoundTrip
pub mod Safety
use cpp20_coroutine_io_uring.Common.{
  ℕ, ◌+◌, ◌-◌, ◌%◌, ◌^◌, Bool, true, false, not, ◌||◌, List, [], ◌∷◌, ◌++◌, Option, none, some,
  Bytes, length, ltb, ◌==◌, if◌then◌else◌, to_le, read_bytes, read_le, ◌>>=◌,
}

pub data MessageType : Type 0 where
  request response heartbeat error stream stream_end : MessageType

abbrev pub type_code : MessageType → ℕ
type_code request = 0
type_code response = 1
type_code heartbeat = 2
type_code error = 3
type_code stream = 4
type_code stream_end = 5

pub data ErrorCode : Type 0 where
  ok unknown invalid_request service_not_found method_not_found : ErrorCode
  serialization_error timeout connection_error server_busy : ErrorCode

-- The `int32_t` of an error code, as its bit pattern.
abbrev pub error_bits : ErrorCode → ℕ
error_bits ok = 0
error_bits unknown = 2 ^ 32 - 1
error_bits invalid_request = 2 ^ 32 - 2
error_bits service_not_found = 2 ^ 32 - 3
error_bits method_not_found = 2 ^ 32 - 4
error_bits serialization_error = 2 ^ 32 - 5
error_bits timeout = 2 ^ 32 - 6
error_bits connection_error = 2 ^ 32 - 7
error_bits server_busy = 2 ^ 32 - 8

pub record ProtocolHeader : Type 0 where
  pub magic : ℕ
  pub version : ℕ
  pub msg_type : ℕ
  pub meta_len : ℕ
  pub payload_len : ℕ
  pub reserved : ℕ

abbrev pub header_magic : ℕ
header_magic = 0x5250

-- `sizeof` of the three structs; `RequestMeta` ends in four bytes of padding.
abbrev pub header_size : ℕ
header_size = 16

abbrev pub request_meta_size : ℕ
request_meta_size = 32

abbrev pub response_meta_size : ℕ
response_meta_size = 16

unfoldable pub valid : ProtocolHeader → Bool
valid h = h.magic == header_magic

unfoldable pub init : MessageType → ProtocolHeader
init t = record {
  magic = header_magic;
  version = 1;
  msg_type = type_code t;
  meta_len = 0;
  payload_len = 0;
  reserved = 0;
}

pub record RpcMessage : Type 0 where
  pub header : ProtocolHeader
  pub request_id : ℕ
  pub service : Bytes
  pub method : Bytes
  pub payload : Bytes
  pub error_code : ℕ
  pub error_message : Bytes
  pub timeout_ms : ℕ
  pub timestamp : ℕ

-- `RpcMessage msg;`, the member initialisers.
abbrev pub blank : RpcMessage
blank = record {
  header = record {
    magic = 0;
    version = 0;
    msg_type = 0;
    meta_len = 0;
    payload_len = 0;
    reserved = 0;
  };
  request_id = 0;
  service = [];
  method = [];
  payload = [];
  error_code = error_bits ok;
  error_message = [];
  timeout_ms = 30000;
  timestamp = 0;
}

unfoldable pub create_request : ℕ → Bytes → Bytes → Bytes → ℕ → ℕ → RpcMessage
unfolding init
create_request request_id service method payload timeout_ms now = record blank {
  header = init request;
  request_id = request_id;
  service = service;
  method = method;
  payload = payload;
  timeout_ms = timeout_ms;
  timestamp = now;
}

unfoldable pub create_response : ℕ → Bytes → ErrorCode → RpcMessage
unfolding init
create_response request_id payload code = record blank {
  header = init response;
  request_id = request_id;
  payload = payload;
  error_code = error_bits code;
}

unfoldable pub create_error : ℕ → ErrorCode → Bytes → RpcMessage
unfolding init
create_error request_id code message = record blank {
  header = init response;
  request_id = request_id;
  error_code = error_bits code;
  error_message = message;
}

unfoldable pub is_type : MessageType → RpcMessage → Bool
is_type t m = m.header.msg_type == type_code t

unfoldable pub total_size : ProtocolHeader → ℕ
total_size h = header_size + h.meta_len + h.payload_len

unfoldable pub header_bytes : ProtocolHeader → Bytes
header_bytes h =
    to_le 2 h.magic
    ++ (to_le 1 h.version
        ++ (to_le 1 h.msg_type
            ++ (to_le 4 h.meta_len ++ (to_le 4 h.payload_len ++ to_le 4 h.reserved))))

-- The meta section with its strings. `pad` is what the padding of `RequestMeta` holds.
unfoldable pub meta_bytes : Bytes → RpcMessage → Bytes
unfolding is_type
meta_bytes pad m =
    if is_type request m
    then to_le 8 m.request_id
      ++ (to_le 8 m.timestamp
          ++ (to_le 4 m.timeout_ms
              ++ (to_le 4 (length m.service % 2 ^ 32)
                  ++ (to_le 4 (length m.method % 2 ^ 32) ++ (pad ++ (m.service ++ m.method))))))
    else to_le 8 m.request_id
      ++ (to_le 4 m.error_code ++ (to_le 4 (length m.error_message % 2 ^ 32) ++ m.error_message))

unfoldable pub meta_size : RpcMessage → ℕ
unfolding is_type
meta_size m =
    if is_type request m
    then request_meta_size + length m.service + length m.method
    else response_meta_size + length m.error_message

-- The header that `serialize` writes.
unfoldable pub sized : RpcMessage → ProtocolHeader
unfolding meta_size
sized m = record h { meta_len = meta_size m % 2 ^ 32; payload_len = length m.payload % 2 ^ 32 }
  where
    h : ProtocolHeader
    h = m.header

unfoldable pub serialize : Bytes → RpcMessage → Bytes
serialize pad m = header_bytes (sized m) ++ (meta_bytes pad m ++ m.payload)

unfoldable pub read_header : Bytes → Option (ProtocolHeader × Bytes)
read_header data0 = do
  (magic, data1) ← read_le 2 data0
  (version, data2) ← read_le 1 data1
  (msg_type, data3) ← read_le 1 data2
  (meta_len, data4) ← read_le 4 data3
  (payload_len, data5) ← read_le 4 data4
  (reserved, rest) ← read_le 4 data5
  some (
    record {
      magic = magic;
      version = version;
      msg_type = msg_type;
      meta_len = meta_len;
      payload_len = payload_len;
      reserved = reserved;
    },
    rest,
  )

unfoldable pub read_request_meta : Bytes → RpcMessage → Option (RpcMessage × Bytes)
read_request_meta data0 msg = do
  (request_id, data1) ← read_le 8 data0
  (timestamp, data2) ← read_le 8 data1
  (timeout_ms, data3) ← read_le 4 data2
  (service_len, data4) ← read_le 4 data3
  (method_len, data5) ← read_le 4 data4
  (pad, data6) ← read_bytes 4 data5
  (service, data7) ← read_bytes service_len data6
  (method, rest) ← read_bytes method_len data7
  some (
    record msg {
      request_id = request_id;
      timestamp = timestamp;
      timeout_ms = timeout_ms;
      service = service;
      method = method;
    },
    rest,
  )

-- `error_message_.assign(ptr, error_len)`.
unfoldable pub read_error_message : ℕ → Bytes → RpcMessage → Option (RpcMessage × Bytes)
read_error_message error_len memory msg = do
  (message, rest) ← read_bytes error_len memory
  some (record msg { error_message = message }, rest)

unfoldable pub read_response_meta : Bytes → RpcMessage → Option (RpcMessage × Bytes)
read_response_meta data0 msg = do
  (request_id, data1) ← read_le 8 data0
  (error_code, data2) ← read_le 4 data1
  (error_len, data3) ← read_le 4 data2
  let found = record msg { request_id = request_id; error_code = error_code }
  if ltb 0 error_len then read_error_message error_len data3 found else some (found, data3)

unfoldable pub read_meta : Bytes → RpcMessage → Option (RpcMessage × Bytes)
read_meta rest msg =
    if is_type request msg
    then read_request_meta rest msg
    else if is_type response msg
    then read_response_meta rest msg
    else some (msg, rest)

-- `payload_.assign(ptr, ptr + payload_len)`.
unfoldable pub assign_payload : Bytes → RpcMessage → Option (Bool × RpcMessage)
assign_payload memory msg = do
  (payload, rest) ← read_bytes msg.header.payload_len memory
  some (true, record msg { payload = payload })

unfoldable pub read_payload : Bytes → RpcMessage → Option (Bool × RpcMessage)
read_payload memory msg =
    if ltb 0 msg.header.payload_len then assign_payload memory msg else some (true, msg)

-- What follows the checks of the header.
unfoldable pub read_sections : Bytes → RpcMessage → Option (Bool × RpcMessage)
read_sections memory msg = do (msg', rest) ← read_meta memory msg; read_payload rest msg'

unfoldable pub read_checked : Bytes → ℕ → RpcMessage → Option (Bool × RpcMessage)
read_checked memory size msg = do
  (h, rest) ← read_header memory
  let found = record msg { header = h }
  if not (valid h) || ltb size (total_size h) then some (false, found) else read_sections rest found

-- `memory` is what can be read from the pointer `data` on, `size` the argument; the message is the
-- out parameter, with what it holds on entry. A read outside the memory is `none`.
unfoldable pub deserialize : Bytes → ℕ → RpcMessage → Option (Bool × RpcMessage)
deserialize memory size msg =
    if ltb size header_size then some (false, msg) else read_checked memory size msg
