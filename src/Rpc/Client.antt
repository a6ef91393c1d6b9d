-- ===== src/Rpc/Client.antt =====
-- rpc/rpc_client.hpp: `RpcResult`, the state of `RpcClient`, `call`, `async_call` and
-- `RpcClientProxy`. What `send` and `recv` of the TCP client give is an argument: the number that
-- was sent, and the bytes that each read delivers, of which none takes more than it asks for; no
-- bytes are the end of the connection or an error. Requests come serialized; `decode` is
-- `deserialize` of the response's type. `call` names a member `error` of `RpcResult` that no file
-- declares (there is `make_error`): it is a parameter, any function from a code and a text to a
-- result.
pub mod Calls
mod Tests
use cpp20_coroutine_io_uring.Common.{
  ℕ, ◌+◌, ◌-◌, ◌%◌, ◌^◌, Bool, true, false, not, List, [], ◌∷◌, ◌++◌, Option, none, some, ℤ,
  is_positive, Bytes, take, ltb, ◌==◌, if◌then◌else◌, ◌>>=◌, replicate,
}
use cpp20_coroutine_io_uring.Rpc.Protocol.{
  RpcMessage, ErrorCode, ProtocolHeader, blank, create_request, serialize, deserialize, header_size,
  read_header, valid, total_size, error_bits,
}
use cpp20_coroutine_io_uring.Rpc.Frames.{put, grow_to}

-- An error code is its bit pattern, as the one of a response is.
pub record RpcResult (T : Type 0) : Type 0 where
  pub success : Bool
  pub value : T
  pub error_code : ℕ
  pub error_message : Bytes

unfoldable pub ok_result : {T : Type 0} → T → RpcResult T
ok_result v = record {
  success = true;
  value = v;
  error_code = error_bits ErrorCode.ok;
  error_message = [];
}

unfoldable pub make_error : {T : Type 0} → T → ℕ → Bytes → RpcResult T
make_error default code message = record {
  success = false;
  value = default;
  error_code = code;
  error_message = message;
}

pub record RpcClient : Type 0 where
  pub request_id : ℕ
  pub timeout_ms : ℕ

-- `fetch_add(1)`.
unfoldable pub next_request_id : RpcClient → ℕ × RpcClient
next_request_id client =
    (client.request_id, record client { request_id = (client.request_id + 1) % 2 ^ 64 })

-- The message that a call sends. `pad` is what the padding holds, `now` the clock.
unfoldable pub request_bytes : Bytes → ℕ → Bytes → Bytes → Bytes → RpcClient → Bytes
request_bytes pad now service method request_data client =
    serialize pad
      (create_request client.request_id service method request_data client.timeout_ms now)

-- `std::vector<uint8_t> response_buffer; response_buffer.resize(4096);`
abbrev pub response_buffer : Bytes
response_buffer = replicate 4096 0

-- "Failed to send request".
abbrev pub send_text : Bytes
send_text =
    70 ∷ 97 ∷ 105 ∷ 108 ∷ 101 ∷ 100 ∷ 32 ∷ 116 ∷ 111 ∷ 32 ∷ 115 ∷ 101 ∷ 110 ∷ 100 ∷ 32 ∷ 114 ∷ 101
    ∷ 113 ∷ 117 ∷ 101 ∷ 115 ∷ 116 ∷ []

-- "Failed to receive response".
abbrev pub receive_text : Bytes
receive_text =
    70 ∷ 97 ∷ 105 ∷ 108 ∷ 101 ∷ 100 ∷ 32 ∷ 116 ∷ 111 ∷ 32 ∷ 114 ∷ 101 ∷ 99 ∷ 101 ∷ 105 ∷ 118 ∷ 101
    ∷ 32 ∷ 114 ∷ 101 ∷ 115 ∷ 112 ∷ 111 ∷ 110 ∷ 115 ∷ 101 ∷ []

-- "Invalid response header".
abbrev pub header_text : Bytes
header_text =
    73 ∷ 110 ∷ 118 ∷ 97 ∷ 108 ∷ 105 ∷ 100 ∷ 32 ∷ 114 ∷ 101 ∷ 115 ∷ 112 ∷ 111 ∷ 110 ∷ 115 ∷ 101 ∷ 32
    ∷ 104 ∷ 101 ∷ 97 ∷ 100 ∷ 101 ∷ 114 ∷ []

-- "Failed to deserialize response".
abbrev pub response_text : Bytes
response_text =
    70 ∷ 97 ∷ 105 ∷ 108 ∷ 101 ∷ 100 ∷ 32 ∷ 116 ∷ 111 ∷ 32 ∷ 100 ∷ 101 ∷ 115 ∷ 101 ∷ 114 ∷ 105 ∷ 97
    ∷ 108 ∷ 105 ∷ 122 ∷ 101 ∷ 32 ∷ 114 ∷ 101 ∷ 115 ∷ 112 ∷ 111 ∷ 110 ∷ 115 ∷ 101 ∷ []

-- "Failed to deserialize result".
abbrev pub result_text : Bytes
result_text =
    70 ∷ 97 ∷ 105 ∷ 108 ∷ 101 ∷ 100 ∷ 32 ∷ 116 ∷ 111 ∷ 32 ∷ 100 ∷ 101 ∷ 115 ∷ 101 ∷ 114 ∷ 105 ∷ 97
    ∷ 108 ∷ 105 ∷ 122 ∷ 101 ∷ 32 ∷ 114 ∷ 101 ∷ 115 ∷ 117 ∷ 108 ∷ 116 ∷ []

module _ {T : Type 0} (decode : Bytes → Option T) (error : ℕ → Bytes → RpcResult T) where
  abbrev pub fails : ErrorCode → Bytes → Option (RpcResult T)
  fails code message = some (error (error_bits code) message)

  -- The last two steps: the error of the response, and its payload.
  unfoldable pub take_result : RpcMessage → RpcResult T
  take_result response =
      if not (response.error_code == error_bits ErrorCode.ok)
      then error response.error_code response.error_message
      else elim (decode response.payload) [
        | none ↦ error (error_bits ErrorCode.serialization_error) result_text
        | some v ↦ ok_result v
      ]

  unfoldable pub take_response : Option (Bool × RpcMessage) → Option (RpcResult T)
  take_response none = none
  take_response (some (read, response)) =
      if read
      then some (take_result response)
      else fails ErrorCode.serialization_error response_text

  -- What the second read delivers.
  unfoldable pub receive_rest : ℕ → Bytes → Bytes → Option (RpcResult T)
  receive_rest total buffer [] = fails ErrorCode.connection_error receive_text
  receive_rest total buffer (b ∷ chunk) =
      take_response (deserialize (put header_size (b ∷ chunk) buffer) total blank)

  unfoldable pub receive_body : ProtocolHeader → Bytes → Bytes → Option (RpcResult T)
  receive_body h buffer chunk =
      if not (valid h)
      then fails ErrorCode.invalid_request header_text
      else if ltb 0 (total_size h - header_size)
      then receive_rest (total_size h) (grow_to (total_size h) buffer)
          (take (total_size h - header_size) chunk)
      else take_response (deserialize (grow_to (total_size h) buffer) (total_size h) blank)

  -- What the first read delivers.
  unfoldable pub receive : Bytes → Bytes → Bytes → Option (RpcResult T)
  receive buffer [] chunk = fails ErrorCode.connection_error receive_text
  receive buffer (b ∷ header) chunk = do
    (h, rest) ← read_header (put 0 (b ∷ header) buffer)
    receive_body h (put 0 (b ∷ header) buffer) chunk

  -- `call`, from the sending on: `sent` is what `send` returns. `none` is a read past the memory.
  unfoldable pub call : ℤ → Bytes → Bytes → Bytes → RpcClient → Option (RpcResult T) × RpcClient
  call sent header chunk buffer client = (
    if is_positive sent
        then receive buffer (take header_size header) chunk
        else fails ErrorCode.connection_error send_text,
    (next_request_id client).1,
  )

-- `async_call` waits for no answer.
unfoldable pub async_call : ℤ → RpcClient → Bool × RpcClient
async_call sent client = (is_positive sent, (next_request_id client).1)
