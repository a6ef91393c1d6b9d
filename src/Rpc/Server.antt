-- ===== src/Rpc/Server.antt =====
-- rpc/rpc_server.hpp: the state of `RpcServer` and `handle_message`. A handler is a function of the
-- request's payload, and `none` is an exception that leaves it. The registry, a singleton there, is a
-- field here. `none` from `handle_message` is a read past the end of the message's memory.
pub mod Answers
pub mod Loop
use cpp20_coroutine_io_uring.Common.{
  ℕ, ◌+◌, ◌%◌, ◌^◌, Bool, true, false, List, [], ◌∷◌, Option, none, some, Bytes, if◌then◌else◌,
  ◌>>=◌,
}
use cpp20_coroutine_io_uring.Rpc.Protocol.{
  RpcMessage, MessageType, ErrorCode, blank, create_response, create_error, is_type, serialize,
  deserialize,
}
use cpp20_coroutine_io_uring.Rpc.Registry.{ServiceRegistry, find_method}

abbrev pub Handler : Type 0
Handler = Bytes → Option Bytes

pub record RpcServer : Type 0 where
  pub registry : ServiceRegistry Handler
  pub total_requests : ℕ
  pub total_errors : ℕ

-- "Service or method not found".
abbrev pub not_found_text : Bytes
not_found_text =
    83 ∷ 101 ∷ 114 ∷ 118 ∷ 105 ∷ 99 ∷ 101 ∷ 32 ∷ 111 ∷ 114 ∷ 32 ∷ 109 ∷ 101 ∷ 116 ∷ 104 ∷ 111 ∷ 100
    ∷ 32 ∷ 110 ∷ 111 ∷ 116 ∷ 32 ∷ 102 ∷ 111 ∷ 117 ∷ 110 ∷ 100 ∷ []

-- "Internal server error".
abbrev pub internal_text : Bytes
internal_text =
    73 ∷ 110 ∷ 116 ∷ 101 ∷ 114 ∷ 110 ∷ 97 ∷ 108 ∷ 32 ∷ 115 ∷ 101 ∷ 114 ∷ 118 ∷ 101 ∷ 114 ∷ 32 ∷ 101
    ∷ 114 ∷ 114 ∷ 111 ∷ 114 ∷ []

abbrev pub count_request : RpcServer → RpcServer
count_request s = record s { total_requests = (s.total_requests + 1) % 2 ^ 64 }

abbrev pub count_error : RpcServer → RpcServer
count_error s = record s { total_errors = (s.total_errors + 1) % 2 ^ 64 }

-- The call of a handler that was found, and the message that is sent for it.
unfoldable pub call_handler : Bytes → Handler → RpcMessage → RpcServer → Bytes × RpcServer
call_handler pad handler msg s = elim (handler msg.payload) [
  | some result ↦ (serialize pad (create_response msg.request_id result ErrorCode.ok), s)
  | none ↦
      (serialize pad (create_error msg.request_id ErrorCode.unknown internal_text), count_error s)
]

unfoldable pub handle_request : Bytes → RpcMessage → RpcServer → Bytes × RpcServer
handle_request pad msg s = elim (find_method msg.service msg.method s.registry) [
  | none ↦
      (serialize pad (create_error msg.request_id ErrorCode.service_not_found not_found_text), s)
  | some handler ↦ call_handler pad handler msg s
]

-- What follows a message that was read.
unfoldable pub dispatch : Bytes → RpcMessage → RpcServer → Bytes × RpcServer
dispatch pad msg s =
    if is_type MessageType.request msg
    then handle_request pad msg s
    else if is_type MessageType.heartbeat msg
    then (serialize pad (create_response msg.request_id [] ErrorCode.ok), s)
    else ([], s)

unfoldable pub handle_message : Bytes → Bytes → ℕ → RpcServer → Option (Bytes × RpcServer)
handle_message pad memory size s = do
  (read, msg) ← deserialize memory size blank
  if read then some (dispatch pad msg (count_request s)) else some ([], count_error s)
