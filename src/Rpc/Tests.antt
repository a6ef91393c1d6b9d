-- ===== src/Rpc/Tests.antt =====
-- Runs of the code of rpc/ on small inputs.
use cpp20_coroutine_io_uring.Common.{
  ℕ, ◌+◌, ◌^◌, ◌<◌, ◌≡◌, refl, true, [], ◌∷◌, ◌++◌, none, some, arith, inl, Bytes, length, str_eq,
  lookup, insert, to_le,
}
use cpp20_coroutine_io_uring.Rpc.Protocol.{
  ProtocolHeader, RpcMessage, MessageType, ErrorCode, init, blank, create_request, create_response,
  create_error, is_type, sized, meta_size, header_bytes, meta_bytes, header_size, serialize,
  deserialize,
}
use cpp20_coroutine_io_uring.Rpc.Protocol.Header.{HeaderFits}
use cpp20_coroutine_io_uring.Rpc.Protocol.RoundTrip.{MessageFits, deserialize-serialize_request}
use cpp20_coroutine_io_uring.Rpc.Protocol.Safety.{deserialize_overread}
use cpp20_coroutine_io_uring.Rpc.Registry.{register_method, find_method}
use cpp20_coroutine_io_uring.Rpc.Server.{
  Handler, RpcServer, not_found_text, internal_text, count_request, count_error, handle_message,
}
use cpp20_coroutine_io_uring.Rpc.Server.Answers.{handle_message_answers, handle_message_throws}

abbrev pub pad_bytes : Bytes
pad_bytes = 0 ∷ 0 ∷ 0 ∷ 0 ∷ []

-- "add" of "calc", with two bytes as its payload.
abbrev pub calc : Bytes
calc = 99 ∷ 97 ∷ 108 ∷ 99 ∷ []

abbrev pub add : Bytes
add = 97 ∷ 100 ∷ 100 ∷ []

abbrev pub a_request : RpcMessage
a_request = create_request 7 calc add (2 ∷ 3 ∷ []) 30000 1000

-- The sum of the bytes, and an exception on an empty payload.
abbrev pub sum_of : Bytes → ℕ
sum_of [] = 0
sum_of (x ∷ xs) = x + sum_of xs

abbrev pub sum_handler : Handler
sum_handler [] = none
sum_handler (x ∷ xs) = some (sum_of (x ∷ xs) ∷ [])

abbrev pub a_server : RpcServer
a_server = record {
  registry = register_method calc add (some sum_handler) [] [];
  total_requests = 0;
  total_errors = 0;
}

pub a_request-MessageFits :
    (payload : Bytes)
    → length payload < 2 ^ 32
    → MessageFits (create_request 7 calc add payload 30000 1000)
unfolding create_request meta_size is_type init
a_request-MessageFits payload h = record {
  meta_fits = omega arith;
  payload_fits = h;
  id_fits = omega arith;
  timestamp_fits = omega arith;
  timeout_fits = omega arith;
  error_fits = omega arith;
}

pub a_response-MessageFits : MessageFits (create_response 7 (5 ∷ []) ErrorCode.ok)
unfolding create_response meta_size is_type init
a_response-MessageFits = record {
  meta_fits = omega arith;
  payload_fits = omega arith;
  id_fits = omega arith;
  timestamp_fits = omega arith;
  timeout_fits = omega arith;
  error_fits = omega arith;
}

an_error-MessageFits : MessageFits (create_error 7 ErrorCode.service_not_found not_found_text)
unfolding create_error meta_size is_type init
an_error-MessageFits = record {
  meta_fits = omega arith;
  payload_fits = omega arith;
  id_fits = omega arith;
  timestamp_fits = omega arith;
  timeout_fits = omega arith;
  error_fits = omega arith;
}

pub found_handler : find_method calc add a_server.registry ≡ some sum_handler
unfolding find_method register_method lookup insert str_eq
found_handler = refl

no_handler : find_method calc calc a_server.registry ≡ none
unfolding find_method register_method lookup insert str_eq
no_handler = refl

deserialize-serialize_request_example :
    deserialize
      (serialize pad_bytes a_request ++ 9 ∷ [])
      (length (serialize pad_bytes a_request))
      blank
    ≡ some (true, record a_request { header = sized a_request })
deserialize-serialize_request_example =
    deserialize-serialize_request pad_bytes calc add (2 ∷ 3 ∷ []) (9 ∷ []) 7 30000 1000
      (length (serialize pad_bytes a_request)) refl
      (a_request-MessageFits (2 ∷ 3 ∷ []) (omega arith)) (omega arith)

handle_message_answers_example :
    (handle_message pad_bytes
        (serialize pad_bytes a_request ++ [])
        (length (serialize pad_bytes a_request))
        a_server
      ≡ some
          (serialize pad_bytes (create_response 7 (5 ∷ []) ErrorCode.ok), count_request a_server))
    × (deserialize
          (serialize pad_bytes (create_response 7 (5 ∷ []) ErrorCode.ok) ++ [])
          (length (serialize pad_bytes (create_response 7 (5 ∷ []) ErrorCode.ok)))
          blank
        ≡ some (
          true,
          record (create_response 7 (5 ∷ []) ErrorCode.ok) {
            header = sized (create_response 7 (5 ∷ []) ErrorCode.ok);
          },
        ))
handle_message_answers_example =
    handle_message_answers pad_bytes pad_bytes calc add (2 ∷ 3 ∷ []) [] [] (5 ∷ []) 7 30000 1000
      (length (serialize pad_bytes a_request)) sum_handler a_server refl refl
      (a_request-MessageFits (2 ∷ 3 ∷ []) (omega arith)) (omega arith) found_handler refl
      a_response-MessageFits

other_request-MessageFits : MessageFits (create_request 7 calc calc [] 30000 1000)
unfolding create_request meta_size is_type init
other_request-MessageFits = record {
  meta_fits = omega arith;
  payload_fits = omega arith;
  id_fits = omega arith;
  timestamp_fits = omega arith;
  timeout_fits = omega arith;
  error_fits = omega arith;
}

handle_message_throws_example :
    handle_message pad_bytes
      (serialize pad_bytes (create_request 7 calc add [] 30000 1000) ++ [])
      (length (serialize pad_bytes (create_request 7 calc add [] 30000 1000)))
      a_server
    ≡ some (
      serialize pad_bytes (create_error 7 ErrorCode.unknown internal_text),
      count_error (count_request a_server),
    )
handle_message_throws_example =
    handle_message_throws pad_bytes pad_bytes calc add [] [] 7 30000 1000
      (length (serialize pad_bytes (create_request 7 calc add [] 30000 1000))) sum_handler a_server
      refl (a_request-MessageFits [] (omega arith)) (omega arith) found_handler refl

a_request-HeaderFits : HeaderFits (sized a_request)
unfolding sized create_request meta_size is_type init
a_request-HeaderFits = record {
  magic_fits = omega arith;
  version_fits = omega arith;
  type_fits = omega arith;
  meta_fits = omega arith;
  payload_fits = omega arith;
  reserved_fits = omega arith;
}

a_request_short : 20 < length (serialize pad_bytes a_request)
unfolding serialize create_request sized is_type header_bytes to_le meta_bytes
a_request_short = omega arith

abbrev a_heartbeat : RpcMessage
a_heartbeat = record blank { header = init MessageType.heartbeat; request_id = 9 }

a_heartbeat-MessageFits : MessageFits a_heartbeat
unfolding meta_size is_type init
a_heartbeat-MessageFits = record {
  meta_fits = omega arith;
  payload_fits = omega arith;
  id_fits = omega arith;
  timestamp_fits = omega arith;
  timeout_fits = omega arith;
  error_fits = omega arith;
}

a_heartbeat-HeaderFits : HeaderFits (sized a_heartbeat)
unfolding sized meta_size is_type init
a_heartbeat-HeaderFits = record {
  magic_fits = omega arith;
  version_fits = omega arith;
  type_fits = omega arith;
  meta_fits = omega arith;
  payload_fits = omega arith;
  reserved_fits = omega arith;
}

-- A request's header that announces no meta section.
abbrev bare_header : ProtocolHeader
bare_header = record {
  magic = 0x5250;
  version = 1;
  msg_type = 0;
  meta_len = 0;
  payload_len = 0;
  reserved = 0;
}

bare_header-HeaderFits : HeaderFits bare_header
bare_header-HeaderFits = record {
  magic_fits = omega arith;
  version_fits = omega arith;
  type_fits = omega arith;
  meta_fits = omega arith;
  payload_fits = omega arith;
  reserved_fits = omega arith;
}

deserialize_overread_example :
    deserialize (header_bytes bare_header ++ []) (header_size + length {A = ℕ} []) blank ≡ none
deserialize_overread_example =
    deserialize_overread bare_header [] blank bare_header-HeaderFits refl (inl refl) (omega arith)
      (omega arith)
