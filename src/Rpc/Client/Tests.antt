-- ===== src/Rpc/Client/Tests.antt =====
-- rpc/rpc_client.hpp and the loop of rpc/rpc_server.hpp: runs at small inputs.
use cpp20_coroutine_io_uring.Common.{
  ℕ, ◌≡◌, refl, [], ◌∷◌, ◌++◌, Option, none, some, pos, Bytes, take, drop, replicate, to_le,
  read_le, read_bytes, arith,
}
use cpp20_coroutine_io_uring.Rpc.Protocol.{
  ErrorCode, create_request, create_error, header_size, serialize, header_bytes, meta_bytes,
  read_header, valid, meta_size, is_type, init,
}
use cpp20_coroutine_io_uring.Rpc.Protocol.RoundTrip.{MessageFits}
use cpp20_coroutine_io_uring.Rpc.Frames.{put}
use cpp20_coroutine_io_uring.Rpc.Server.{count_request, count_error, handle_message}
use cpp20_coroutine_io_uring.Rpc.Server.Loop.{handle_connection, after_turn, turn, with_header}
use cpp20_coroutine_io_uring.Rpc.Server.Loop.Reads.{Call, CallFits, reads_of}
use cpp20_coroutine_io_uring.Rpc.Server.Loop.Pipeline.{serve, written}
use cpp20_coroutine_io_uring.Rpc.Server.Loop.Pipeline
use cpp20_coroutine_io_uring.Rpc.Server.Loop.Fuel
use cpp20_coroutine_io_uring.Rpc.Client.{
  RpcClient, ok_result, make_error, next_request_id, request_bytes, call,
}
use cpp20_coroutine_io_uring.Rpc.Client.Calls
use cpp20_coroutine_io_uring.Rpc.Tests.{
  pad_bytes, calc, add, sum_handler, a_server, a_request-MessageFits, a_response-MessageFits,
  found_handler,
}

abbrev client : RpcClient
client = record { request_id = 7; timeout_ms = 30000 }

-- A type with one byte to read.
abbrev first_byte : Bytes → Option ℕ
first_byte [] = none
first_byte (b ∷ rest) = some b

abbrev a_call : Call
a_call = record {
  pad = pad_bytes;
  id = 7;
  service = calc;
  method = add;
  payload = 2 ∷ 3 ∷ [];
  timeout_ms = 30000;
  now = 1000;
}

a_call-CallFits : CallFits 1000 a_call
unfolding create_request init serialize header_bytes to_le meta_bytes
a_call-CallFits = record {
  pad_size = refl;
  fits = a_request-MessageFits (2 ∷ 3 ∷ []) (omega arith);
  allowed = omega arith;
}

abbrev buffer : Bytes
buffer = replicate 20 0

handle_connection-serve_example :
    handle_connection 2 1000 pad_bytes
      (reads_of (a_call ∷ a_call ∷ []))
      (pos 50 ∷ pos 5 ∷ [])
      buffer
      a_server
    ≡ some (
      written (pos 50 ∷ pos 5 ∷ []) (serve pad_bytes (a_call ∷ a_call ∷ []) a_server).0,
      (serve pad_bytes (a_call ∷ a_call ∷ []) a_server).1,
    )
handle_connection-serve_example =
    Pipeline.handle_connection-serve 2 1000 pad_bytes (a_call ∷ a_call ∷ []) (pos 50 ∷ pos 5 ∷ [])
      buffer a_server (a_call-CallFits, (a_call-CallFits, tt)) (refl, (refl, tt)) (omega arith)
      (omega arith)

an_error-MessageFits : MessageFits (create_error 7 ErrorCode.unknown (33 ∷ []))
unfolding create_error meta_size is_type init
an_error-MessageFits = record {
  meta_fits = omega arith;
  payload_fits = omega arith;
  id_fits = omega arith;
  timestamp_fits = omega arith;
  timeout_fits = omega arith;
  error_fits = omega arith;
}

call-handle_message_example :
    (answer : Bytes) × (handle_message pad_bytes
        (request_bytes pad_bytes 1000 calc add (2 ∷ 3 ∷ []) client ++ [])
        100
        a_server
      ≡ some (answer, count_request a_server))
    × (call first_byte
          (make_error 0)
          (pos 48)
          (take header_size answer)
          (drop header_size answer)
          buffer
          client
        ≡ (some (ok_result 5), (next_request_id client).1))
unfolding request_bytes create_request init serialize header_bytes to_le meta_bytes
call-handle_message_example =
    Calls.call-handle_message first_byte (make_error 0) pad_bytes pad_bytes calc add (2 ∷ 3 ∷ []) []
      (5 ∷ []) buffer 1000 100 47 sum_handler a_server client 5 refl refl
      (a_request-MessageFits (2 ∷ 3 ∷ []) (omega arith)) (omega arith) found_handler refl
      a_response-MessageFits refl

-- One byte of a header is taken for the whole: the server counts an error and leaves the connection.
short_header_closes :
    handle_connection 5 1000 pad_bytes ((80 ∷ []) ∷ (82 ∷ 1 ∷ 0 ∷ []) ∷ []) [] buffer a_server
    ≡ some ([], count_error a_server)
unfolding handle_connection after_turn turn read_header read_le read_bytes put with_header valid
short_header_closes = refl
