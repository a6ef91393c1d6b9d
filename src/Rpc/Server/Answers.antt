-- ===== src/Rpc/Server/Answers.antt =====
-- rpc/rpc_server.hpp, with rpc/protocol.hpp and rpc/service_registry.hpp: what the server answers to
-- what a client sends.
use cpp20_coroutine_io_uring.Common.{
  ℕ, ◌≤◌, ◌<◌, ◌≡◌, refl, ap, ◌∙◌, true, [], ◌++◌, none, some, Bytes, arith, length,
}
use cpp20_coroutine_io_uring.Rpc.Protocol.{
  RpcMessage, MessageType, ErrorCode, init, blank, create_request, create_response, create_error,
  is_type, sized, serialize, deserialize, header_magic, type_code,
}
use cpp20_coroutine_io_uring.Rpc.Protocol.Header.{HeaderFits}
use cpp20_coroutine_io_uring.Rpc.Protocol.RoundTrip.{
  MessageFits, deserialize-serialize_request, deserialize-serialize_response,
  deserialize-serialize_error,
}
use cpp20_coroutine_io_uring.Rpc.Protocol.Safety.{
  deserialize_truncated, deserialize-serialize_heartbeat,
}
use cpp20_coroutine_io_uring.Rpc.Registry.{find_method}
use cpp20_coroutine_io_uring.Rpc.Server.{
  Handler, RpcServer, not_found_text, internal_text, count_request, count_error, call_handler,
  handle_request, dispatch, handle_message,
}

-- Reading a request as it was sent dispatches it to `handle_request`.
pub request_dispatched :
    (pad pad' service method payload rest : Bytes) (id timeout_ms now size : ℕ) (s : RpcServer)
    → 4 ≡ length pad'
    → MessageFits (create_request id service method payload timeout_ms now)
    → length (serialize pad' (create_request id service method payload timeout_ms now)) ≤ size
    → handle_message pad
        (serialize pad' (create_request id service method payload timeout_ms now) ++ rest)
        size
        s
      ≡ some (
          handle_request pad
            (record (create_request id service method payload timeout_ms now) {
              header = sized (create_request id service method payload timeout_ms now);
            })
            (count_request s))
unfolding handle_message dispatch
request_dispatched pad pad' service method payload rest id timeout_ms now size s p f fits =
    rw
      (deserialize-serialize_request pad' service method payload rest id timeout_ms now size p f
        fits)
      (unfold is_type sized create_request init in refl)

-- The three ways in which a request is handled.
pub handle_request_runs :
    (pad result : Bytes) (msg : RpcMessage) (handler : Handler) (s : RpcServer)
    → find_method msg.service msg.method s.registry ≡ some handler
    → handler msg.payload ≡ some result
    → handle_request pad msg s
      ≡ (serialize pad (create_response msg.request_id result ErrorCode.ok), s)
unfolding handle_request call_handler
handle_request_runs pad result msg handler s found ran =
    rw (found, handle_request, ran, call_handler) refl

pub handle_request_throws :
    (pad : Bytes) (msg : RpcMessage) (handler : Handler) (s : RpcServer)
    → find_method msg.service msg.method s.registry ≡ some handler
    → handler msg.payload ≡ none
    → handle_request pad msg s
      ≡ (serialize pad (create_error msg.request_id ErrorCode.unknown internal_text), count_error s)
unfolding handle_request call_handler
handle_request_throws pad msg handler s found threw =
    rw (found, handle_request, threw, call_handler) refl

pub handle_request_misses :
    (pad : Bytes) (msg : RpcMessage) (s : RpcServer)
    → find_method msg.service msg.method s.registry ≡ none
    → handle_request pad msg s
      ≡ (serialize pad (create_error msg.request_id ErrorCode.service_not_found not_found_text), s)
unfolding handle_request
handle_request_misses pad msg s missing = rw (missing, handle_request) refl

-- A request that fits its size fields and arrives whole, for a registered method whose handler
-- returns a result of which the response fits its size fields too, is answered by that response,
-- counts as a request, and the client reads the response back with the request's identifier, the
-- handler's result and no error.
pub handle_message_answers :
    (pad pad' service method payload rest rest' result : Bytes) (id timeout_ms now size : ℕ)
    (handler : Handler) (s : RpcServer)
    → 4 ≡ length pad
    → 4 ≡ length pad'
    → MessageFits (create_request id service method payload timeout_ms now)
    → length (serialize pad' (create_request id service method payload timeout_ms now)) ≤ size
    → find_method service method s.registry ≡ some handler
    → handler payload ≡ some result
    → MessageFits (create_response id result ErrorCode.ok)
    → (handle_message pad
          (serialize pad' (create_request id service method payload timeout_ms now) ++ rest)
          size
          s
        ≡ some (serialize pad (create_response id result ErrorCode.ok), count_request s))
      × (deserialize
            (serialize pad (create_response id result ErrorCode.ok) ++ rest')
            (length (serialize pad (create_response id result ErrorCode.ok)))
            blank
          ≡ some (
            true,
            record (create_response id result ErrorCode.ok) {
              header = sized (create_response id result ErrorCode.ok);
            },
          ))
handle_message_answers pad pad' service method payload rest rest' result id timeout_ms now size
      handler s p p' f fits found ran g =
    (
      request_dispatched pad pad' service method payload rest id timeout_ms now size s p' f fits
          ∙ ap some (
              unfold create_request in
              (handle_request_runs pad result _ handler (count_request s) found ran)),
      deserialize-serialize_response pad result rest' id _ ErrorCode.ok p g (omega arith),
    )

-- A request that fits its size fields and arrives whole, for a method that is not registered or whose
-- handler is empty, is answered by an error that the client reads back with the request's identifier,
-- the code for an unknown service and the text; it counts as a request and not as an error.
pub handle_message_unknown :
    (pad pad' service method payload rest rest' : Bytes) (id timeout_ms now size : ℕ)
    (s : RpcServer)
    → 4 ≡ length pad
    → 4 ≡ length pad'
    → MessageFits (create_request id service method payload timeout_ms now)
    → length (serialize pad' (create_request id service method payload timeout_ms now)) ≤ size
    → find_method service method s.registry ≡ none
    → MessageFits (create_error id ErrorCode.service_not_found not_found_text)
    → (handle_message pad
          (serialize pad' (create_request id service method payload timeout_ms now) ++ rest)
          size
          s
        ≡ some (
          serialize pad (create_error id ErrorCode.service_not_found not_found_text),
          count_request s,
        ))
      × (deserialize
            (serialize pad (create_error id ErrorCode.service_not_found not_found_text) ++ rest')
            (length (serialize pad (create_error id ErrorCode.service_not_found not_found_text)))
            blank
          ≡ some (
            true,
            record (create_error id ErrorCode.service_not_found not_found_text) {
              header = sized (create_error id ErrorCode.service_not_found not_found_text);
            },
          ))
handle_message_unknown pad pad' service method payload rest rest' id timeout_ms now size s p p' f
      fits missing g =
    (
      request_dispatched pad pad' service method payload rest id timeout_ms now size s p' f fits
          ∙ ap some
              (unfold create_request in (handle_request_misses pad _ (count_request s) missing)),
      deserialize-serialize_error pad not_found_text rest' id _ ErrorCode.service_not_found p g
          (omega arith),
    )

-- A request that fits its size fields and arrives whole, and whose handler throws, is answered by an
-- error with the request's identifier and the code for an unknown failure, and counts as a request
-- and as an error.
pub handle_message_throws :
    (pad pad' service method payload rest : Bytes) (id timeout_ms now size : ℕ) (handler : Handler)
    (s : RpcServer)
    → 4 ≡ length pad'
    → MessageFits (create_request id service method payload timeout_ms now)
    → length (serialize pad' (create_request id service method payload timeout_ms now)) ≤ size
    → find_method service method s.registry ≡ some handler
    → handler payload ≡ none
    → handle_message pad
        (serialize pad' (create_request id service method payload timeout_ms now) ++ rest)
        size
        s
      ≡ some (
        serialize pad (create_error id ErrorCode.unknown internal_text),
        count_error (count_request s),
      )
handle_message_throws pad pad' service method payload rest id timeout_ms now size handler s p' f
      fits found threw =
    request_dispatched pad pad' service method payload rest id timeout_ms now size s p' f fits
    ∙ ap some (
        unfold create_request in
        (handle_request_throws pad _ handler (count_request s) found threw))

-- A message that fits its size fields and is cut short is answered by nothing, counts as an error
-- and not as a request, and is not read past its end.
pub handle_message_truncated :
    (pad pad' rest : Bytes) (m : RpcMessage) (size : ℕ) (s : RpcServer)
    → 4 ≡ length pad'
    → MessageFits m
    → HeaderFits (sized m)
    → size < length (serialize pad' m)
    → handle_message pad (serialize pad' m ++ rest) size s ≡ some ([], count_error s)
unfolding handle_message
handle_message_truncated pad pad' rest m size s p f hf short =
    let (r, e) = deserialize_truncated pad' rest m blank size p f hf short in rw e refl

-- A heartbeat that fits its size fields and arrives whole is answered by a response, but with the
-- identifier 0 whatever identifier was sent, since `deserialize` does not read the identifier of a
-- heartbeat.
pub handle_message_heartbeat :
    (pad pad' rest : Bytes) (m : RpcMessage) (size : ℕ) (s : RpcServer)
    → 4 ≡ length pad'
    → MessageFits m
    → HeaderFits (sized m)
    → m.header.magic ≡ header_magic
    → m.header.msg_type ≡ type_code MessageType.heartbeat
    → length (serialize pad' m) ≤ size
    → handle_message pad (serialize pad' m ++ rest) size s
      ≡ some (serialize pad (create_response 0 [] ErrorCode.ok), count_request s)
unfolding handle_message dispatch
handle_message_heartbeat pad pad' rest m size s p f hf magic kind fits =
    let (r, back, e, id, split, len, head) =
      deserialize-serialize_heartbeat pad' rest m size p f hf magic kind fits in
    let type_kept : r.header.msg_type ≡ 2 = ap (λ h. h.msg_type) head ∙ unfold sized in kind in
    rw e (unfold is_type in (rw (type_kept, id) refl))
