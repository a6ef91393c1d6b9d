-- ===== src/Rpc/Client/Calls.antt =====
-- rpc/rpc_client.hpp with rpc/rpc_server.hpp: what a call gives.
use cpp20_coroutine_io_uring.Common.{
  ℕ, suc, ◌+◌, ◌-◌, ◌≤◌, ◌≡◌, ◌≢◌, refl, ap, ◌∙◌, true, [], ◌∷◌, ◌++◌, Option, some, pos,
  is_positive, Bytes, length, length-append, take, drop, take_all, ltb, lt→ltb, ==_iff, arith,
}
use cpp20_coroutine_io_uring.Rpc.Protocol.{
  RpcMessage, ErrorCode, ProtocolHeader, blank, create_request, create_response, create_error,
  header_size, header_bytes, meta_bytes, meta_size, sized, serialize, deserialize, read_header,
  valid, total_size, init, is_type, response, error_bits,
}
use cpp20_coroutine_io_uring.Rpc.Protocol.Header.{length-header_bytes}
use cpp20_coroutine_io_uring.Rpc.Protocol.RoundTrip.{
  MessageFits, length-serialize, length-meta_bytes, sized-HeaderFits,
  deserialize-serialize_response, deserialize-serialize_error,
}
use cpp20_coroutine_io_uring.Rpc.Frames.{
  put, grow_to, body_bytes, take_header, drop_header, read_header-put, put-put, left_over,
}
use cpp20_coroutine_io_uring.Rpc.Registry.{find_method}
use cpp20_coroutine_io_uring.Rpc.Server.{Handler, RpcServer, count_request, handle_message}
use cpp20_coroutine_io_uring.Rpc.Server.Answers.{handle_message_answers}
use cpp20_coroutine_io_uring.Rpc.Client.{
  RpcResult, RpcClient, ok_result, next_request_id, request_bytes, take_result, take_response,
  receive_rest, receive_body, receive, call,
}

module _ {T : Type 0} (decode : Bytes → Option T) (error : ℕ → Bytes → RpcResult T) where
  receive_nonempty :
      (buffer header chunk rest : Bytes) (h : ProtocolHeader)
      → 1 ≤ length header
      → read_header (put 0 header buffer) ≡ some (h, rest)
      → receive decode error buffer header chunk
        ≡ receive_body decode error h (put 0 header buffer) chunk
  unfolding receive
  receive_nonempty buffer [] chunk rest h l e = absurd (omega arith)
  receive_nonempty buffer (b ∷ header) chunk rest h l e = rw e refl

  receive_rest_nonempty :
      (total : ℕ) (buffer chunk : Bytes)
      → 1 ≤ length chunk
      → receive_rest decode error total buffer chunk
        ≡ take_response decode error (deserialize (put header_size chunk buffer) total blank)
  unfolding receive_rest
  receive_rest_nonempty total buffer [] l = absurd (omega arith)
  receive_rest_nonempty total buffer (b ∷ chunk) l = refl

  receive_body_reads :
      (h : ProtocolHeader) (buffer chunk : Bytes)
      → valid h ≡ true
      → header_size + length chunk ≡ total_size h
      → 1 ≤ length chunk
      → receive_body decode error h buffer chunk
        ≡ take_response decode error (
            deserialize
              (put header_size chunk (grow_to (total_size h) buffer))
              (total_size h)
              blank)
  unfolding receive_body
  receive_body_reads h buffer chunk v t l =
      let left : ltb 0 (total_size h - header_size) ≡ true =
        lt→ltb 0 (total_size h - header_size) (omega (arith, t)) in
      let whole : take (total_size h - header_size) chunk ≡ chunk =
        take_all (total_size h - header_size) chunk (omega (arith, t)) in
      rw (v, left)
        (ap (receive_rest decode error (total_size h) (grow_to (total_size h) buffer)) whole
          ∙ receive_rest_nonempty (total_size h) (grow_to (total_size h) buffer) chunk l)

  -- A response that is read as it was sent.
  module _ (pad : Bytes) (pad_size : 4 ≡ length pad) (m : RpcMessage) (f : MessageFits m)
      (made : m.header ≡ init response) where
    header_of-valid : valid (sized m) ≡ true
    header_of-valid = unfold valid sized init in rw made refl

    length-body : 1 ≤ length (body_bytes pad m)
    length-body =
        let long : 16 ≤ meta_size m = unfold meta_size is_type init in rw made (omega arith) in
        omega (
          arith,
          long,
          length-append (meta_bytes pad m) m.payload,
          length-meta_bytes pad pad_size m,
        )

    length-parts : header_size + length (body_bytes pad m) ≡ total_size (sized m)
    length-parts =
        let whole : header_size + length (body_bytes pad m) ≡ length (serialize pad m) =
          unfold serialize in
          omega (
            arith,
            length-append (header_bytes (sized m)) (body_bytes pad m),
            length-header_bytes (sized m),
          ) in
        whole ∙ length-serialize pad pad_size m f.meta_fits f.payload_fits

    receive_lem :
        (buffer : Bytes)
        → receive decode error buffer (header_bytes (sized m)) (body_bytes pad m)
          ≡ take_response decode error (
              deserialize
                (serialize pad m ++ left_over pad m (total_size (sized m)) buffer)
                (total_size (sized m))
                blank)
    receive_lem buffer =
        receive_nonempty buffer (header_bytes (sized m)) (body_bytes pad m)
          (drop (length (header_bytes (sized m))) buffer) (sized m)
          (omega (arith, length-header_bytes (sized m)))
          (read_header-put pad m buffer (sized-HeaderFits response m made))
        ∙ receive_body_reads (sized m) (put 0 (header_bytes (sized m)) buffer) (body_bytes pad m)
            header_of-valid length-parts length-body
        ∙ ap (λ b. take_response decode error (deserialize b (total_size (sized m)) blank))
            (put-put pad m (total_size (sized m)) buffer)

    call_receives :
        (buffer : Bytes) (client : RpcClient) (n : ℕ)
        → call decode error
            (pos (suc n))
            (take header_size (serialize pad m))
            (drop header_size (serialize pad m))
            buffer
            client
          ≡ (
            take_response decode error (
                deserialize
                  (serialize pad m ++ left_over pad m (total_size (sized m)) buffer)
                  (total_size (sized m))
                  blank),
            (next_request_id client).1,
          )
    unfolding call
    call_receives buffer client n =
        let sent : is_positive (pos (suc n)) ≡ true = lt→ltb 0 (suc n) (omega arith) in
        rw sent (
          ap (λ r. (r, (next_request_id client).1))
            (ap
                (λ h.
                  receive decode error buffer (take header_size h)
                    (drop header_size (serialize pad m)))
                (take_header pad m)
              ∙ ap (λ h. receive decode error buffer h (drop header_size (serialize pad m)))
                  (take_all header_size (header_bytes (sized m))
                    (omega (arith, length-header_bytes (sized m))))
              ∙ ap (receive decode error buffer (header_bytes (sized m))) (drop_header pad m)
              ∙ receive_lem buffer))

  -- A call whose request is sent and whose answer is read as the server sent it, in two reads, for a
  -- response that fits its fields and bears no error, gives what the payload decodes to. The number
  -- of the request in the response may be any.
  pub call-create_response :
      (pad payload buffer : Bytes) (id n : ℕ) (v : T) (client : RpcClient)
      → 4 ≡ length pad
      → MessageFits (create_response id payload ErrorCode.ok)
      → decode payload ≡ some v
      → call decode error
          (pos (suc n))
          (take header_size (serialize pad (create_response id payload ErrorCode.ok)))
          (drop header_size (serialize pad (create_response id payload ErrorCode.ok)))
          buffer
          client
        ≡ (some (ok_result v), (next_request_id client).1)
  unfolding take_response take_result
  call-create_response pad payload buffer id n v client p f e =
      call_receives pad p m f (unfold create_response in refl) buffer client n
      ∙ ap (λ r. (take_response decode error r, (next_request_id client).1))
          (deserialize-serialize_response pad payload
            (left_over pad m (total_size (sized m)) buffer) id (total_size (sized m)) ErrorCode.ok p
            f (omega (arith, length-serialize pad p m f.meta_fits f.payload_fits)))
      ∙ (unfold create_response in rw e refl)
    where
      m : RpcMessage
      m = create_response id payload ErrorCode.ok

  -- For an error that fits its fields and is not OK, a call gives what the missing `error` makes of
  -- its code and its text.
  pub call-create_error :
      (pad message buffer : Bytes) (id n : ℕ) (code : ErrorCode) (client : RpcClient)
      → 4 ≡ length pad
      → MessageFits (create_error id code message)
      → error_bits code ≢ 0
      → call decode error
          (pos (suc n))
          (take header_size (serialize pad (create_error id code message)))
          (drop header_size (serialize pad (create_error id code message)))
          buffer
          client
        ≡ (some (error (error_bits code) message), (next_request_id client).1)
  unfolding take_response take_result
  call-create_error pad message buffer id n code client p f e =
      call_receives pad p m f (unfold create_error in refl) buffer client n
      ∙ ap (λ r. (take_response decode error r, (next_request_id client).1))
          (deserialize-serialize_error pad message (left_over pad m (total_size (sized m)) buffer)
            id (total_size (sized m)) code p f
            (omega (arith, length-serialize pad p m f.meta_fits f.payload_fits)))
      ∙ (unfold create_error in ground (arith, ==_iff (error_bits code) 0))
    where
      m : RpcMessage
      m = create_error id code message

  -- A call from end to end, whatever the `error` that `RpcResult` lacks would be: what the client
  -- sends, if it fits its fields and reaches the server whole, makes the server run the registered
  -- handler on the request's data, and if the response fits its fields too and is read back in two
  -- reads, the call gives what the handler's result decodes to.
  pub call-handle_message :
      (pad pad' service method data_bytes rest result buffer : Bytes) (now size n : ℕ)
      → (handler : Handler) (s : RpcServer) (client : RpcClient) (v : T) → 4 ≡ length pad
      → 4 ≡ length pad'
      → MessageFits
          (create_request client.request_id service method data_bytes client.timeout_ms now)
      → length (request_bytes pad' now service method data_bytes client) ≤ size
      → find_method service method s.registry ≡ some handler
      → handler data_bytes ≡ some result
      → MessageFits (create_response client.request_id result ErrorCode.ok)
      → decode result ≡ some v
      → (answer : Bytes) × (handle_message pad
            (request_bytes pad' now service method data_bytes client ++ rest)
            size
            s
          ≡ some (answer, count_request s))
        × (call decode error
              (pos (suc n))
              (take header_size answer)
              (drop header_size answer)
              buffer
              client
            ≡ (some (ok_result v), (next_request_id client).1))
  unfolding request_bytes
  call-handle_message pad pad' service method data_bytes rest result buffer now size n handler s
        client v p p' f l found ran g e =
      (
        serialize pad (create_response client.request_id result ErrorCode.ok),
        (handle_message_answers pad pad' service method data_bytes rest [] result client.request_id
            client.timeout_ms now size handler s p p' f l found ran g).0,
        call-create_response pad result buffer client.request_id n v client p g e,
      )
