-- ===== src/Rpc/Server/Loop/Pipeline.antt =====
-- rpc/rpc_server.hpp: `RpcServer::handle_connection` on the requests of a client.
use cpp20_coroutine_io_uring.Common.{
  ℕ, zero, suc, ◌+◌, ◌≤◌, ◌≡◌, refl, ap, ◌∙◌, true, List, [], ◌∷◌, ◌++◌, Option, some, ℤ,
  is_positive, to_size, take, Bytes, length, length-append, drop, take_all, All, arith,
}
use cpp20_coroutine_io_uring.Rpc.Protocol.{
  ProtocolHeader, header_size, header_bytes, meta_bytes, meta_size, sized, serialize, valid,
  total_size, create_request, init, is_type, request,
}
use cpp20_coroutine_io_uring.Rpc.Protocol.Header.{length-header_bytes}
use cpp20_coroutine_io_uring.Rpc.Protocol.RoundTrip.{
  length-serialize, length-meta_bytes, sized-HeaderFits,
}
use cpp20_coroutine_io_uring.Rpc.Frames.{put, body_bytes, read_header-put, put-put, left_over}
use cpp20_coroutine_io_uring.Rpc.Server.{RpcServer, count_request, handle_request}
use cpp20_coroutine_io_uring.Rpc.Server.Answers.{request_dispatched}
use cpp20_coroutine_io_uring.Rpc.Server.Loop.{
  answers, handle_frame, turn, after_turn, after_answer, handle_connection,
}
use cpp20_coroutine_io_uring.Rpc.Server.Loop.Reads.{
  length-handle_request, Call, request_of, wire, CallFits, received, reads_of, turn_nonempty,
  with_header_reads,
}

module _ (pad : Bytes) (max_request_size : ℕ) (c : Call) (f : CallFits max_request_size c) where
  abbrev header_of : ProtocolHeader
  header_of = sized (request_of c)

  header_of-valid : valid header_of ≡ true
  header_of-valid = unfold valid sized create_request init in refl

  length-wire : length (wire c) ≡ total_size header_of
  length-wire =
      length-serialize c.pad f.pad_size (request_of c) f.fits.meta_fits f.fits.payload_fits

  length-parts : header_size + length (body_bytes c.pad (request_of c)) ≡ length (wire c)
  unfolding serialize
  length-parts = omega (
    arith,
    length-append (header_bytes header_of) (body_bytes c.pad (request_of c)),
    length-header_bytes header_of,
  )

  length-body : 1 ≤ length (body_bytes c.pad (request_of c))
  length-body =
      let long : 32 ≤ meta_size (request_of c) =
        unfold meta_size is_type create_request init in omega arith in
      omega (
        arith,
        long,
        length-append (meta_bytes c.pad (request_of c)) (request_of c).payload,
        length-meta_bytes c.pad f.pad_size (request_of c),
      )

  -- The buffer after a request was read into it.
  abbrev next_buffer : Bytes → Bytes
  next_buffer buffer = wire c ++ left_over c.pad (request_of c) (total_size header_of) buffer

  frame_answered :
      (buffer : Bytes) (incoming : List Bytes) (s : RpcServer)
      → handle_frame pad (total_size header_of) (next_buffer buffer) incoming s
        ≡ some (
            answers
              (handle_request pad (received c) (count_request s)).0
              incoming
              (next_buffer buffer)
              (handle_request pad (received c) (count_request s)).1)
  unfolding handle_frame
  frame_answered buffer incoming s =
      rw
        (request_dispatched pad c.pad c.service c.method c.payload
          (left_over c.pad (request_of c) (total_size header_of) buffer) c.id c.timeout_ms c.now
          (total_size header_of) s f.pad_size f.fits (omega (arith, length-wire)))
        refl

  turn_answered :
      (buffer : Bytes) (incoming : List Bytes) (s : RpcServer)
      → turn max_request_size pad
          (header_bytes header_of)
          (body_bytes c.pad (request_of c) ∷ incoming)
          buffer
          s
        ≡ some (
            answers
              (handle_request pad (received c) (count_request s)).0
              incoming
              (next_buffer buffer)
              (handle_request pad (received c) (count_request s)).1)
  turn_answered buffer incoming s =
      turn_nonempty max_request_size pad (header_bytes header_of) buffer
        (drop (length (header_bytes header_of)) buffer) (body_bytes c.pad (request_of c) ∷ incoming)
        s header_of (omega (arith, length-header_bytes header_of))
        (read_header-put c.pad (request_of c) buffer
          (sized-HeaderFits request (request_of c) (unfold create_request init in refl)))
      ∙ with_header_reads max_request_size pad (put 0 (header_bytes header_of) buffer)
          (body_bytes c.pad (request_of c)) incoming s header_of header_of-valid
          (omega (arith, length-wire, f.allowed)) (length-parts ∙ length-wire) length-body
      ∙ ap (λ b. handle_frame pad (total_size header_of) b incoming s)
          (put-put c.pad (request_of c) (total_size header_of) buffer)
      ∙ frame_answered buffer incoming s

-- The answers to the requests, one after the other, and the server after them.
abbrev pub serve : Bytes → List Call → RpcServer → List Bytes × RpcServer
serve pad [] s = ([], s)
serve pad (c ∷ calls) s =
    let later = serve pad calls (handle_request pad (received c) (count_request s)).1 in
    ((handle_request pad (received c) (count_request s)).0 ∷ later.0, later.1)

-- What the writes take of the answers, one write for each.
abbrev pub written : List ℤ → List Bytes → List Bytes
written writes [] = []
written [] (response ∷ responses) = []
written (w ∷ writes) (response ∷ responses) = take (to_size w) response ∷ written writes responses

after_turn_writes :
    (go_on : List Bytes → List ℤ → Bytes → RpcServer → Option (List Bytes × RpcServer))
    → (w : ℤ) (writes : List ℤ) (response : Bytes) (incoming : List Bytes) (buffer : Bytes)
      (s : RpcServer)
    → 16 ≤ length response
    → is_positive w ≡ true
    → after_turn go_on (w ∷ writes) (some (answers response incoming buffer s))
      ≡ after_answer (take (to_size w) response) (go_on incoming writes buffer s)
unfolding after_turn
after_turn_writes go_on w writes [] incoming buffer s l p = absurd (omega arith)
after_turn_writes go_on w writes (b ∷ response) incoming buffer s l p = rw p refl

-- The requests of a client that all fit their fields and the server's limit, read one after the
-- other, a header and then the rest, are each handled in their order, if no write fails; whatever
-- the buffer held, and with a turn of the loop for each request. Of each answer, which is what its
-- handler makes of the request, the client gets the bytes that the one write takes, all of it or
-- only the front.
pub handle_connection-serve :
    (fuel max_request_size : ℕ) (pad : Bytes) (calls : List Call) (writes : List ℤ) (buffer : Bytes)
    → (s : RpcServer) → All (CallFits max_request_size) calls
    → All (λ w. is_positive w ≡ true) writes
    → length calls ≤ length writes
    → length calls ≤ fuel
    → handle_connection fuel max_request_size pad (reads_of calls) writes buffer s
      ≡ some (written writes (serve pad calls s).0, (serve pad calls s).1)
unfolding handle_connection
handle_connection-serve zero max_request_size pad [] writes buffer s f w l n = refl
handle_connection-serve zero max_request_size pad (c ∷ calls) writes buffer s f w l n =
    absurd (omega arith)
handle_connection-serve (suc fuel) max_request_size pad [] writes buffer s f w l n = refl
handle_connection-serve (suc fuel) max_request_size pad (c ∷ calls) [] buffer s f w l n =
    absurd (omega arith)
handle_connection-serve (suc fuel) max_request_size pad (c ∷ calls) (z ∷ writes) buffer s f w l n =
    ap
      (λ header. after_turn (handle_connection fuel max_request_size pad) (z ∷ writes) (
        turn max_request_size pad header (body_bytes c.pad (request_of c) ∷ reads_of calls) buffer
          s))
      (take_all header_size (header_bytes (sized (request_of c)))
        (omega (arith, length-header_bytes (sized (request_of c)))))
    ∙ ap (after_turn (handle_connection fuel max_request_size pad) (z ∷ writes))
        (turn_answered pad max_request_size c f.0 buffer (reads_of calls) s)
    ∙ after_turn_writes (handle_connection fuel max_request_size pad) z writes
        (handle_request pad (received c) (count_request s)).0 (reads_of calls)
        (next_buffer pad max_request_size c f.0 buffer)
        (handle_request pad (received c) (count_request s)).1
        (length-handle_request pad (received c) (count_request s)) w.0
    ∙ ap (after_answer (take (to_size z) (handle_request pad (received c) (count_request s)).0)) (
        handle_connection-serve fuel max_request_size pad calls writes
          (next_buffer pad max_request_size c f.0 buffer)
          (handle_request pad (received c) (count_request s)).1 f.1 w.1 (omega arith) (omega arith))
