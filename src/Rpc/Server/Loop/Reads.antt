-- ===== src/Rpc/Server/Loop/Reads.antt =====
-- rpc/rpc_server.hpp: what the reads of a connection make of a request.
use cpp20_coroutine_io_uring.Common.{
  ℕ, ◌+◌, ◌-◌, ◌≤◌, ◌≡◌, inl, inr, refl, ap, ◌∙◌, true, false, List, [], ◌∷◌, some, Bytes, length,
  length-append, take, take_all, ltb, le→ltb, lt→ltb, Option-cases, arith,
}
use cpp20_coroutine_io_uring.Rpc.Protocol.{
  RpcMessage, ErrorCode, ProtocolHeader, header_size, header_bytes, sized, serialize, read_header,
  valid, total_size, create_request, create_response, create_error,
}
use cpp20_coroutine_io_uring.Rpc.Protocol.Header.{length-header_bytes}
use cpp20_coroutine_io_uring.Rpc.Protocol.RoundTrip.{MessageFits}
use cpp20_coroutine_io_uring.Rpc.Registry.{find_method}
use cpp20_coroutine_io_uring.Rpc.Frames.{put, grow_to, body_bytes}
use cpp20_coroutine_io_uring.Rpc.Server.{RpcServer, not_found_text, internal_text, handle_request}
use cpp20_coroutine_io_uring.Rpc.Server.Answers.{
  handle_request_runs, handle_request_throws, handle_request_misses,
}
use cpp20_coroutine_io_uring.Rpc.Server.Loop.{
  handle_frame, read_chunk, read_rest, with_header, turn,
}

length-serialize_ge : (pad : Bytes) (m : RpcMessage) → 16 ≤ length (serialize pad m)
unfolding serialize
length-serialize_ge pad m = omega (
  arith,
  length-append (header_bytes (sized m)) (body_bytes pad m),
  length-header_bytes (sized m),
)

-- The answer to a request is never empty.
pub length-handle_request :
    (pad : Bytes) (msg : RpcMessage) (s : RpcServer) → 16 ≤ length (handle_request pad msg s).0
length-handle_request pad msg s =
    elim (Option-cases (find_method msg.service msg.method s.registry)) [
      | inl e ↦ rw (handle_request_misses pad msg s e) (
          length-serialize_ge pad
            (create_error msg.request_id ErrorCode.service_not_found not_found_text))
      | inr (handler, e) ↦ elim (Option-cases (handler msg.payload)) [
        | inl f ↦
            rw (handle_request_throws pad msg handler s e f) (
              length-serialize_ge pad (create_error msg.request_id ErrorCode.unknown internal_text))
        | inr (result, f) ↦
            rw (handle_request_runs pad result msg handler s e f)
              (length-serialize_ge pad (create_response msg.request_id result ErrorCode.ok))
      ]
    ]

-- What a client sends: a request, with what the padding holds.
pub record Call : Type 0 where
  pub pad : Bytes
  pub id : ℕ
  pub service : Bytes
  pub method : Bytes
  pub payload : Bytes
  pub timeout_ms : ℕ
  pub now : ℕ

abbrev pub request_of : Call → RpcMessage
request_of c = create_request c.id c.service c.method c.payload c.timeout_ms c.now

abbrev pub wire : Call → Bytes
wire c = serialize c.pad (request_of c)

-- A request that fits its fields and is not larger than the server allows.
pub record CallFits (max_request_size : ℕ) (c : Call) : Type 0 where
  pub pad_size : 4 ≡ length c.pad
  pub fits : MessageFits (request_of c)
  pub allowed : length (wire c) ≤ max_request_size

-- The message that the server reads: the one that was sent, with the sizes in its header.
abbrev pub received : Call → RpcMessage
received c = record (request_of c) { header = sized (request_of c) }

-- What reads deliver of a request: its header, and the rest.
abbrev pub reads_of : List Call → List Bytes
reads_of [] = []
reads_of (c ∷ calls) =
    header_bytes (sized (request_of c)) ∷ body_bytes c.pad (request_of c) ∷ reads_of calls

pub turn_nonempty :
    (max_request_size : ℕ) (pad chunk buffer rest : Bytes) (incoming : List Bytes) (s : RpcServer)
    (h : ProtocolHeader)
    → 1 ≤ length chunk
    → read_header (put 0 chunk buffer) ≡ some (h, rest)
    → turn max_request_size pad chunk incoming buffer s
      ≡ with_header max_request_size pad h (put 0 chunk buffer) incoming s
unfolding turn
turn_nonempty max_request_size pad [] buffer rest incoming s h l e = absurd (omega arith)
turn_nonempty max_request_size pad (b ∷ chunk) buffer rest incoming s h l e = rw e refl

read_chunk_nonempty :
    (pad chunk buffer : Bytes) (total remaining : ℕ) (incoming : List Bytes) (s : RpcServer)
    → 1 ≤ length chunk
    → read_chunk pad total remaining chunk buffer incoming s
      ≡ handle_frame pad total (put header_size chunk buffer) incoming s
unfolding read_chunk
read_chunk_nonempty pad [] buffer total remaining incoming s l = absurd (omega arith)
read_chunk_nonempty pad (b ∷ chunk) buffer total remaining incoming s l = refl

pub with_header_reads :
    (max_request_size : ℕ) (pad buffer chunk : Bytes) (incoming : List Bytes) (s : RpcServer)
    (h : ProtocolHeader)
    → valid h ≡ true
    → total_size h ≤ max_request_size
    → header_size + length chunk ≡ total_size h
    → 1 ≤ length chunk
    → with_header max_request_size pad h buffer (chunk ∷ incoming) s
      ≡ handle_frame pad
          (total_size h)
          (put header_size chunk (grow_to (total_size h) buffer))
          incoming
          s
unfolding with_header read_rest
with_header_reads max_request_size pad buffer chunk incoming s h v a t l =
    let fits : ltb max_request_size (total_size h) ≡ false =
      le→ltb max_request_size (total_size h) a in
    let left : ltb 0 (total_size h - header_size) ≡ true =
      lt→ltb 0 (total_size h - header_size) (omega (arith, t)) in
    let whole : take (total_size h - header_size) chunk ≡ chunk =
      take_all (total_size h - header_size) chunk (omega (arith, t)) in
    rw (v, fits, left)
      (ap
          (λ taken.
            read_chunk pad (total_size h) (total_size h - header_size) taken
              (grow_to (total_size h) buffer) incoming s)
          whole
        ∙ read_chunk_nonempty pad chunk (grow_to (total_size h) buffer) (total_size h)
            (total_size h - header_size) incoming s l)
