-- ===== src/Rpc/Server/Loop.antt =====
-- rpc/rpc_server.hpp: `RpcServer::handle_connection`. `incoming` holds what the reads of the
-- connection deliver, one list of bytes for each, of which no read takes more than it asks for; an
-- empty one, or none, is the end of the connection or an error. `writes` holds what the writes
-- return.
pub mod Fuel
pub mod Reads
pub mod Pipeline
use cpp20_coroutine_io_uring.Common.{
  ℕ, zero, suc, ◌+◌, ◌-◌, Bool, true, false, not, List, [], ◌∷◌, Option, none, some, ℤ, is_positive,
  to_size, Bytes, take, ltb, ◌==◌, if◌then◌else◌, ◌>>=◌, replicate,
}
use cpp20_coroutine_io_uring.Rpc.Protocol.{
  ProtocolHeader, header_size, read_header, valid, total_size,
}
use cpp20_coroutine_io_uring.Rpc.Frames.{put, grow_to}
use cpp20_coroutine_io_uring.Rpc.Server.{RpcServer, count_error, handle_message}

-- How a turn of the loop goes: the loop ends, or there is an answer, which may be empty.
pub data Turn : Type 0 where
  closes : (s : RpcServer) → Turn
  answers : (response : Bytes) (incoming : List Bytes) (buffer : Bytes) (s : RpcServer) → Turn

-- `std::vector<uint8_t> buffer; buffer.resize(4096);`
abbrev pub new_buffer : Bytes
new_buffer = replicate 4096 0

unfoldable pub handle_frame : Bytes → ℕ → Bytes → List Bytes → RpcServer → Option Turn
handle_frame pad total buffer incoming s = do
  (response, s') ← handle_message pad buffer total s
  some (answers response incoming buffer s')

-- What the read of the rest of a message, `remaining` bytes, comes to.
unfoldable pub read_chunk : Bytes → ℕ → ℕ → Bytes → Bytes → List Bytes → RpcServer → Option Turn
read_chunk pad total remaining [] buffer incoming s = some (closes s)
read_chunk pad total remaining (b ∷ chunk) buffer incoming s =
    handle_frame pad total (put header_size (b ∷ chunk) buffer) incoming s

unfoldable pub read_rest : Bytes → ℕ → ℕ → Bytes → List Bytes → RpcServer → Option Turn
read_rest pad total remaining buffer [] s =
    if ltb 0 remaining then some (closes s) else handle_frame pad total buffer [] s
read_rest pad total remaining buffer (chunk ∷ incoming) s =
    if ltb 0 remaining
    then read_chunk pad total remaining (take remaining chunk) buffer incoming s
    else handle_frame pad total buffer (chunk ∷ incoming) s

unfoldable pub with_header :
    ℕ → Bytes → ProtocolHeader → Bytes → List Bytes → RpcServer → Option Turn
with_header max_request_size pad h buffer incoming s =
    if not (valid h)
    then some (closes (count_error s))
    else if ltb max_request_size (total_size h)
    then some (closes (count_error s))
    else read_rest pad (total_size h) (total_size h - header_size) (grow_to (total_size h) buffer)
        incoming s

-- The read of the header, of which fewer bytes than it has may come.
unfoldable pub turn : ℕ → Bytes → Bytes → List Bytes → Bytes → RpcServer → Option Turn
turn max_request_size pad [] incoming buffer s = some (closes s)
turn max_request_size pad (b ∷ chunk) incoming buffer s = do
  (h, rest) ← read_header (put 0 (b ∷ chunk) buffer)
  with_header max_request_size pad h (put 0 (b ∷ chunk) buffer) incoming s

-- What is put before that which the turns that follow have written.
abbrev pub after_answer : Bytes → Option (List Bytes × RpcServer) → Option (List Bytes × RpcServer)
after_answer response none = none
after_answer response (some (responses, s)) = some (response ∷ responses, s)

-- What a turn makes of the connection; `go_on` is the loop from there on.
unfoldable pub after_turn :
    (List Bytes → List ℤ → Bytes → RpcServer → Option (List Bytes × RpcServer))
    → List ℤ
    → Option Turn
    → Option (List Bytes × RpcServer)
after_turn go_on writes none = none
after_turn go_on writes (some (closes s)) = some ([], s)
after_turn go_on writes (some (answers [] incoming buffer s)) = go_on incoming writes buffer s
after_turn go_on [] (some (answers (b ∷ response) incoming buffer s)) = some ([], s)
after_turn go_on (w ∷ writes) (some (answers (b ∷ response) incoming buffer s)) =
    let later = go_on incoming writes buffer s in
    if is_positive w then after_answer (take (to_size w) (b ∷ response)) later else some ([], s)

-- The loop, on fuel, with what each of its writes has written: of an answer, as many bytes
-- as the one write took, and the rest never. `none` is a read past the memory.
unfoldable pub handle_connection :
    ℕ → ℕ → Bytes → List Bytes → List ℤ → Bytes → RpcServer → Option (List Bytes × RpcServer)
handle_connection zero max_request_size pad incoming writes buffer s = some ([], s)
handle_connection (suc fuel) max_request_size pad [] writes buffer s = some ([], s)
handle_connection (suc fuel) max_request_size pad (chunk ∷ incoming) writes buffer s =
    after_turn (handle_connection fuel max_request_size pad) writes
      (turn max_request_size pad (take header_size chunk) incoming buffer s)
