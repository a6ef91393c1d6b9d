-- ===== src/Rpc/Server/Loop/Fuel.antt =====
-- rpc/rpc_server.hpp: the loop of `handle_connection` is ended by the connection, not by its fuel.
use cpp20_coroutine_io_uring.Common.{ℕ, ◌≤◌, Option, none, some, length}
use cpp20_coroutine_io_uring.Rpc.Server.Loop.{Turn, closes, answers}

-- A turn that goes on leaves at most `n` reads of the connection.
abbrev Leaves : ℕ → Option Turn → Type 0
Leaves n none = Unit {0}
Leaves n (some (closes s)) = Unit {0}
Leaves n (some (answers response incoming buffer s)) = length incoming ≤ n
