-- ===== src/Net/TcpServer.antt =====
-- net/tcp_server.hpp: `TcpServer`. The results of the system calls are arguments, a descriptor being
-- `some` number and `none` a negative one. `accepting` is true while the loop that accepts waits for
-- `async_accept`. The connections that are being served are listed by their
-- descriptors; the options of the socket and the counters of bytes, which nothing sets, are left out.
pub mod Counting
mod Tests
use cpp20_coroutine_io_uring.Common.{
  ℕ, zero, suc, ◌+◌, ◌-◌, ◌%◌, ◌^◌, Bool, true, false, not, List, [], ◌∷◌, ◌++◌, Option, none, some,
  ℤ, leb, if◌then◌else◌, get_elem?, take, drop,
}
use cpp20_coroutine_io_uring.Net.Connection.{Connection, create, close, async_read, async_write}

pub record TcpServer : Type 0 where
  pub max_connections : ℕ
  pub listen_fd : Option ℕ
  pub running : Bool
  pub accepting : Bool
  pub has_handler : Bool
  pub connections : ℕ
  pub total_accepted : ℕ
  pub serving : List ℕ
  pub closed_fds : List ℕ

unfoldable pub new_server : ℕ → TcpServer
new_server max_connections = record {
  max_connections = max_connections;
  listen_fd = none;
  running = false;
  accepting = false;
  has_handler = false;
  connections = 0;
  total_accepted = 0;
  serving = [];
  closed_fds = [];
}

unfoldable pub set_connection_handler : TcpServer → TcpServer
set_connection_handler t = record t { has_handler = true }

abbrev pub close_fd : ℕ → TcpServer → TcpServer
close_fd fd t = record t { listen_fd = none; closed_fds = t.closed_fds ++ fd ∷ [] }

-- What follows once there is a socket: `bound` and `listens` are the results of `bind` and `listen`.
unfoldable pub start_on : ℕ → Bool → Bool → TcpServer → Bool × TcpServer
start_on fd bound listens t =
    if not bound
    then (false, close_fd fd t)
    else if not listens
    then (false, close_fd fd t)
    else (true, record t { listen_fd = some fd; running = true; accepting = true })

unfoldable pub start : Option ℕ → Bool → Bool → TcpServer → Bool × TcpServer
start none bound listens t = if t.running then (true, t) else (false, record t { listen_fd = none })
start (some fd) bound listens t = if t.running then (true, t) else start_on fd bound listens t

unfoldable pub stop_listening : Option ℕ → TcpServer → TcpServer
stop_listening none t = record t { running = false }
stop_listening (some fd) t = close_fd fd (record t { running = false })

unfoldable pub stop : TcpServer → TcpServer
stop t = if t.running then stop_listening t.listen_fd t else t

-- The test of the loop that accepts: it waits again only while the server runs.
unfoldable pub again : TcpServer → TcpServer
again t = record t { accepting = t.running }

-- What the loop does with a descriptor. Without a handler the connection is destroyed at once, which
-- closes it without a callback.
unfoldable pub admit : ℕ → TcpServer → TcpServer
admit client_fd t =
    if leb t.max_connections t.connections
    then record t { closed_fds = t.closed_fds ++ client_fd ∷ [] }
    else record t {
      connections = (t.connections + 1) % 2 ^ 64;
      total_accepted = (t.total_accepted + 1) % 2 ^ 64;
      serving = if t.has_handler then t.serving ++ client_fd ∷ [] else t.serving;
      closed_fds = if t.has_handler then t.closed_fds else t.closed_fds ++ client_fd ∷ [];
    }

-- A turn of the loop from where it waits, with what `async_accept` gives, also when the server has
-- been stopped in between.
unfoldable pub accept : Option ℕ → TcpServer → TcpServer
accept none t = if t.accepting then again t else t
accept (some client_fd) t = if t.accepting then again (admit client_fd t) else t

-- What a handler may do with its connection, with the kernel's results.
pub data Use : Type 0 where
  reads writes : (n : ℤ) → Use
  closes : Use

abbrev pub use_connection : List Use → Connection → Connection
use_connection [] c = c
use_connection (reads n ∷ uses) c = use_connection uses (async_read n c).1
use_connection (writes n ∷ uses) c = use_connection uses (async_write n c).1
use_connection (closes ∷ uses) c = use_connection uses (close c)

-- `handle_connection`: the callback is set, the handler runs, whether or not it ends with an
-- exception, and the connection is closed.
unfoldable pub serve_connection : ℕ → List Use → Connection
serve_connection client_fd uses =
    close (use_connection uses (record (create (some client_fd)) { has_callback = true }))

-- Each run of the close callback takes one off the counter.
unfoldable pub finish : ℕ → ℕ → List Use → TcpServer → TcpServer
finish i client_fd uses t = record t {
  connections = (t.connections + 2 ^ 64 - (serve_connection client_fd uses).callback_runs) % 2 ^ 64;
  closed_fds = t.closed_fds ++ (serve_connection client_fd uses).closed_fds;
  serving = take i t.serving ++ drop (i + 1) t.serving;
}

-- The `i`-th of the connections that are served comes to its end.
unfoldable pub finish_at : Option ℕ → ℕ → List Use → TcpServer → TcpServer
finish_at none i uses t = t
finish_at (some client_fd) i uses t = finish i client_fd uses t

-- What happens to a server that was started.
pub data Event : Type 0 where
  accepts : (client_fd : Option ℕ) → Event
  finishes : (i : ℕ) (uses : List Use) → Event
  stops : Event

abbrev pub happens : Event → TcpServer → TcpServer
happens (accepts client_fd) t = accept client_fd t
happens (finishes i uses) t = finish_at (get_elem? t.serving i) i uses t
happens stops t = stop t

abbrev pub run : List Event → TcpServer → TcpServer
run [] t = t
run (event ∷ events) t = run events (happens event t)
