-- ===== src/Net/TcpServer/Tests.antt =====
-- net/tcp_server.hpp: runs of the server at small inputs.
use cpp20_coroutine_io_uring.Common.{
  ◌≡◌, refl, Bool, true, false, List, [], ◌∷◌, none, some, pos, negsuc, arith,
}
use cpp20_coroutine_io_uring.Net.TcpServer.{
  TcpServer, again, admit, accept, stop, stop_listening, new_server, set_connection_handler, start,
  start_on, reads, writes, closes, accepts, finishes, stops, Event, run,
}
use cpp20_coroutine_io_uring.Net.TcpServer.Counting.{IsValid}
use cpp20_coroutine_io_uring.Net.TcpServer.Counting

abbrev listening : Bool → TcpServer
listening has_handler = record {
  max_connections = 2;
  listen_fd = some 3;
  running = true;
  accepting = true;
  has_handler = has_handler;
  connections = 0;
  total_accepted = 0;
  serving = [];
  closed_fds = [];
}

start_listens :
    start (some 3) true true (set_connection_handler (new_server 2)) ≡ (true, listening true)
unfolding start start_on set_connection_handler new_server
start_listens = refl

-- A socket that cannot be bound is closed.
start_unbound : (start (some 3) false true (new_server 2)).1.closed_fds ≡ 3 ∷ []
unfolding start start_on new_server
start_unbound = refl

abbrev some_events : List Event
some_events =
    accepts (some 4)
    ∷ accepts none
    ∷ accepts (some 5)
    ∷ accepts (some 6)
    ∷ finishes 0 (reads (pos 8) ∷ writes (negsuc 3) ∷ closes ∷ [])
    ∷ accepts (some 7)
    ∷ stops
    ∷ []

listening-IsValid : IsValid (listening true)
listening-IsValid = record {
  handled = refl;
  counted = refl;
  limited = omega arith;
  size_fits = omega arith;
}

run-IsValid_example : IsValid (run some_events (listening true))
run-IsValid_example = Counting.run-IsValid some_events (listening true) listening-IsValid

-- A connection that comes while the server is being stopped is still served; a later one is not.
accept_stopped :
    (run (stops ∷ accepts (some 4) ∷ accepts (some 5) ∷ []) (listening true)).serving ≡ 4 ∷ []
unfolding accept again admit stop stop_listening
accept_stopped = refl
