-- ===== src/Net/TcpServer/Counting.antt =====
-- net/tcp_server.hpp: the number of connections.
use cpp20_coroutine_io_uring.Common.{
  ℕ, zero, suc, ◌+◌, ◌^◌, ◌≤◌, ◌<◌, ◌≡◌, ◌⊎◌, inl, inr, refl, ◌∙◌, true, false, List, [], ◌∷◌, ◌++◌,
  Option, none, some, ℤ, is_positive, leb, if◌then◌else◌, length, get_elem?, take, drop,
  length-append, length-take, length-drop, Bool-cases, map, arith,
}
use cpp20_coroutine_io_uring.Net.Connection.{
  Connection, create, close, is_connected, async_read, async_write,
}
use cpp20_coroutine_io_uring.Net.TcpServer.{
  TcpServer, Use, reads, writes, closes, use_connection, serve_connection, again, admit, accept,
  finish, finish_at, stop, stop_listening, Event, accepts, finishes, stops, happens, run,
}

-- A connection that is served: its callback has run exactly if it has been closed.
abbrev Served : Connection → Type 0
Served c =
    (c.has_callback ≡ true)
    × (((is_connected c ≡ true) × (c.callback_runs ≡ 0))
        ⊎ ((is_connected c ≡ false) × (c.callback_runs ≡ 1)))

close_open :
    (c : Connection)
    → is_connected c ≡ true
    → ((close c).has_callback ≡ c.has_callback)
      × (is_connected (close c) ≡ false)
      × ((close c).callback_runs ≡ c.callback_runs + (if c.has_callback then 1 else 0))
unfolding close
close_open c e = (ground arith, ground arith, ground arith)

close_shut : (c : Connection) → is_connected c ≡ false → close c ≡ c
unfolding close
close_shut c e = ground arith

close-Served : (c : Connection) → Served c → Served (close c)
close-Served c (k, inl (o, n)) =
    ((close_open c o).0 ∙ k, inr ((close_open c o).1, ground (arith, (close_open c o).2, k, n)))
close-Served c (k, inr (o, n)) = rw (close_shut c o) (k, inr (o, n))

read-Served : (n : ℤ) (c : Connection) → Served c → Served (async_read n c).1
unfolding async_read
read-Served n c h = elim (Bool-cases (is_connected c)) [
  | inr q ↦ rw q h
  | inl q ↦ elim (Bool-cases (is_positive n)) [
    | inl p ↦ rw (q, p) h
    | inr p ↦ rw (q, p) (close-Served c h)
  ]
]

write-Served : (n : ℤ) (c : Connection) → Served c → Served (async_write n c).1
unfolding async_write
write-Served n c h = elim (Bool-cases (is_connected c)) [
  | inr q ↦ rw q h
  | inl q ↦ elim (Bool-cases (is_positive n)) [
    | inl p ↦ rw (q, p) h
    | inr p ↦ rw (q, p) (close-Served c h)
  ]
]

use-Served : (uses : List Use) (c : Connection) → Served c → Served (use_connection uses c)
use-Served [] c h = h
use-Served (reads n ∷ uses) c h = use-Served uses (async_read n c).1 (read-Served n c h)
use-Served (writes n ∷ uses) c h = use-Served uses (async_write n c).1 (write-Served n c h)
use-Served (closes ∷ uses) c h = use-Served uses (close c) (close-Served c h)

closed_once : (c : Connection) → Served c → (close c).callback_runs ≡ 1
closed_once c (k, inl (o, n)) = ground (arith, (close_open c o).2, k, n)
closed_once c (k, inr (o, n)) = rw (close_shut c o) n

-- Whatever a handler does with its connection, reading, writing and closing it, with whatever
-- results, the close callback has run exactly once when `handle_connection` is done.
pub serve_connection_lem :
    (client_fd : ℕ) (uses : List Use) → (serve_connection client_fd uses).callback_runs ≡ 1
unfolding serve_connection create
serve_connection_lem client_fd uses =
    closed_once (use_connection uses (record (create (some client_fd)) { has_callback = true })) (
      use-Served uses (record (create (some client_fd)) { has_callback = true })
        (refl, inl (refl, refl)))

-- The counter is the number of the connections that are served, and within its limit.
pub record IsValid (t : TcpServer) : Type 0 where
  pub handled : t.has_handler ≡ true
  pub counted : t.connections ≡ length t.serving
  pub limited : t.connections ≤ t.max_connections
  pub size_fits : t.max_connections < 2 ^ 64

again-IsValid : (t : TcpServer) → IsValid t → IsValid (again t)
unfolding again
again-IsValid t v = record {
  handled = v.handled;
  counted = v.counted;
  limited = v.limited;
  size_fits = v.size_fits;
}

admit-IsValid : (fd : ℕ) (t : TcpServer) → IsValid t → IsValid (admit fd t)
unfolding admit
admit-IsValid fd t v = elim (Bool-cases (leb t.max_connections t.connections)) [
  | inl p ↦ rw p (record {
    handled = v.handled;
    counted = v.counted;
    limited = v.limited;
    size_fits = v.size_fits;
  })
  | inr p ↦
      let below : t.connections + 1 ≤ t.max_connections = ground (arith, p) in
      rw (p, v.handled)
        (record {
          handled = refl;
          counted = omega (arith, v.counted, below, v.size_fits, length-append t.serving (fd ∷ []));
          limited = omega (arith, below, v.size_fits);
          size_fits = v.size_fits;
        })
]

accept-IsValid : (fd : Option ℕ) (t : TcpServer) → IsValid t → IsValid (accept fd t)
unfolding accept
accept-IsValid none t v = elim (Bool-cases t.accepting) [
  | inl q ↦ simp q (again-IsValid t v)
  | inr q ↦ simp q v
]
accept-IsValid (some fd) t v = elim (Bool-cases t.accepting) [
  | inl q ↦ simp q (again-IsValid (admit fd t) (admit-IsValid fd t v))
  | inr q ↦ simp q v
]

get_elem?_in : (xs : List ℕ) (i x : ℕ) → get_elem? xs i ≡ some x → i < length xs
get_elem?_in [] i x e = absurd (ground arith)
get_elem?_in (y ∷ xs) zero x e = omega arith
get_elem?_in (y ∷ xs) (suc i) x e = omega (arith, get_elem?_in xs i x e)

finish-IsValid :
    (o : Option ℕ) (i : ℕ) (uses : List Use) (t : TcpServer)
    → get_elem? t.serving i ≡ o
    → IsValid t
    → IsValid (finish_at o i uses t)
unfolding finish_at finish
finish-IsValid none i uses t e v = v
finish-IsValid (some fd) i uses t e v =
    let inside = get_elem?_in t.serving i fd e in
    let once = serve_connection_lem fd uses in
    record {
      handled = v.handled;
      counted = omega (
        arith,
        v.counted,
        v.limited,
        v.size_fits,
        inside,
        once,
        length-append (take i t.serving) (drop (i + 1) t.serving),
        length-take i t.serving,
        length-drop (i + 1) t.serving,
      );
      limited = omega (arith, v.counted, v.limited, v.size_fits, inside, once);
      size_fits = v.size_fits;
    }

stop-IsValid : (t : TcpServer) → IsValid t → IsValid (stop t)
unfolding stop
stop-IsValid t v = elim (Bool-cases t.running) [
  | inr q ↦ simp q v
  | inl q ↦ simp q (by_fd t.listen_fd)
]
  where
    by_fd : (fd : Option ℕ) → IsValid (stop_listening fd t)
    by_fd none =
        unfold stop_listening in
        record {
          handled = v.handled;
          counted = v.counted;
          limited = v.limited;
          size_fits = v.size_fits;
        }
    by_fd (some fd) =
        unfold stop_listening in
        record {
          handled = v.handled;
          counted = v.counted;
          limited = v.limited;
          size_fits = v.size_fits;
        }

happens-IsValid : (event : Event) (t : TcpServer) → IsValid t → IsValid (happens event t)
happens-IsValid (accepts fd) t v = accept-IsValid fd t v
happens-IsValid (finishes i uses) t v = finish-IsValid (get_elem? t.serving i) i uses t refl v
happens-IsValid stops t v = stop-IsValid t v

-- Whatever connections come and end, in whatever order, with a handler set, and the server is stopped
-- or not: the number of connections is that of those that are served, and never above the limit.
pub run-IsValid : (events : List Event) (t : TcpServer) → IsValid t → IsValid (run events t)
run-IsValid [] t v = v
run-IsValid (event ∷ events) t v = run-IsValid events (happens event t) (happens-IsValid event t v)

-- A server without a handler that waits for connections.
abbrev Waits : TcpServer → Type 0
Waits t = (t.has_handler ≡ false) × (t.running ≡ true) × (t.accepting ≡ true)

accept_counts :
    (x : ℕ) (t : TcpServer)
    → Waits t
    → t.max_connections < 2 ^ 64
    → t.connections < t.max_connections
    → Waits (accept (some x) t)
      × ((accept (some x) t).max_connections ≡ t.max_connections)
      × ((accept (some x) t).connections ≡ t.connections + 1)
unfolding accept again admit
accept_counts x t (n, r, a) l b =
    ((ground arith, ground arith, ground arith), ground arith, ground arith)

-- Without a handler the number of connections that were accepted is never taken back: after as many
-- as the limit, any further one is closed, whatever became of the others.
pub accept_no_handler :
    (fds : List ℕ) (fd : ℕ) (t : TcpServer)
    → Waits t
    → t.max_connections < 2 ^ 64
    → t.connections + length fds ≡ t.max_connections
    → accept (some fd) (run (map (λ client_fd. accepts (some client_fd)) fds) t)
      ≡ record (run (map (λ client_fd. accepts (some client_fd)) fds) t) {
        closed_fds =
            (run (map (λ client_fd. accepts (some client_fd)) fds) t).closed_fds ++ fd ∷ [];
      }
unfolding accept again admit
accept_no_handler [] fd t (n, r, a) l e = ground (arith, e)
accept_no_handler (x ∷ fds) fd t w l e =
    let one = accept_counts x t w l (omega (arith, e)) in
    accept_no_handler fds fd (accept (some x) t) one.0 (omega (arith, l, one.1))
      (omega (arith, e, one.1, one.2))
