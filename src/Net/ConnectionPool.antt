-- ===== src/Net/ConnectionPool.antt =====
-- net/connection_pool.hpp: `ConnectionPool`. Connections are shared, so they are numbers of a store;
-- the idle ones are listed from the back of the deque. The counters are `size_t` and wrap. `acquire`
-- is in two steps, as it gives up the mutex before it creates a connection.
pub mod Accounting
use cpp20_coroutine_io_uring.Common.{
  ℕ, ◌+◌, ◌-◌, ◌%◌, ◌^◌, Bool, true, false, ◌&&◌, List, [], ◌∷◌, Option, none, some, length, ltb,
  ◌==◌, if◌then◌else◌,
}
use cpp20_coroutine_io_uring.Net.Connection.{Connection, create, is_connected, close}

pub record ConnectionPool : Type 0 where
  pub max_connections : ℕ
  pub max_idle : ℕ
  pub idle_connections : List ℕ
  pub total_connections : ℕ
  pub active_connections : ℕ
  pub store : ℕ → Connection
  -- The number of the next connection that is created.
  pub next : ℕ

-- `fetch_add(1)` and `fetch_sub(1)`.
abbrev pub add_one : ℕ → ℕ
add_one n = (n + 1) % 2 ^ 64

abbrev pub sub_one : ℕ → ℕ
sub_one n = (n + 2 ^ 64 - 1) % 2 ^ 64

-- What the part of `acquire` under the mutex ends with.
pub data Acquired : Type 0 where
  reused : ℕ → Acquired
  to_create : Acquired
  to_wait : Acquired

-- The loop that takes idle connections from the back until one is connected.
unfoldable pub take_idle : List ℕ → ConnectionPool → Option ℕ × ConnectionPool
take_idle [] p = (none, record p { idle_connections = [] })
take_idle (i ∷ is) p =
    let later = take_idle is (record p { total_connections = sub_one p.total_connections }) in
    if is_connected (p.store i)
    then (
      some i,
      record p { idle_connections = is; active_connections = add_one p.active_connections },
    )
    else later

unfoldable pub acquire_locked : ConnectionPool → Acquired × ConnectionPool
unfolding take_idle
acquire_locked p =
    let (found, p') = take_idle p.idle_connections p in
    elim found [
      | some i ↦ (Acquired.reused i, p')
      | none ↦
          if ltb p'.total_connections p'.max_connections
          then (Acquired.to_create, p')
          else (Acquired.to_wait, p')
    ]

abbrev pub store_at : (ℕ → Connection) → ℕ → Connection → ℕ → Connection
store_at store i c j = if j == i then c else store j

-- The part of `acquire` after the mutex is given up; `fd` is what `socket` returns.
unfoldable pub acquire_create : Option ℕ → ConnectionPool → Option ℕ × ConnectionPool
acquire_create none p = (none, p)
acquire_create (some fd) p = (
  some p.next,
  record p {
    total_connections = add_one p.total_connections;
    active_connections = add_one p.active_connections;
    store = store_at p.store p.next (create (some fd));
    next = p.next + 1;
  },
)

unfoldable pub release : Option ℕ → ConnectionPool → ConnectionPool
release none p = p
release (some i) p =
    if is_connected (p.store i) && ltb (length p.idle_connections) p.max_idle
    then record p {
      active_connections = sub_one p.active_connections;
      idle_connections = i ∷ p.idle_connections;
    }
    else record p {
      active_connections = sub_one p.active_connections;
      total_connections = sub_one p.total_connections;
      store = store_at p.store i (close (p.store i));
    }

unfoldable pub close_all : List ℕ → (ℕ → Connection) → ℕ → Connection
close_all [] store = store
close_all (i ∷ is) store = close_all is (store_at store i (close (store i)))

unfoldable pub shutdown : ConnectionPool → ConnectionPool
shutdown p = record p {
  store = close_all p.idle_connections p.store;
  idle_connections = [];
  total_connections = 0;
  active_connections = 0;
}

-- `~ConnectionGuard` on a pool: what the guard holds is released.
unfoldable pub end_guard : Option ℕ → ConnectionPool → ConnectionPool
unfolding release
end_guard conn p = release conn p
