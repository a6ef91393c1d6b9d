-- ===== src/Net/Tests.antt =====
-- Runs of the code of net/ on small inputs.
use cpp20_coroutine_io_uring.Common.{
  ℕ, zero, suc, ◌*◌, ◌^◌, ◌<◌, ◌≤◌, ◌≡◌, ◌≢◌, ◌⊎◌, refl, false, [], ◌∷◌, ◌++◌, none, some, arith,
  Bytes, length, replicate, length-replicate, take, ℤ, pos, to_size,
}
use cpp20_coroutine_io_uring.Net.Buffer.{Buffer, capacity, write, readable}
use cpp20_coroutine_io_uring.Net.Buffer.Content.{content, IsValid}
use cpp20_coroutine_io_uring.Net.Buffer.Write.{write-content}
use cpp20_coroutine_io_uring.Net.Chain.{BufferChain, chain_content}
use cpp20_coroutine_io_uring.Net.Connection.{
  ConnectionState, Connection, is_connected, async_write_all,
}
use cpp20_coroutine_io_uring.Net.Connection.Transfer.{async_write_all_lem}
use cpp20_coroutine_io_uring.Net.ConnectionPool
use cpp20_coroutine_io_uring.Net.ConnectionPool.{
  ConnectionPool, Acquired, acquire_locked, acquire_create, release, shutdown,
}
use cpp20_coroutine_io_uring.Net.ConnectionPool.Accounting
use cpp20_coroutine_io_uring.Net.ConnectionPool.Accounting.{
  acquire_locked-IsValid, acquire_create-IsValid, release-IsValid, acquire_locked-release,
  acquire_locked-connected, acquire_race, create_times, release-shutdown,
}

-- A block of zeros.
abbrev alloc : ℕ → Bytes
alloc n = replicate n 0

alloc_size : (n : ℕ) → length (alloc n) ≡ n
alloc_size n = length-replicate n 0

-- Five bytes, of which the second and third are to be read.
abbrev two_held : Buffer
two_held = record { block = some (1 ∷ 2 ∷ 3 ∷ 4 ∷ 5 ∷ []); read_pos = 1; write_pos = 3 }

two_held-IsValid : IsValid two_held
unfolding capacity
two_held-IsValid = record { ordered = omega arith; within = omega arith; fits = omega arith }

has_block : two_held.block ≢ none
has_block e = absurd (ground arith)

small : capacity two_held * 2 < 2 ^ 64
unfolding capacity
small = omega arith

write-content_example :
    (b' : Buffer) × (write alloc two_held (6 ∷ 7 ∷ 8 ∷ []) ≡ some b')
    × (content b' ≡ content two_held ++ 6 ∷ 7 ∷ 8 ∷ [])
    × IsValid b'
    × (b'.block ≢ none)
write-content_example =
    write-content alloc alloc_size two_held (6 ∷ 7 ∷ 8 ∷ []) two_held-IsValid small (omega arith)

one_readable : 1 ≤ readable two_held
unfolding readable
one_readable = omega arith

abbrev a_chain : BufferChain
a_chain = two_held ∷ two_held ∷ []

chain_size : length (chain_content a_chain) < 2 ^ 64
unfolding chain_content content
chain_size = omega arith

abbrev a_connection : Connection
a_connection = record {
  fd = some 3;
  state = ConnectionState.connected;
  has_callback = false;
  closed_fds = [];
  callback_runs = 0;
}

-- A kernel that takes two bytes at a time, if it is offered two.
abbrev two_at_once : ℕ → ℕ → ℤ
two_at_once written zero = pos 0
two_at_once written (suc zero) = pos 1
two_at_once written (suc (suc room)) = pos 2

two_at_once_le : (written room : ℕ) → to_size (two_at_once written room) ≤ room
two_at_once_le written zero = omega arith
two_at_once_le written (suc zero) = omega arith
two_at_once_le written (suc (suc room)) = omega arith

async_write_all_lem_example :
    ((async_write_all two_at_once (7 ∷ 8 ∷ 9 ∷ []) a_connection).0
      ≤ length {A = ℕ} (7 ∷ 8 ∷ 9 ∷ []))
    × ((async_write_all two_at_once (7 ∷ 8 ∷ 9 ∷ []) a_connection).2
        ≡ take (async_write_all two_at_once (7 ∷ 8 ∷ 9 ∷ []) a_connection).0 (7 ∷ 8 ∷ 9 ∷ []))
    × (((async_write_all two_at_once (7 ∷ 8 ∷ 9 ∷ []) a_connection).0
          ≡ length {A = ℕ} (7 ∷ 8 ∷ 9 ∷ []))
        ⊎ (is_connected (async_write_all two_at_once (7 ∷ 8 ∷ 9 ∷ []) a_connection).1 ≡ false))
async_write_all_lem_example =
    async_write_all_lem two_at_once (7 ∷ 8 ∷ 9 ∷ []) a_connection two_at_once_le

abbrev a_closed : Connection
a_closed = record a_connection { fd = none; state = ConnectionState.closed }

-- Two connections of at most three: number 0 is used, number 1 is idle.
abbrev a_pool : ConnectionPool
a_pool = record {
  max_connections = 3;
  max_idle = 2;
  idle_connections = 1 ∷ [];
  total_connections = 2;
  active_connections = 1;
  store = λ i. a_connection;
  next = 2;
}

a_pool-IsValid : Accounting.IsValid a_pool
a_pool-IsValid = record { counted = omega arith; fits = omega arith }

acquire_locked-IsValid_example : Accounting.IsValid (acquire_locked a_pool).1
acquire_locked-IsValid_example = acquire_locked-IsValid a_pool a_pool-IsValid

release-IsValid_example : Accounting.IsValid (release (some 0) a_pool)
release-IsValid_example = release-IsValid 0 a_pool a_pool-IsValid (omega arith)

reuses : (acquire_locked a_pool).0 ≡ Acquired.reused 1
unfolding acquire_locked ConnectionPool.take_idle
reuses = refl

-- Both of two connections are used, and one more may be created.
abbrev busy_pool : ConnectionPool
busy_pool = record a_pool { idle_connections = []; active_connections = 2 }
