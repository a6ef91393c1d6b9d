-- ===== src/Net/TcpClient/Tests.antt =====
-- net/tcp_client.hpp: runs of the client at small inputs.
use cpp20_coroutine_io_uring.Common.{
  ℕ, zero, suc, ◌≡◌, refl, true, false, [], ◌∷◌, Option, none, some, ℤ, pos, negsuc, arith,
}
use cpp20_coroutine_io_uring.Net.Connection.{Connection, ConnectionState, async_write}
use cpp20_coroutine_io_uring.Net.ConnectionPool.{ConnectionPool, acquire_locked}
use cpp20_coroutine_io_uring.Net.TcpClient.{TcpClient, send, acquired, with_pooled}
use cpp20_coroutine_io_uring.Net.TcpClient.Reconnect.{IsUp}
use cpp20_coroutine_io_uring.Net.TcpClient.Reconnect
use cpp20_coroutine_io_uring.Net.TcpClient.Pooled

abbrev open_connection : Connection
open_connection = record {
  fd = some 4;
  state = ConnectionState.connected;
  has_callback = false;
  closed_fds = [];
  callback_runs = 0;
}

abbrev client : TcpClient
client = record {
  auto_reconnect = true;
  max_reconnect_attempts = 3;
  connection = some open_connection;
  connected = true;
}

-- The first attempt has no socket, the others succeed.
abbrev attempts : ℕ → Option ℕ × ℤ
attempts zero = (none, pos 0)
attempts (suc i) = (some 5, pos 0)

send-try_reconnect_example :
    ((send attempts (negsuc 103) client).0 ≡ negsuc 103)
    × IsUp (send attempts (negsuc 103) client).1
send-try_reconnect_example =
    Reconnect.send-try_reconnect attempts (negsuc 103) 1 open_connection client refl refl refl refl
      refl (omega arith) (5, refl, refl)

abbrev pool : ConnectionPool
pool = record {
  max_connections = 10;
  max_idle = 5;
  idle_connections = 0 ∷ [];
  total_connections = 3;
  active_connections = 2;
  store = λ i. open_connection;
  next = 3;
}

with_pooled-acquired_example :
    Pooled.Served pool
      (some 7)
      (with_pooled (async_write (pos 5)) (acquired (some 7) (acquire_locked pool)))
with_pooled-acquired_example =
    Pooled.with_pooled-acquired (async_write (pos 5)) (some 7) pool
      (record { counted = refl; fits = omega arith }) (omega arith)
