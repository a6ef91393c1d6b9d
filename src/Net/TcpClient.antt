-- ===== src/Net/TcpClient.antt =====
-- net/tcp_client.hpp: `TcpClient`. The kernel's results are arguments. With a pool a client takes a
-- connection out for each call and gives it back after it; what `acquire` does where it has to wait
-- is not modelled here. `none` from a call is the dereference of a null pointer.
pub mod Reconnect
pub mod Pooled
mod Tests
use cpp20_coroutine_io_uring.Common.{
  ℕ, zero, suc, ◌+◌, ◌-◌, Bool, true, false, not, ◌&&◌, ◌||◌, List, [], ◌∷◌, Option, none, some, ℤ,
  negsuc, pos, is_positive, to_size, Bytes, take, length, ltb, if◌then◌else◌,
}
use cpp20_coroutine_io_uring.Net.Connection.{
  Connection, create, close, async_connect, async_read, async_write, async_write_all,
}
use cpp20_coroutine_io_uring.Net.ConnectionPool.{
  ConnectionPool, Acquired, reused, to_create, to_wait, acquire_locked, acquire_create, release,
  store_at,
}

pub record TcpClient : Type 0 where
  pub auto_reconnect : Bool
  pub max_reconnect_attempts : ℕ
  pub connection : Option Connection
  pub connected : Bool

-- The direct part of `connect`: `socket` is what `socket` returns, `ret` the result of the connect.
unfoldable pub connect_direct : Option ℕ → ℤ → TcpClient → Bool × TcpClient
connect_direct none ret c = (false, c)
connect_direct (some fd) ret c =
    let (ok, conn) = async_connect none ret (create (some fd)) in
    (ok, record c { connection = some conn; connected = ok })

abbrev pub close_connection : Option Connection → Option Connection
close_connection none = none
close_connection (some conn) = some (close conn)

-- The connection that is let go of, closed, and the client.
unfoldable pub disconnect : TcpClient → Option Connection × TcpClient
disconnect c = (close_connection c.connection, record c { connected = false; connection = none })

-- The loop of `try_reconnect` from attempt `i` on, of which `left` are left. What the system calls
-- give at each attempt is `attempts`.
unfoldable pub reconnect_loop : (ℕ → Option ℕ × ℤ) → ℕ → ℕ → TcpClient → Bool × TcpClient
reconnect_loop attempts zero i c = (false, c)
reconnect_loop attempts (suc left) i c =
    let here : Bool × TcpClient = connect_direct (attempts i).0 (attempts i).1 c in
    let later : Bool × TcpClient = reconnect_loop attempts left (i + 1) here.1 in
    if here.0 then here else later

unfoldable pub try_reconnect : (ℕ → Option ℕ × ℤ) → TcpClient → Bool × TcpClient
try_reconnect attempts c = reconnect_loop attempts c.max_reconnect_attempts 0 c

-- What follows a transfer on the client's connection: if it failed, the client may connect again.
unfoldable pub after_transfer : (ℕ → Option ℕ × ℤ) → Bool → TcpClient → TcpClient
after_transfer attempts failed c =
    if failed && c.auto_reconnect then (try_reconnect attempts c).1 else c

unfoldable pub send_on : (ℕ → Option ℕ × ℤ) → ℤ → Option Connection → TcpClient → ℤ × TcpClient
send_on attempts n none c = (negsuc 0, c)
send_on attempts n (some conn) c =
    if c.connected
    then (let (sent, conn') = async_write n conn in
        (
          sent,
          after_transfer attempts (not (is_positive sent)) (record c { connection = some conn' }),
        ))
    else (negsuc 0, c)

-- `send` without a pool; `n` is the result of the kernel.
unfoldable pub send : (ℕ → Option ℕ × ℤ) → ℤ → TcpClient → ℤ × TcpClient
send attempts n c = send_on attempts n c.connection c

unfoldable pub recv_on : (ℕ → Option ℕ × ℤ) → ℤ → Option Connection → TcpClient → ℤ × TcpClient
recv_on attempts n none c = (negsuc 0, c)
recv_on attempts n (some conn) c =
    if c.connected
    then (let (received, conn') = async_read n conn in
        (
          received,
          after_transfer attempts (not (is_positive received))
              (record c { connection = some conn' }),
        ))
    else (negsuc 0, c)

unfoldable pub recv : (ℕ → Option ℕ × ℤ) → ℤ → TcpClient → ℤ × TcpClient
recv attempts n c = recv_on attempts n c.connection c

-- `send_all`, where `kernel` answers each send; beside the number, what the kernel took.
unfoldable pub send_all_on :
    (ℕ → Option ℕ × ℤ) → (ℕ → ℕ → ℤ) → Bytes → Option Connection → TcpClient → ℕ × Bytes × TcpClient
send_all_on attempts kernel data_bytes none c = (0, [], c)
send_all_on attempts kernel data_bytes (some conn) c =
    if c.connected
    then (let (n, conn', sent) = async_write_all kernel data_bytes conn in
        (
          n,
          sent,
          after_transfer attempts (ltb n (length data_bytes))
              (record c { connection = some conn' }),
        ))
    else (0, [], c)

unfoldable pub send_all :
    (ℕ → Option ℕ × ℤ) → (ℕ → ℕ → ℤ) → Bytes → TcpClient → ℕ × Bytes × TcpClient
send_all attempts kernel data_bytes c = send_all_on attempts kernel data_bytes c.connection c

-- `request`: `n` and `m` are the results of the kernel for the write and the read, and `buffer` what
-- the 4096 bytes hold after the read.
unfoldable pub request : (ℕ → Option ℕ × ℤ) → ℤ → ℤ → Bytes → TcpClient → Bytes × TcpClient
request attempts n m buffer c =
    let (sent, c') = send attempts n c in
    let (received, c'') = recv attempts m c' in
    if is_positive sent
    then (if is_positive received then take (to_size received) buffer else [], c'')
    else ([], c')

-- With a pool: the number of the connection that `acquire` gives, if it gives one. `none` beside a
-- pool is a null pointer; `none` alone is that the caller waits, and begins `acquire` again once
-- another thread has given a connection back.
unfoldable pub acquired : Option ℕ → Acquired × ConnectionPool → Option (Option ℕ × ConnectionPool)
acquired socket (reused i, p) = some (some i, p)
acquired socket (to_create, p) = some (acquire_create socket p)
acquired socket (to_wait, p) = none

-- What a call through a pool comes to: it waits in `acquire`, dereferences a null pointer, or has a
-- result and leaves the pool.
pub data PooledCall : Type 0 where
  waits : PooledCall
  null_dereference : PooledCall
  returns : (n : ℤ) (p : ConnectionPool) → PooledCall

-- A step of the connection that was acquired, which is then given back.
unfoldable pub with_pooled :
    (Connection → ℤ × Connection) → Option (Option ℕ × ConnectionPool) → PooledCall
with_pooled step none = PooledCall.waits
with_pooled step (some (none, p)) = PooledCall.null_dereference
with_pooled step (some (some i, p)) =
    let (n, conn) = step (p.store i) in
    PooledCall.returns n (release (some i) (record p { store = store_at p.store i conn }))

unfoldable pub send_pooled : Option ℕ → ℤ → ConnectionPool → PooledCall
send_pooled socket n p = with_pooled (async_write n) (acquired socket (acquire_locked p))

unfoldable pub recv_pooled : Option ℕ → ℤ → ConnectionPool → PooledCall
recv_pooled socket n p = with_pooled (async_read n) (acquired socket (acquire_locked p))
