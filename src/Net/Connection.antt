-- ===== src/Net/Connection.antt =====
-- net/connection.hpp: `Connection`. A descriptor is `some` number, and `none` is -1. The kernel's
-- results are arguments; what the code tells the kernel is kept in logs: the descriptors that are
-- closed, and the runs of the close callback. Socket options, time stamps and the unused byte
-- counters are left out.
pub mod Transfer
use cpp20_coroutine_io_uring.Common.{
  ℕ, zero, suc, ◌+◌, ◌-◌, Bool, true, false, ◌&&◌, List, [], ◌∷◌, ◌++◌, Option, none, some, Bytes,
  ℤ, negsuc, pos, is_positive, to_size, length, take, drop, ltb, ◌==◌, if◌then◌else◌,
}
use cpp20_coroutine_io_uring.Net.Buffer.{Buffer, writable, overwrite}

pub data ConnectionState : Type 0 where
  disconnected : ConnectionState
  connecting : ConnectionState
  connected : ConnectionState
  closing : ConnectionState
  closed : ConnectionState

pub record Connection : Type 0 where
  pub fd : Option ℕ
  pub state : ConnectionState
  pub has_callback : Bool
  pub closed_fds : List ℕ
  pub callback_runs : ℕ

unfoldable pub create : Option ℕ → Connection
create fd = record {
  fd = fd;
  state = elim fd [ none ↦ ConnectionState.disconnected | some n ↦ ConnectionState.connected ];
  has_callback = false;
  closed_fds = [];
  callback_runs = 0;
}

abbrev pub is_connected : Connection → Bool
is_connected c = elim c.state [ ConnectionState.connected ↦ true | _ ↦ false ]

abbrev pub fd_list : Option ℕ → List ℕ
fd_list none = []
fd_list (some n) = n ∷ []

-- The exchange from `Connected` to `Closing`, and what follows if it takes place.
unfoldable pub close : Connection → Connection
close c = elim c.state [
  | ConnectionState.connected ↦ record c {
    fd = none;
    state = ConnectionState.closed;
    closed_fds = c.closed_fds ++ fd_list c.fd;
    callback_runs = c.callback_runs + (if c.has_callback then 1 else 0);
  }
  | _ ↦ c
]

-- `handle_error`.
abbrev pub handle_error : Connection → Connection
handle_error c = close c

-- `socket` is what `create_socket` returns, `ret` the result of the connect.
unfoldable pub async_connect : Option ℕ → ℤ → Connection → Bool × Connection
async_connect socket ret c = elim c.fd [
  | some n ↦ finish ret c
  | none ↦ elim socket [ none ↦ (false, c) | some n ↦ finish ret (record c { fd = some n }) ]
]
  where
    finish : ℤ → Connection → Bool × Connection
    finish (pos zero) d = (true, record d { state = ConnectionState.connected })
    finish (pos (suc n)) d = (false, record d { state = ConnectionState.disconnected })
    finish (negsuc n) d = (false, record d { state = ConnectionState.disconnected })

-- `n` is the result of the receive.
unfoldable pub async_read : ℤ → Connection → ℤ × Connection
async_read n c =
    if is_connected c
    then (if is_positive n then (n, c) else (n, handle_error c))
    else (negsuc 0, c)

unfoldable pub async_write : ℤ → Connection → ℤ × Connection
async_write n c =
    if is_connected c
    then (if is_positive n then (n, c) else (n, handle_error c))
    else (negsuc 0, c)

-- `async_read(Buffer&)`, where the kernel has put `received` at the write position, at most as much
-- as there is room for.
unfoldable pub async_read_buffer : Bytes → Connection → Buffer → ℤ × Connection × Buffer
unfolding async_read
async_read_buffer received c b =
    if writable b == 0
    then (pos 0, c, b)
    else (let (n, c') = async_read (pos (length received)) c in
        (n, c', if is_connected c then record b { block = stored b.block } else b))
  where
    stored : Option Bytes → Option Bytes
    stored none = none
    stored (some block) = some (overwrite block b.write_pos received)

-- The loop of `async_write_all` on the bytes `data`. `send` is the kernel: what it answers once
-- `written` bytes are gone, asked for the rest. Beside the result, the bytes that it took.
module _ (send : ℕ → ℕ → ℤ) (data_bytes : Bytes) where
  unfoldable pub write_loop : ℕ → ℕ → Connection → ℕ × Connection × Bytes
  unfolding async_write
  write_loop zero written c = (written, c, [])
  write_loop (suc fuel) written c = elim (ltb written (length data_bytes) && is_connected c) [
    | false ↦ (written, c, [])
    | true ↦
        let (n, c') = async_write (send written (length data_bytes - written)) c in
        elim (is_positive n) [
          | false ↦ (written, c', [])
          | true ↦
              let (total, c'', sent) = write_loop fuel (written + to_size n) c' in
              (total, c'', take (to_size n) (drop written data_bytes) ++ sent)
        ]
  ]

  unfoldable pub async_write_all : Connection → ℕ × Connection × Bytes
  unfolding write_loop
  async_write_all c = write_loop (length data_bytes) 0 c

-- `async_read_line` on the bytes that the peer sends; after them the receive answers `end`. The line,
-- what is left to read, and the connection.
unfoldable pub async_read_line : ℤ → Bytes → Connection → Bytes × Bytes × Connection
unfolding async_read
async_read_line end [] c = if is_connected c then ([], [], (async_read end c).1) else ([], [], c)
async_read_line end (ch ∷ rest) c =
    let (line, left, c') = async_read_line end rest c in
    if is_connected c
    then (if ch == 10 then ([], rest, c) else (ch ∷ line, left, c'))
    else ([], ch ∷ rest, c)
