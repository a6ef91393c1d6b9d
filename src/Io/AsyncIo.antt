-- ===== src/Io/AsyncIo.antt =====
-- io/async_io.hpp: the awaiters of a single operation, `async_read_all` and `async_write_all`. An
-- awaiter prepares its entry with a callback that stores the result and resumes the coroutine, here
-- the callback with the coroutine's number, and submits. As `await_suspend` is `noexcept`, an
-- exception in it ends the program, which is `none`.
pub mod Memory
pub mod Whole
mod Tests
use cpp20_coroutine_io_uring.Common.{
  ℕ, zero, suc, ◌+◌, ◌-◌, ◌*◌, Bool, true, false, not, List, [], ◌∷◌, ◌++◌, Option, none, some, ℤ,
  pos, negsuc, is_positive, to_size, Bytes, length, take, drop, replicate, min, ltb, ◌==◌,
  if◌then◌else◌, ◌>>=◌,
}
use cpp20_coroutine_io_uring.Io.IoUring.{
  IoUring, Sqe, prepare_read, prepare_write, prepare_recv, prepare_send, prepare_accept,
  prepare_connect, submit,
}

abbrev pub submitted : ℤ → Option IoUring → Option IoUring
submitted ret none = none
submitted ret (some ring) = elim (submit ret ring) [ none ↦ none | some (n, ring') ↦ some ring' ]

module _ (room : List Sqe → Bool) (ret : ℤ) (handle : ℕ) (ring : IoUring) where
  unfoldable pub suspend_read : ℕ → ℕ → ℕ → Option IoUring
  suspend_read fd size offset = submitted ret (prepare_read room fd size offset (some handle) ring)

  unfoldable pub suspend_write : ℕ → ℕ → ℕ → Option IoUring
  suspend_write fd size offset =
      submitted ret (prepare_write room fd size offset (some handle) ring)

  unfoldable pub suspend_recv : ℕ → ℕ → ℕ → Option IoUring
  suspend_recv fd size flags = submitted ret (prepare_recv room fd size flags (some handle) ring)

  unfoldable pub suspend_send : ℕ → ℕ → ℕ → Option IoUring
  suspend_send fd size flags = submitted ret (prepare_send room fd size flags (some handle) ring)

  unfoldable pub suspend_accept : ℕ → ℕ → Option IoUring
  suspend_accept fd flags = submitted ret (prepare_accept room fd flags (some handle) ring)

  unfoldable pub suspend_connect : ℕ → Option IoUring
  suspend_connect fd = submitted ret (prepare_connect room fd (some handle) ring)

-- `resize` of a string, with zeros.
unfoldable pub resize : ℕ → Bytes → Bytes
resize n xs = take n xs ++ replicate (n - length xs) 0

-- What a read of at most `size` bytes puts at `offset` of the string.
unfoldable pub store : ℕ → Bytes → Bytes → Bytes
store offset chunk xs = take offset xs ++ (chunk ++ drop (offset + length chunk) xs)

-- A string that is full is made twice as long, up to the limit.
unfoldable pub grow_full : ℕ → ℕ → Bytes → Bytes
grow_full max_size total result =
    if total == length result then resize (min (length result * 2) max_size) result else result

unfoldable pub read_step : ℕ → ℕ → Bytes → Bytes → Bytes
read_step max_size total chunk result =
    grow_full max_size (total + length chunk) (store total chunk result)

-- The loop of `async_read_all`, on fuel, and the string after it. `kernel` is what is read of a file
-- at an offset, at most as much as is asked for; no bytes are its end or an error.
module _ (kernel : ℕ → ℕ → Bytes) (max_size : ℕ) where
  unfoldable pub read_loop : ℕ → ℕ → Bytes → Bytes
  read_loop zero total result = resize total result
  read_loop (suc fuel) total result =
      let chunk : Bytes = take (length result - total) (kernel total (length result - total)) in
      let later : Bytes =
        read_loop fuel (total + length chunk) (read_step max_size total chunk result) in
      if ltb total max_size
      then (if length chunk == 0 then resize total result else later)
      else resize total result

  -- Each turn reads a byte at least.
  unfoldable pub async_read_all : Bytes
  async_read_all = read_loop (max_size + 1) 0 (replicate 4096 0)

-- The loop of `async_write_all`; `kernel` answers what is written at an offset of so many bytes.
-- Beside the number, the bytes that were taken.
module _ (kernel : ℕ → ℕ → ℤ) (data_bytes : Bytes) where
  unfoldable pub write_loop : ℕ → ℕ → ℕ × Bytes
  write_loop zero written = (written, [])
  write_loop (suc fuel) written =
      let n : ℤ = kernel written (length data_bytes - written) in
      let later : ℕ × Bytes = write_loop fuel (written + to_size n) in
      if ltb written (length data_bytes)
      then (if is_positive n
          then (later.0, take (to_size n) (drop written data_bytes) ++ later.1)
          else (written, []))
      else (written, [])

  unfoldable pub async_write_all : ℕ × Bytes
  async_write_all = write_loop (length data_bytes) 0
