-- ===== src/Net/Buffer.antt =====
-- net/buffer.hpp: a growing byte buffer with a read and a write position, and chains of them.
-- `size_t` differences wrap at 2 ^ 64. A block is the list of its bytes, as long as its capacity;
-- what `new char[n]` holds is the parameter `alloc n`. `none` is undefined behaviour: a null block
-- that is read, or a copy past the end of a block.
pub mod Content
pub mod Write
use cpp20_coroutine_io_uring.Common.{
  ℕ, ◌+◌, ◌-◌, ◌*◌, ◌%◌, ◌^◌, min, max, Bool, true, false, List, [], ◌∷◌, ◌++◌, Option, none, some,
  Bytes, length, take, drop, ltb, leb, ◌==◌, if◌then◌else◌, ◌>>=◌,
}

pub record Buffer : Type 0 where
  pub block : Option Bytes
  pub read_pos : ℕ
  pub write_pos : ℕ

-- `Buffer()`.
abbrev pub empty_buffer : Buffer
empty_buffer = record { block = none; read_pos = 0; write_pos = 0 }

abbrev pub sub_size : ℕ → ℕ → ℕ
sub_size a b = (a + 2 ^ 64 - b) % 2 ^ 64

unfoldable pub capacity : Buffer → ℕ
capacity b = elim b.block [ none ↦ 0 | some bytes ↦ length bytes ]

unfoldable pub readable : Buffer → ℕ
readable b = sub_size b.write_pos b.read_pos

unfoldable pub writable : Buffer → ℕ
writable b = elim b.block [ none ↦ 0 | some bytes ↦ sub_size (length bytes) b.write_pos ]

unfoldable pub empty : Buffer → Bool
unfolding readable
empty b = readable b == 0

-- `memcpy` into a block at a position where there is room.
abbrev pub overwrite : Bytes → ℕ → Bytes → Bytes
overwrite block pos bytes = take pos block ++ (bytes ++ drop (pos + length bytes) block)

unfoldable pub clear : Buffer → Buffer
clear b = record b { read_pos = 0; write_pos = 0 }

unfoldable pub reset : Buffer → Buffer
reset b = record b { read_pos = 0; write_pos = 0 }

unfoldable pub skip : Buffer → ℕ → Buffer
unfolding readable
skip b n = record b { read_pos = b.read_pos + min n (readable b) }

unfoldable pub retreat : Buffer → ℕ → Buffer
retreat b n = record b { read_pos = b.read_pos - min n b.read_pos }

-- The bytes from the read position on, `n` of them: a copy from `read_ptr()`.
unfoldable pub copy_out : Buffer → ℕ → Option Bytes
copy_out b n = do
  bytes ← b.block
  if ltb (length bytes) (b.read_pos + n) then none else some (take n (drop b.read_pos bytes))

unfoldable pub read : Buffer → ℕ → Option (Bytes × Buffer)
unfolding readable
read b size = do
  let n = min size (readable b)
  found ← copy_out b n
  some (found, record b { read_pos = b.read_pos + n })

unfoldable pub as_string : Buffer → Option Bytes
unfolding readable
as_string b = copy_out b (readable b)

unfoldable pub compact : Buffer → Option Buffer
unfolding readable
compact b = if ltb 0 b.read_pos then compacted else some b
  where
    compacted : Option Buffer
    compacted = do
      moved ← copy_out b (readable b)
      bytes ← b.block
      some (record { block = some (overwrite bytes 0 moved); read_pos = 0; write_pos = readable b })

module _ (alloc : ℕ → Bytes) where
  -- `Buffer(size_t capacity)`.
  unfoldable pub with_capacity : ℕ → Buffer
  with_capacity n = record { block = some (alloc n); read_pos = 0; write_pos = 0 }

  -- The last part of `ensure_writable`: a larger block with the first `write_pos` bytes of the old.
  unfoldable pub grow : Buffer → ℕ → Option Buffer
  unfolding capacity
  grow b size = do
    bytes ← b.block
    let new_capacity = max (capacity b * 2) (b.write_pos + size)
    some (record b { block = some (overwrite (alloc new_capacity) 0 (take b.write_pos bytes)) })

  -- Its middle part: `compact()`, then `grow` where that does not help.
  unfoldable pub make_room : Buffer → ℕ → Option Buffer
  unfolding writable
  make_room b size = do
    compacted ← compact b
    if leb size (writable compacted) then some compacted else grow compacted size

  unfoldable pub ensure_writable : Buffer → ℕ → Option Buffer
  unfolding writable
  ensure_writable b size = elim b.block [
    | none ↦ some (record b { block = some (alloc (max size 4096)) })
    | some bytes ↦ if leb size (writable b) then some b else make_room b size
  ]

  -- `memcpy(write_ptr(), data, size); write_pos_ += size;`.
  unfoldable pub copy_in : Buffer → Bytes → Option Buffer
  copy_in b bytes = do
    block ← b.block
    if ltb (length block) (b.write_pos + length bytes)
        then none
        else some (record b {
          block = some (overwrite block b.write_pos bytes);
          write_pos = b.write_pos + length bytes;
        })

  unfoldable pub write : Buffer → Bytes → Option Buffer
  write b bytes = do roomy ← ensure_writable b (length bytes); copy_in roomy bytes

  -- `Buffer(const char* data, size_t size)`, and with it `Buffer(const std::string&)`.
  unfoldable pub of_bytes : Bytes → Option Buffer
  unfolding with_capacity write
  of_bytes bytes = write (with_capacity (length bytes)) bytes
