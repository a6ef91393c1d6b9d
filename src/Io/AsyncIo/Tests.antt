-- ===== src/Io/AsyncIo/Tests.antt =====
-- io/async_io.hpp: runs at small inputs.
use cpp20_coroutine_io_uring.Common.{ℕ, ◌≡◌, refl, [], ◌∷◌, pos, Bytes, take, drop, arith}
use cpp20_coroutine_io_uring.Io.AsyncIo.{async_read_all, async_write_all, write_loop}
use cpp20_coroutine_io_uring.Io.AsyncIo.Whole

abbrev content : Bytes
content = 5 ∷ 6 ∷ 7 ∷ []

-- Two bytes a read.
abbrev two : ℕ → ℕ → ℕ
two offset size = 2

async_read_all_lem_example :
    async_read_all (λ offset size. take (two offset size) (drop offset content)) 5000
    ≡ take 5000 content
async_read_all_lem_example =
    Whole.async_read_all_lem content two 5000 (λ offset size h. omega arith) (omega arith)

async_write_all_runs : async_write_all (λ offset size. pos 2) content ≡ (4, 5 ∷ 6 ∷ 7 ∷ [])
unfolding async_write_all write_loop
async_write_all_runs = refl
