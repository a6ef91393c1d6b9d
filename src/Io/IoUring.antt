-- ===== src/Io/IoUring.antt =====
-- io/io_uring.hpp: `IoUring`. The ring of liburing is the list of the prepared entries and of those
-- that were submitted; whether it has room for one more is the parameter `room`, and what
-- `io_uring_submit` and the kernel answer are arguments. A callback is a label, and `none` an empty
-- `std::function`, as the table holds at first. `none` as the result of an operation is an exception
-- that leaves it.
pub mod Callbacks
mod Tests
use cpp20_coroutine_io_uring.Common.{
  ℕ, zero, suc, ◌+◌, ◌*◌, ◌/◌, ◌%◌, ◌^◌, Bool, true, false, ◌||◌, List, [], ◌∷◌, ◌++◌, Option, none,
  some, ℤ, pos, negsuc, take, drop, leb, ◌==◌, if◌then◌else◌, ◌>>=◌, bit_or,
}

pub data IoUringError : Type 0 where
  setup_failed queue_full submit_failed invalid_parameter overflow timed_out cancelled :
      IoUringError

pub record IoUringConfig : Type 0 where
  pub queue_depth : ℕ
  pub sq_thread_cpu : ℕ
  pub sq_thread_idle : ℕ
  pub sq_poll : Bool
  pub iopoll : Bool
  pub fixed_files : Bool
  pub fixed_files_count : ℕ
  pub setup_coop_taskrun : Bool

-- The operations that are prepared, with the arguments that are numbers.
pub data Operation : Type 0 where
  op_read op_write : (fd size offset : ℕ) → Operation
  op_recv op_send : (fd size flags : ℕ) → Operation
  op_accept : (fd flags : ℕ) → Operation
  op_connect : (fd : ℕ) → Operation
  op_timeout : (seconds nanoseconds count : ℕ) → Operation
  op_link_timeout : (seconds nanoseconds : ℕ) → Operation
  op_cancel : (user_data : ℕ) → Operation
  op_msg_ring : (target_fd message : ℕ) → Operation
  op_nop : Operation

pub record Sqe : Type 0 where
  pub operation : Operation
  pub flags : ℕ
  pub user_data : ℕ

pub record Cqe : Type 0 where
  pub user_data : ℕ
  pub res : ℤ
  pub flags : ℕ

abbrev pub CompletionCallback : Type 0
CompletionCallback = Option ℕ

pub record IoUring : Type 0 where
  pub config : IoUringConfig
  pub running : Bool
  pub prepared : List Sqe
  pub submitted : List Sqe
  pub callbacks : ℕ → CompletionCallback
  pub next_callback_id : ℕ

abbrev pub max_callbacks : ℕ
max_callbacks = 65536

-- The flags that `setup` asks for: IORING_SETUP_SQPOLL, IOPOLL and COOP_TASKRUN.
unfoldable pub setup_flags : IoUringConfig → ℕ
setup_flags c =
    bit_or (if c.sq_poll then 2 else 0)
      (bit_or (if c.iopoll then 1 else 0) (if c.setup_coop_taskrun then 256 else 0))

-- The constructor; `ret` is what `io_uring_queue_init_params` returns.
unfoldable pub setup : IoUringConfig → ℤ → Option IoUring
setup config (negsuc errno) = none
setup config (pos n) = some (record {
  config = config;
  running = true;
  prepared = [];
  submitted = [];
  callbacks = λ i. none;
  next_callback_id = 1;
})

-- Whether the ring is given back, and the object after it.
unfoldable pub shutdown : IoUring → Bool × IoUring
shutdown r = (r.running, record r { running = false })

-- `set_callback`: the entry gets the next identifier, and the table the callback under it.
unfoldable pub set_callback : Operation → ℕ → CompletionCallback → IoUring → IoUring
set_callback operation flags callback r = record r {
  prepared = r.prepared ++ record { operation = operation; flags = flags; user_data = id } ∷ [];
  callbacks = λ j. if j == id then callback else r.callbacks j;
  next_callback_id = (r.next_callback_id + 1) % 2 ^ 64;
}
  where
    id : ℕ
    id = r.next_callback_id % max_callbacks

unfoldable pub get_callback : Cqe → IoUring → Option CompletionCallback
get_callback cqe r =
    if cqe.user_data == 0 || leb max_callbacks cqe.user_data
    then none
    else some (r.callbacks cqe.user_data)

module _ (room : List Sqe → Bool) where
  -- What the eleven `prepare_` functions share: no entry, no operation.
  unfoldable pub prepare : Operation → ℕ → CompletionCallback → IoUring → Option IoUring
  prepare operation flags callback r =
      if room r.prepared then some (set_callback operation flags callback r) else none

  unfoldable pub prepare_read : ℕ → ℕ → ℕ → CompletionCallback → IoUring → Option IoUring
  prepare_read fd size offset = prepare (op_read fd size offset) 0

  unfoldable pub prepare_write : ℕ → ℕ → ℕ → CompletionCallback → IoUring → Option IoUring
  prepare_write fd size offset = prepare (op_write fd size offset) 0

  unfoldable pub prepare_recv : ℕ → ℕ → ℕ → CompletionCallback → IoUring → Option IoUring
  prepare_recv fd size flags = prepare (op_recv fd size flags) 0

  unfoldable pub prepare_send : ℕ → ℕ → ℕ → CompletionCallback → IoUring → Option IoUring
  prepare_send fd size flags = prepare (op_send fd size flags) 0

  unfoldable pub prepare_accept : ℕ → ℕ → CompletionCallback → IoUring → Option IoUring
  prepare_accept fd flags = prepare (op_accept fd flags) 0

  unfoldable pub prepare_connect : ℕ → CompletionCallback → IoUring → Option IoUring
  prepare_connect fd = prepare (op_connect fd) 0

  unfoldable pub prepare_timeout : ℕ × ℕ → ℕ → CompletionCallback → ℕ → IoUring → Option IoUring
  prepare_timeout (seconds, nanoseconds) count callback sqe_flags =
      prepare (op_timeout seconds nanoseconds count) sqe_flags callback

  unfoldable pub prepare_link_timeout : ℕ × ℕ → CompletionCallback → IoUring → Option IoUring
  prepare_link_timeout (seconds, nanoseconds) = prepare (op_link_timeout seconds nanoseconds) 0

  unfoldable pub prepare_async_cancel : ℕ → CompletionCallback → IoUring → Option IoUring
  prepare_async_cancel user_data = prepare (op_cancel user_data) 0

  unfoldable pub prepare_msg_ring : ℕ → ℕ → CompletionCallback → IoUring → Option IoUring
  prepare_msg_ring target_fd message = prepare (op_msg_ring target_fd message) 0

  unfoldable pub prepare_nop : CompletionCallback → IoUring → Option IoUring
  prepare_nop = prepare op_nop 0

-- `submit` and `submit_and_wait`; `ret` is how many entries the kernel took, or an error.
unfoldable pub submit : ℤ → IoUring → Option (ℕ × IoUring)
submit (negsuc errno) r = none
submit (pos n) r =
    some
      (n, record r { prepared = drop n r.prepared; submitted = r.submitted ++ take n r.prepared })

-- What comes of a completion: the callback runs with the result and the flags, there is none to run,
-- or an empty one is called, which throws.
pub data Completion : Type 0 where
  ran : (callback : ℕ) (res : ℤ) (flags : ℕ) → Completion
  skipped : Completion
  bad_function_call : Completion

unfoldable pub process_cqe : Cqe → IoUring → Completion
process_cqe cqe r = elim (get_callback cqe r) [
  | none ↦ Completion.skipped
  | some none ↦ Completion.bad_function_call
  | some (some callback) ↦ Completion.ran callback cqe.res cqe.flags
]

-- The move constructor: the new object has the ring, and a table of callbacks of its own.
unfoldable pub move_from : IoUring → IoUring
move_from other = record other { callbacks = λ i. none; next_callback_id = 1 }

abbrev pub throws : Completion → Bool
throws (Completion.ran callback res flags) = false
throws Completion.skipped = false
throws Completion.bad_function_call = true

abbrev pub one_more : Option ℕ → Option ℕ
one_more none = none
one_more (some n) = some (suc n)

-- The effect that a callback has on the ring when it runs is the parameter `effect`.
module _ (effect : (callback : ℕ) (res : ℤ) (flags : ℕ) → IoUring → IoUring) where
  abbrev pub after : Completion → IoUring → IoUring
  after (Completion.ran callback res flags) r = effect callback res flags r
  after Completion.skipped r = r
  after Completion.bad_function_call r = r

  -- The completions that are ready, in their order, and how many they are. An exception leaves the
  -- rest, and no number comes.
  unfoldable pub process_all_cqe : List Cqe → IoUring → Option ℕ × List Completion × IoUring
  process_all_cqe [] r = (some 0, [], r)
  process_all_cqe (cqe ∷ cqes) r =
      let (processed, cs, r') = process_all_cqe cqes (after (process_cqe cqe r) r) in
      if throws (process_cqe cqe r)
      then (none, process_cqe cqe r ∷ [], r)
      else (one_more processed, process_cqe cqe r ∷ cs, r')

  -- The entry for the time limit of `run_once` bears no identifier. An error of its submission is an
  -- exception.
  unfoldable pub add_limit : (List Sqe → Bool) → ℤ → ℤ → IoUring → Option IoUring
  add_limit room (negsuc n) ret r = some r
  add_limit room (pos timeout_ms) ret r =
      if room r.prepared
      then (do
        (n, r') ← submit ret (record r {
          prepared =
              r.prepared
              ++ record {
                operation = op_timeout (timeout_ms / 1000) (timeout_ms % 1000 * 1000000) 1;
                flags = 0;
                user_data = 0;
              }
                ∷ [];
        })
        some r')
      else some r

  -- The completion that was waited for, if waiting did not fail: one with identifier 0 is only taken
  -- off the queue.
  unfoldable pub first_cqe : Option Cqe → IoUring → Completion
  first_cqe none r = Completion.skipped
  first_cqe (some cqe) r = if cqe.user_data == 0 then Completion.skipped else process_cqe cqe r

  -- `waited` is the completion that is waited for, none if waiting fails, and `cqes` are those that
  -- are ready after it. The number counts the first in any case.
  unfoldable pub run_once :
      (List Sqe → Bool)
      → ℤ
      → ℤ
      → Option Cqe
      → List Cqe
      → IoUring
      → Option ℕ × List Completion × IoUring
  run_once room timeout_ms ret waited cqes r = elim (add_limit room timeout_ms ret r) [
    | none ↦ (none, [], r)
    | some r' ↦
        let c : Completion = first_cqe waited r' in
        let (processed, cs, r'') = process_all_cqe cqes (after c r') in
        if throws c then (none, c ∷ [], r') else (one_more processed, c ∷ cs, r'')
  ]
