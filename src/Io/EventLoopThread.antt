-- ===== src/Io/EventLoopThread.antt =====
-- io/event_loop_pool.hpp: `EventLoopThread`. A function is what it calls, by a label. A record
-- `Answers` holds what liburing answers for one entry: whether there is room for it, and what the
-- submission returns. The map of the pending tasks is a list, and the order in which it is visited
-- is the parameter `visit`.
pub mod Messages
use cpp20_coroutine_io_uring.Common.{
  ℕ, ◌+◌, ◌-◌, ◌*◌, ◌/◌, ◌%◌, ◌^◌, Bool, true, false, not, ◌||◌, List, [], ◌∷◌, ◌++◌, Option, none,
  some, ℤ, pos, negsuc, map, length, get_elem?, set, keep_if, ltb, ◌==◌, if◌then◌else◌, ◌>>=◌,
}
use cpp20_coroutine_io_uring.Io.IoUring.{
  IoUring, Sqe, Operation, prepare_nop, prepare_msg_ring, prepare_timeout, submit, run_once,
}

-- A function of a task: one that the caller gives, the start of a coroutine, or the delivery of a
-- descriptor to `on_ready`, which may be empty.
pub data Fn : Type 0 where
  given : (label : ℕ) → Fn
  starts : (coroutine : ℕ) → Fn
  delivers : (fd : ℕ) (on_ready : Option ℕ) → Fn

pub record CrossThreadTask : Type 0 where
  pub task_type : ℕ
  pub data_word : ℕ
  pub fn : Option Fn

pub record EventLoopThread : Type 0 where
  pub thread_id : ℕ
  pub ring_fd : ℕ
  pub io_uring : IoUring
  pub running : Bool
  pub connection_count : ℕ
  pub pending_tasks : List (ℕ × CrossThreadTask)
  pub task_queue : List CrossThreadTask
  pub next_task_id : ℕ
  pub next_timer_id : ℕ

pub record Answers : Type 0 where
  pub room : List Sqe → Bool
  pub ret : ℤ

-- The label of a callback that does nothing.
abbrev pub no_callback : ℕ
no_callback = 0

unfoldable pub new_thread : ℕ → ℕ → IoUring → EventLoopThread
new_thread thread_id ring_fd ring = record {
  thread_id = thread_id;
  ring_fd = ring_fd;
  io_uring = ring;
  running = false;
  connection_count = 0;
  pending_tasks = [];
  task_queue = [];
  next_task_id = 1;
  next_timer_id = 1;
}

unfoldable pub start : EventLoopThread → EventLoopThread
start t = record t { running = true }

-- The entry that wakes the thread; whatever goes wrong is caught.
unfoldable pub wake : Answers → IoUring → IoUring
wake answers ring = elim (prepare_nop answers.room (some no_callback) ring) [
  | none ↦ ring
  | some prepared ↦ elim (submit answers.ret prepared) [
    | none ↦ prepared
    | some (n, submitted) ↦ submitted
  ]
]

unfoldable pub stop : Answers → EventLoopThread → EventLoopThread
stop answers t =
    if t.running then record t { running = false; io_uring = wake answers t.io_uring } else t

unfoldable pub inc_connections : EventLoopThread → EventLoopThread
inc_connections t = record t { connection_count = (t.connection_count + 1) % 2 ^ 64 }

unfoldable pub dec_connections : EventLoopThread → EventLoopThread
dec_connections t = record t { connection_count = (t.connection_count + 2 ^ 64 - 1) % 2 ^ 64 }

abbrev pub without : ℕ → List (ℕ × CrossThreadTask) → List (ℕ × CrossThreadTask)
without task_id = keep_if λ entry. not (entry.0 == task_id)

-- The first half of `post_via_msg_ring`: the task is stored under its identifier.
unfoldable pub store_task : CrossThreadTask → EventLoopThread → EventLoopThread
store_task task t = record t {
  next_task_id = (t.next_task_id + 1) % 2 ^ 64;
  pending_tasks = without t.next_task_id t.pending_tasks ++ (t.next_task_id, task) ∷ [];
}

abbrev pub erase_task : ℕ → EventLoopThread → EventLoopThread
erase_task task_id t = record t { pending_tasks = without task_id t.pending_tasks }

-- What the submission of the message comes to; if it fails, the task is taken back.
unfoldable pub message_submitted :
    ℕ → IoUring → EventLoopThread → Option (ℕ × IoUring) → Bool × IoUring × EventLoopThread
message_submitted task_id prepared t none = (false, prepared, erase_task task_id t)
message_submitted task_id prepared t (some (n, submitted)) = (true, submitted, t)

unfoldable pub message_prepared :
    Answers → ℕ → IoUring → EventLoopThread → Option IoUring → Bool × IoUring × EventLoopThread
message_prepared answers task_id caller t none = (false, caller, erase_task task_id t)
message_prepared answers task_id caller t (some prepared) =
    message_submitted task_id prepared t (submit answers.ret prepared)

-- The second half: the message goes through the ring of the caller. The result is what the function
-- returns, the ring of the caller and the thread.
unfoldable pub send_message :
    Answers → ℕ → IoUring → EventLoopThread → Bool × IoUring × EventLoopThread
send_message answers task_id caller t =
    message_prepared answers task_id caller t
      (prepare_msg_ring answers.room t.ring_fd task_id (some no_callback) caller)

unfoldable pub post : Answers → CrossThreadTask → EventLoopThread → EventLoopThread
post answers task t = record t {
  task_queue = t.task_queue ++ task ∷ [];
  io_uring = wake answers t.io_uring;
}

-- `post` of a function.
unfoldable pub post_fn : Answers → Fn → EventLoopThread → EventLoopThread
post_fn answers fn t = post answers (record { task_type = 0; data_word = 0; fn = some fn }) t

unfoldable pub spawn : Answers → ℕ → EventLoopThread → EventLoopThread
spawn answers task t = post_fn answers (starts task) t

-- The identifier of the timer, and the thread; no result if an exception leaves.
unfoldable pub set_timer : Answers → ℕ → ℕ → EventLoopThread → Option (ℕ × EventLoopThread)
set_timer answers delay callback t = do
  prepared ←
      prepare_timeout answers.room (delay / 1000, delay % 1000 * 1000000) 0 (some callback) 0
        t.io_uring
  (n, submitted) ← submit answers.ret prepared
  some (
    t.next_timer_id,
    record t { io_uring = submitted; next_timer_id = (t.next_timer_id + 1) % 2 ^ 64 },
  )

-- Whether the callback of a timer is called on a result: -ETIME or 0.
unfoldable pub timer_fires : ℤ → Bool
timer_fires (pos n) = n == 0
timer_fires (negsuc n) = n == 61

-- What the tasks call, in their order; one without a function calls nothing.
abbrev pub call_of : CrossThreadTask → List Fn
call_of task = elim task.fn [ none ↦ [] | some fn ↦ fn ∷ [] ]

abbrev pub calls : List CrossThreadTask → List Fn
calls [] = []
calls (task ∷ tasks) = call_of task ++ calls tasks

abbrev pub tasks_of : List (ℕ × CrossThreadTask) → List CrossThreadTask
tasks_of = map λ entry. entry.1

module _ (visit : List (ℕ × CrossThreadTask) → List (ℕ × CrossThreadTask)) where
  -- The calls that are made, where none of them posts to this thread.
  unfoldable pub process_tasks : EventLoopThread → List Fn × EventLoopThread
  process_tasks t = (
    calls (tasks_of (visit t.pending_tasks)) ++ calls t.task_queue,
    record t { pending_tasks = []; task_queue = [] },
  )

  -- What the thread does between the two halves of `post_via_msg_ring`, where nobody holds its
  -- mutex: it processes its tasks if `turns` is true.
  unfoldable pub meanwhile : Bool → EventLoopThread → List Fn × EventLoopThread
  meanwhile turns t = if turns then process_tasks t else ([], t)

  -- What the thread has called in between, and what the second half gives.
  unfoldable pub post_via_msg_ring :
      Bool
      → Answers
      → CrossThreadTask
      → IoUring
      → EventLoopThread
      → List Fn × (Bool × IoUring × EventLoopThread)
  post_via_msg_ring turns answers task caller t = (
    (meanwhile turns (store_task task t)).0,
    send_message answers t.next_task_id caller (meanwhile turns (store_task task t)).1,
  )
