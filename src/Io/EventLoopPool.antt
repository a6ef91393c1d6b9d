-- ===== src/Io/EventLoopPool.antt =====
-- io/event_loop_pool.hpp: `EventLoopPool`: the main thread's loop and those of the workers.
pub mod Dispatch
mod Tests
use cpp20_coroutine_io_uring.Common.{
  ℕ, ◌+◌, ◌-◌, ◌*◌, ◌/◌, ◌%◌, ◌^◌, Bool, true, false, not, ◌||◌, List, [], ◌∷◌, ◌++◌, Option, none,
  some, ℤ, pos, negsuc, map, length, get_elem?, set, keep_if, ltb, ◌==◌, if◌then◌else◌, ◌>>=◌,
}
use cpp20_coroutine_io_uring.Io.IoUring.{
  IoUring, Sqe, Operation, prepare_nop, prepare_msg_ring, prepare_timeout, submit, run_once,
}
use cpp20_coroutine_io_uring.Io.EventLoopThread.{
  EventLoopThread, Answers, Fn, CrossThreadTask, delivers, new_thread, start, stop, inc_connections,
  post_via_msg_ring, post_fn,
}

pub record EventLoopPool : Type 0 where
  pub worker_count : ℕ
  pub next_worker : ℕ
  pub running : Bool
  pub main_loop : EventLoopThread
  pub workers : List EventLoopThread

-- The threads with identifiers from `i` on; `rings` are their rings with their descriptors.
abbrev pub new_threads : ℕ → List (ℕ × IoUring) → List EventLoopThread
new_threads i [] = []
new_threads i ((ring_fd, ring) ∷ rings) = new_thread i ring_fd ring ∷ new_threads (i + 1) rings

-- The constructor, which makes as many rings as there are workers, and one for the main thread.
unfoldable pub new_pool : ℕ × IoUring → List (ℕ × IoUring) → EventLoopPool
new_pool (ring_fd, ring) rings = record {
  worker_count = length rings;
  next_worker = 0;
  running = false;
  main_loop = new_thread 0 ring_fd ring;
  workers = new_threads 1 rings;
}

-- The main thread's loop is run by the caller.
unfoldable pub start_pool : EventLoopPool → EventLoopPool
start_pool p = record p { running = true; workers = map start p.workers }

unfoldable pub stop_pool : Answers → EventLoopPool → EventLoopPool
stop_pool answers p =
    if p.running
    then record p {
      running = false;
      workers = map (stop answers) p.workers;
      main_loop = stop answers p.main_loop;
    }
    else p

-- A worker that is not there is undefined behaviour.
unfoldable pub worker_loop : ℕ → EventLoopPool → Option EventLoopThread
worker_loop worker_id p = get_elem? p.workers worker_id

unfoldable pub loop_at : ℕ → EventLoopPool → Option EventLoopThread
loop_at thread_id p = get_elem? (p.main_loop ∷ p.workers) thread_id

-- The loop over the threads from index `i` on; `best` is the number of a worker.
unfoldable pub least_loop : ℕ → ℕ → ℕ → List EventLoopThread → ℕ
least_loop i best best_count [] = best
least_loop i best best_count (t ∷ threads) =
    if ltb t.connection_count best_count
    then least_loop (i + 1) (i - 1) t.connection_count threads
    else least_loop (i + 1) best best_count threads

-- Without workers it reads past the vector.
unfoldable pub least_of : List EventLoopThread → Option ℕ
least_of [] = none
least_of (first ∷ rest) = some (least_loop 1 0 first.connection_count (first ∷ rest))

unfoldable pub select_worker_least_connections : EventLoopPool → Option ℕ
select_worker_least_connections p = least_of p.workers

-- Without workers it divides by zero.
unfoldable pub select_worker_round_robin : EventLoopPool → Option (ℕ × EventLoopPool)
select_worker_round_robin p =
    if p.worker_count == 0
    then none
    else some
        (p.next_worker % p.worker_count, record p { next_worker = (p.next_worker + 1) % 2 ^ 32 })

abbrev pub with_pool : EventLoopPool → Option ℕ → Option (ℕ × EventLoopPool)
with_pool p none = none
with_pool p (some worker_id) = some (worker_id, p)

-- The strategy is "lc", or any other string.
unfoldable pub select_worker : Bool → EventLoopPool → Option (ℕ × EventLoopPool)
select_worker least_connections p =
    if least_connections
    then with_pool p (select_worker_least_connections p)
    else select_worker_round_robin p

module _ (visit : List (ℕ × CrossThreadTask) → List (ℕ × CrossThreadTask)) where
  -- The task on its way to a worker whose connections have been counted: through the ring of the
  -- main thread, or by its queue if that fails. The answers are those for the two entries; `turns`
  -- says whether the worker processes its tasks while the message is under way. The calls that it
  -- makes then come first.
  unfoldable pub deliver :
      Bool
      → Answers
      → Answers
      → ℕ
      → Option ℕ
      → IoUring
      → EventLoopThread
      → List Fn × (IoUring × EventLoopThread)
  deliver turns answers fallback fd on_ready caller worker =
      let (called, posted) =
        post_via_msg_ring visit turns answers
          (record { task_type = 1; data_word = fd; fn = some (delivers fd on_ready) }) caller
          worker in
      (
        called,
        (posted.1, if posted.0 then posted.2 else post_fn fallback (delivers fd on_ready) posted.2),
      )

  unfoldable pub dispatch_to_worker :
      Bool
      → Answers
      → Answers
      → ℕ
      → Option ℕ
      → Bool
      → EventLoopPool
      → Option (List Fn × EventLoopPool)
  dispatch_to_worker turns answers fallback fd on_ready least_connections p = do
    (worker_id, p') ← select_worker least_connections p
    worker ← worker_loop worker_id p'
    let (called, delivered) =
        deliver turns answers fallback fd on_ready p'.main_loop.io_uring (inc_connections worker)
    some (
      called,
      record p' {
        main_loop = record (p'.main_loop) { io_uring = delivered.0 };
        workers = set p'.workers worker_id delivered.1;
      },
    )

unfoldable pub post_to_worker : Answers → ℕ → Fn → EventLoopPool → Option EventLoopPool
post_to_worker answers worker_id fn p = do
  worker ← worker_loop worker_id p
  some (record p { workers = set p.workers worker_id (post_fn answers fn worker) })

unfoldable pub post_to_main : Answers → Fn → EventLoopPool → EventLoopPool
post_to_main answers fn p = record p { main_loop = post_fn answers fn p.main_loop }

unfoldable pub connection_counts : EventLoopPool → List ℕ
connection_counts p = map (λ t. t.connection_count) (p.main_loop ∷ p.workers)
