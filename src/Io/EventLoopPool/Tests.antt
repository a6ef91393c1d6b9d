-- ===== src/Io/EventLoopPool/Tests.antt =====
-- io/event_loop_pool.hpp: runs of the pool and of a thread at small inputs.
use cpp20_coroutine_io_uring.Common.{
  ℕ, ◌+◌, ◌%◌, ◌^◌, ◌≡◌, ◌≢◌, refl, true, false, not, ◌||◌, if◌then◌else◌, List, [], ◌∷◌, none,
  some, pos, negsuc, get_elem?, weigh, arith,
}
use cpp20_coroutine_io_uring.Io.IoUring.{IoUring, Completion, process_cqe, op_msg_ring}
use cpp20_coroutine_io_uring.Io.EventLoopThread.{
  EventLoopThread, Answers, Fn, CrossThreadTask, delivers, new_thread, inc_connections,
  post_via_msg_ring,
}
use cpp20_coroutine_io_uring.Io.EventLoopThread.Messages.{waiting}
use cpp20_coroutine_io_uring.Io.EventLoopThread.Messages
use cpp20_coroutine_io_uring.Io.EventLoopPool.{
  EventLoopPool, new_pool, dispatch_to_worker, connection_counts,
}
use cpp20_coroutine_io_uring.Io.EventLoopPool.Dispatch.{IsReady}
use cpp20_coroutine_io_uring.Io.EventLoopPool.Dispatch

abbrev ring : IoUring
ring = record {
  config = record {
    queue_depth = 4096;
    sq_thread_cpu = 0;
    sq_thread_idle = 2000;
    sq_poll = false;
    iopoll = false;
    fixed_files = false;
    fixed_files_count = 0;
    setup_coop_taskrun = false;
  };
  running = true;
  prepared = [];
  submitted = [];
  callbacks = λ i. none;
  next_callback_id = 1;
}

abbrev worker : ℕ → ℕ → EventLoopThread
worker thread_id connections = record {
  thread_id = thread_id;
  ring_fd = thread_id + 10;
  io_uring = ring;
  running = true;
  connection_count = connections;
  pending_tasks = [];
  task_queue = [];
  next_task_id = 1;
  next_timer_id = 1;
}

abbrev pool : EventLoopPool
pool = record {
  worker_count = 2;
  next_worker = 5;
  running = true;
  main_loop = worker 0 0;
  workers = worker 1 4 ∷ worker 2 3 ∷ [];
}

abbrev accepted : Answers
accepted = record { room = λ entries. true; ret = pos 1 }

abbrev refused : Answers
refused = record { room = λ entries. true; ret = negsuc 10 }

new_pool_counts :
    connection_counts (new_pool (10, ring) ((11, ring) ∷ (12, ring) ∷ [])) ≡ 0 ∷ 0 ∷ 0 ∷ []
unfolding connection_counts new_pool new_thread
new_pool_counts = refl

worker-IsValid : (i n : ℕ) → Messages.IsValid (worker i n)
worker-IsValid i n = record { given_out = tt; no_wrap = omega arith }

pool-IsReady : IsReady pool
pool-IsReady = record {
  counted = refl;
  some_worker = omega arith;
  valid = (worker-IsValid 1 4, (worker-IsValid 2 3, tt));
}

abbrev in_order : List (ℕ × CrossThreadTask) → List (ℕ × CrossThreadTask)
in_order entries = entries

-- The message fails after the worker has processed its tasks.
dispatch_to_worker_lem_example :
    (called : List Fn) × (p' : EventLoopPool) × (k : ℕ) × (t : EventLoopThread)
    × (t' : EventLoopThread) × (dispatch_to_worker in_order true refused accepted 7
          (some 1)
          false
          pool
        ≡ some (called, p'))
    × (get_elem? pool.workers k ≡ some t)
    × (get_elem? p'.workers k ≡ some t')
    × (t'.connection_count ≡ (t.connection_count + 1) % 2 ^ 64)
    × ((w : Fn → ℕ)
        → weigh w called + weigh w (waiting t')
          ≡ (if Dispatch.is_sent in_order true refused 7
                  (some 1)
                  pool.main_loop.io_uring
                  (inc_connections t)
                || not true
              then 0
              else w (delivers 7 (some 1)))
            + w (delivers 7 (some 1))
            + weigh w (waiting t))
    × ((j : ℕ) → k ≢ j → get_elem? p'.workers j ≡ get_elem? pool.workers j)
dispatch_to_worker_lem_example =
    Dispatch.dispatch_to_worker_lem in_order (λ weight entries. refl) true refused accepted 7
      (some 1) false pool pool-IsReady

abbrev task : CrossThreadTask
task = record { task_type = 1; data_word = 7; fn = some (delivers 7 none) }

process_cqe-post_via_msg_ring_example :
    ((post_via_msg_ring in_order false
        (Messages.one_taken (λ entries. true))
        task
        ring
        (worker 1 4)).1.0
      ≡ true)
    × ((post_via_msg_ring in_order false
          (Messages.one_taken (λ entries. true))
          task
          ring
          (worker 1 4)).1.1.submitted
        ≡ record { operation = op_msg_ring 11 1; flags = 0; user_data = 1 % 65536 } ∷ [])
    × (process_cqe
          (record { user_data = 1; res = pos 0; flags = 0 })
          (post_via_msg_ring in_order false
            (Messages.one_taken (λ entries. true))
            task
            ring
            (worker 1 4)).1.2.io_uring
        ≡ Completion.bad_function_call)
process_cqe-post_via_msg_ring_example =
    Messages.process_cqe-post_via_msg_ring in_order false (λ entries. true) task ring (worker 1 4)
      (pos 0) 0 refl refl (omega arith) (omega arith)
