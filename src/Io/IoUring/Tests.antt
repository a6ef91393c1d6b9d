-- ===== src/Io/IoUring/Tests.antt =====
-- io/io_uring.hpp: runs of the ring at small inputs.
use cpp20_coroutine_io_uring.Common.{ℕ, ◌≡◌, refl, true, false, [], ◌∷◌, none, some, ℤ, pos}
use cpp20_coroutine_io_uring.Io.IoUring.{
  IoUringConfig, IoUring, Completion, op_read, op_nop, set_callback, process_cqe, process_all_cqe,
  prepare_read, run_once, add_limit, first_cqe, get_callback, prepare, setup,
}
use cpp20_coroutine_io_uring.Io.IoUring.Callbacks.{register_all, answer}
use cpp20_coroutine_io_uring.Io.IoUring.Callbacks

abbrev config : IoUringConfig
config = record {
  queue_depth = 1024;
  sq_thread_cpu = 0;
  sq_thread_idle = 2000;
  sq_poll = false;
  iopoll = false;
  fixed_files = false;
  fixed_files_count = 0;
  setup_coop_taskrun = false;
}

abbrev ring_from : ℕ → IoUring
ring_from id = record {
  config = config;
  running = true;
  prepared = [];
  submitted = [];
  callbacks = λ i. none;
  next_callback_id = id;
}

abbrev idle : (callback : ℕ) (res : ℤ) (flags : ℕ) → IoUring → IoUring
idle callback res flags r = r

setup_runs : setup config (pos 0) ≡ some (ring_from 1)
unfolding setup
setup_runs = refl

prepare_twice :
    prepare_read (λ p. true) 4 10 0 (some 8) (set_callback op_nop 0 (some 7) (ring_from 1))
    ≡ some (set_callback (op_read 4 10 0) 0 (some 8) (set_callback op_nop 0 (some 7) (ring_from 1)))
unfolding prepare_read prepare
prepare_twice = refl

-- An empty callback that was registered throws when its completion comes.
empty_callback_throws :
    process_all_cqe idle
      (answer 1 (pos 0) 0 ∷ answer 2 (pos 0) 0 ∷ [])
      (register_all ((op_nop, 0, none) ∷ []) (ring_from 1))
    ≡ (none, Completion.bad_function_call ∷ [], register_all ((op_nop, 0, none) ∷ []) (ring_from 1))
unfolding process_all_cqe process_cqe get_callback set_callback
empty_callback_throws = refl

-- Waiting fails and nothing is processed, and the number is 1.
run_once_counts_failure :
    run_once idle (λ p. true) (ℤ.negsuc 0) (pos 1) none [] (ring_from 1)
    ≡ (some 1, Completion.skipped ∷ [], ring_from 1)
unfolding run_once add_limit first_cqe process_all_cqe
run_once_counts_failure = refl
