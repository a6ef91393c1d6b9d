-- ===== src/Io/EventLoop/Tests.antt =====
-- io/event_loop.hpp: runs at small inputs.
use cpp20_coroutine_io_uring.Common.{ℕ, ◌≡◌, refl, not, false, [], ◌∷◌, leb, keep_if, arith}
use cpp20_coroutine_io_uring.Io.EventLoop.{
  TimerHandle, new_loop, set_timer, push_timer, run_due, run_calls, process_timers, process_tasks,
  due_ids, cancel_timer, post,
}
use cpp20_coroutine_io_uring.Io.EventLoop.Timers.{Step, sets, cancels, posts, steps, due_callbacks}
use cpp20_coroutine_io_uring.Io.EventLoop.Timers

abbrev timer : ℕ → ℕ → TimerHandle
timer id time = record { id = id; expire_time = time; callback = id; cancelled = false }

-- Timer 0 is cancelled before it is due, and its callback runs.
cancelled_timer_runs :
    (run_calls 20 (steps (sets 0 10 7 ∷ cancels 0 ∷ posts 8 ∷ []) new_loop)).0 ≡ 7 ∷ 8 ∷ []
unfolding run_calls process_timers process_tasks run_due due_ids set_timer push_timer cancel_timer
    post
cancelled_timer_runs = refl

run_due_lem_example :
    ((run_due 12 (timer 1 10 ∷ timer 2 12 ∷ timer 3 15 ∷ [])).0
      ≡ due_callbacks 12 (timer 1 10 ∷ timer 2 12 ∷ timer 3 15 ∷ []))
    × ((run_due 12 (timer 1 10 ∷ timer 2 12 ∷ timer 3 15 ∷ [])).1
        ≡ keep_if (λ t. not (leb t.expire_time 12)) (timer 1 10 ∷ timer 2 12 ∷ timer 3 15 ∷ []))
run_due_lem_example =
    Timers.run_due_lem 12 (timer 1 10 ∷ timer 2 12 ∷ timer 3 15 ∷ [])
      ((omega arith, (omega arith, tt)), ((omega arith, tt), (tt, tt)))

cancel_timer-steps_example :
    cancel_timer 0 (steps (sets 0 10 7 ∷ []) new_loop) ≡ (false, steps (sets 0 10 7 ∷ []) new_loop)
cancel_timer-steps_example = Timers.cancel_timer-steps (sets 0 10 7 ∷ []) 0
