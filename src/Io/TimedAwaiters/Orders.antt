-- ===== src/Io/TimedAwaiters/Orders.antt =====
-- io/timer.hpp: the awaiters under the orders in which the completions may come.
use cpp20_coroutine_io_uring.Common.{
  ℕ, ◌+◌, ◌*◌, ◌<◌, ◌≡◌, refl, Bool, true, false, ◌||◌, List, [], ◌∷◌, ℤ, pos, if◌then◌else◌, arith,
}
use cpp20_coroutine_io_uring.Io.TimedAwaiters.{
  of_nanoseconds, is_etime, is_zero, Answer, new_recv, recv_completes, recv_limit_completes,
  recv_await_resume, new_send, send_completes, send_limit_completes, nop_completes,
  send_await_resume, WithTimeoutAwaiter, operation_completes, operation_raises, limit_completes,
  of_limit, of_operation, Resumed,
}

-- The seconds and nanoseconds that the kernel gets are in their ranges and are the duration.
pub of_nanoseconds_lem :
    (ns : ℕ)
    → ((of_nanoseconds ns).1 < 1000000000)
      × ((of_nanoseconds ns).0 * 1000000000 + (of_nanoseconds ns).1 ≡ ns)
unfolding of_nanoseconds
of_nanoseconds_lem ns = (omega arith, omega arith)

-- A receive with a limit resumes its coroutine once, in either order of its two completions. If the
-- receive is the first, the coroutine gets its result, and if the limit is, it gets the exception.
pub recv_orders :
    (n : ℤ)
    → ((recv_completes n new_recv).0 ≡ true)
      × (recv_await_resume (recv_completes n new_recv).1 ≡ Answer.result n)
      × ((recv_limit_completes (recv_completes n new_recv).1).0 ≡ false)
      × (((recv_limit_completes new_recv).0 ≡ true)
          × (recv_await_resume (recv_limit_completes new_recv).1 ≡ Answer.timeout_exception)
          × ((recv_completes n (recv_limit_completes new_recv).1).0 ≡ false))
unfolding recv_completes recv_limit_completes recv_await_resume
recv_orders n = (refl, refl, refl, (refl, refl, refl))

-- A send with a limit: if the send has completed and its limit too, which the kernel then cancels,
-- the coroutine that the third completion resumes gets the exception of the limit, whatever was
-- sent; and if that third completion is the first, the coroutine gets 0 before the send is done.
pub send_orders :
    (n : ℤ)
    → ((nop_completes (send_limit_completes (send_completes n new_send).1).1).0 ≡ true)
      × (send_await_resume (nop_completes (send_limit_completes (send_completes n new_send).1).1).1
          ≡ Answer.timeout_exception)
      × ((nop_completes new_send).0 ≡ true)
      × (send_await_resume (nop_completes new_send).1 ≡ Answer.result (pos 0))
unfolding send_completes send_limit_completes nop_completes send_await_resume
send_orders n = (refl, refl, refl, refl)

-- What can complete for `with_timeout`.
pub data Completes : Type 0 where
  operation_done : (n : ℤ) → Completes
  operation_failed : (exception : ℕ) → Completes
  limit_done : (n : ℤ) → Completes

abbrev pub complete : Completes → WithTimeoutAwaiter → Bool × WithTimeoutAwaiter
complete (operation_done n) a = operation_completes n a
complete (operation_failed e) a = operation_raises e a
complete (limit_done n) a = limit_completes n a

-- What the coroutine is to get from the first completion: the operation's result or exception; or,
-- if the limit has run out, which its result -ETIME or 0 says, the exception of the limit; with any
-- other result of the limit there is nothing to get.
abbrev pub expected : Completes → Resumed
expected (operation_done n) = Resumed.value n
expected (operation_failed e) = Resumed.raised (of_operation e)
expected (limit_done n) =
    if is_etime n || is_zero n then Resumed.raised of_limit else Resumed.bad_optional_access

-- What is cancelled: the limit under its identifier, and never the operation.
abbrev pub to_cancel : ℕ → Completes → List ℕ
to_cancel id (operation_done n) = id ∷ []
to_cancel id (operation_failed e) = id ∷ []
to_cancel id (limit_done n) = []
