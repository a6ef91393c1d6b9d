-- ===== src/Io/TimedAwaiters.antt =====
-- io/timer.hpp: `to_kernel_timespec`, `TimeoutAwaiter`, `TimedRecvAwaiter`, `TimedSendAwaiter` and
-- `WithTimeoutAwaiter`. A callback that a completion runs is a step on the awaiter; it returns
-- whether it resumes the coroutine. Durations are not negative.
pub mod Orders
mod Tests
use cpp20_coroutine_io_uring.Common.{
  ℕ, ◌+◌, ◌*◌, ◌/◌, ◌%◌, ◌^◌, Bool, true, false, not, ◌||◌, ◌&&◌, List, [], ◌∷◌, ◌++◌, Option, none,
  some, ℤ, pos, negsuc, ◌==◌, if◌then◌else◌,
}

-- `to_kernel_timespec` of nanoseconds, milliseconds and seconds.
unfoldable pub of_nanoseconds : ℕ → ℕ × ℕ
of_nanoseconds ns = (ns / 1000000000, ns % 1000000000)

unfoldable pub of_milliseconds : ℕ → ℕ × ℕ
of_milliseconds ms = of_nanoseconds (ms * 1000000)

unfoldable pub of_seconds : ℕ → ℕ × ℕ
of_seconds s = of_nanoseconds (s * 1000000000)

-- -ETIME and -ECANCELED.
abbrev pub etime : ℤ
etime = negsuc 61

abbrev pub ecanceled : ℤ
ecanceled = negsuc 124

abbrev pub is_etime : ℤ → Bool
is_etime (pos n) = false
is_etime (negsuc n) = n == 61

abbrev pub is_zero : ℤ → Bool
is_zero (pos n) = n == 0
is_zero (negsuc n) = false

-- `TimeoutAwaiter`: the completion resumes the coroutine, which gets the result.
unfoldable pub timed_out : ℤ → Bool
timed_out result = is_etime result

-- What the coroutine gets: a result, or the exception of a time limit.
pub data Answer : Type 0 where
  result : (n : ℤ) → Answer
  timeout_exception : Answer

pub record TimedRecvAwaiter : Type 0 where
  pub recv_result : ℤ
  pub recv_completed : Bool
  pub timeout_fired : Bool
  pub done : Bool

abbrev pub new_recv : TimedRecvAwaiter
new_recv = record {
  recv_result = pos 0;
  recv_completed = false;
  timeout_fired = false;
  done = false;
}

-- The callback of the receive.
unfoldable pub recv_completes : ℤ → TimedRecvAwaiter → Bool × TimedRecvAwaiter
recv_completes n a = (not a.done, record a { recv_result = n; recv_completed = true; done = true })

-- The callback of the linked limit, whatever its result is.
unfoldable pub recv_limit_completes : TimedRecvAwaiter → Bool × TimedRecvAwaiter
recv_limit_completes a = (not a.done, record a { timeout_fired = true; done = true })

unfoldable pub recv_await_resume : TimedRecvAwaiter → Answer
recv_await_resume a =
    if a.timeout_fired then Answer.timeout_exception else Answer.result a.recv_result

unfoldable pub recv_was_timeout : TimedRecvAwaiter → Bool
recv_was_timeout a = a.timeout_fired && not a.recv_completed

pub record TimedSendAwaiter : Type 0 where
  pub send_result : ℤ
  pub send_completed : Bool
  pub timeout_fired : Bool

abbrev pub new_send : TimedSendAwaiter
new_send = record { send_result = pos 0; send_completed = false; timeout_fired = false }

unfoldable pub send_completes : ℤ → TimedSendAwaiter → Bool × TimedSendAwaiter
send_completes n a = (false, record a { send_result = n; send_completed = true })

unfoldable pub send_limit_completes : TimedSendAwaiter → Bool × TimedSendAwaiter
send_limit_completes a = (false, record a { timeout_fired = true })

-- The entry that does nothing, and is linked to neither of the others, resumes the coroutine.
unfoldable pub nop_completes : TimedSendAwaiter → Bool × TimedSendAwaiter
nop_completes a = (true, a)

unfoldable pub send_await_resume : TimedSendAwaiter → Answer
send_await_resume a =
    if a.timeout_fired then Answer.timeout_exception else Answer.result a.send_result

unfoldable pub send_was_timeout : TimedSendAwaiter → Bool
send_was_timeout a = a.timeout_fired && not a.send_completed

-- The exception that is kept: one of the operation, by a label, or that of the time limit.
pub data Raised : Type 0 where
  of_operation : (exception : ℕ) → Raised
  of_limit : Raised

-- The awaiter until its coroutine is resumed, which ends its life: what a completion does with it
-- after that is undefined. `cancelled` holds the identifiers that cancellations were submitted for.
pub record WithTimeoutAwaiter : Type 0 where
  pub timeout_user_data : ℕ
  pub operation_user_data : ℕ
  pub result : Option ℤ
  pub exception : Option Raised
  pub done : Bool
  pub timeout_fired : Bool
  pub cancelled : List ℕ

abbrev pub new_with_timeout : WithTimeoutAwaiter
new_with_timeout = record {
  timeout_user_data = 0;
  operation_user_data = 0;
  result = none;
  exception = none;
  done = false;
  timeout_fired = false;
  cancelled = [];
}

-- `peek_next_callback_id` before the entry of the limit gets its callback.
unfoldable pub limit_prepared : ℕ → WithTimeoutAwaiter → WithTimeoutAwaiter
limit_prepared next_callback_id a = record a { timeout_user_data = next_callback_id }

abbrev pub cancel_id : ℕ → WithTimeoutAwaiter → WithTimeoutAwaiter
cancel_id id a = if id == 0 then a else record a { cancelled = a.cancelled ++ id ∷ [] }

unfoldable pub cancel_timeout : WithTimeoutAwaiter → WithTimeoutAwaiter
cancel_timeout a = cancel_id a.timeout_user_data a

unfoldable pub cancel_operation : WithTimeoutAwaiter → WithTimeoutAwaiter
cancel_operation a = cancel_id a.operation_user_data a

unfoldable pub operation_completes : ℤ → WithTimeoutAwaiter → Bool × WithTimeoutAwaiter
operation_completes n a =
    if a.done
    then (false, a)
    else (true, cancel_timeout (record a { done = true; result = some n }))

unfoldable pub operation_raises : ℕ → WithTimeoutAwaiter → Bool × WithTimeoutAwaiter
operation_raises e a =
    if a.done
    then (false, a)
    else (true, cancel_timeout (record a { done = true; exception = some (of_operation e) }))

-- The exception is kept if the limit has run out.
unfoldable pub expire : ℤ → WithTimeoutAwaiter → WithTimeoutAwaiter
expire n a =
    if is_etime n || is_zero n
    then record a { done = true; timeout_fired = true; exception = some of_limit }
    else record a { done = true }

unfoldable pub limit_completes : ℤ → WithTimeoutAwaiter → Bool × WithTimeoutAwaiter
limit_completes n a = if a.done then (false, a) else (true, cancel_operation (expire n a))

-- `result_.value()` throws if there is none.
pub data Resumed : Type 0 where
  value : (n : ℤ) → Resumed
  raised : (exception : Raised) → Resumed
  bad_optional_access : Resumed

unfoldable pub with_timeout_resume : WithTimeoutAwaiter → Resumed
with_timeout_resume a = elim a.exception [
  | some e ↦ Resumed.raised e
  | none ↦ elim a.result [ some n ↦ Resumed.value n | none ↦ Resumed.bad_optional_access ]
]
