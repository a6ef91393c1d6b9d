-- ===== src/Io/TimedAwaiters/Tests.antt =====
-- io/timer.hpp: runs of the awaiters at small inputs.
use cpp20_coroutine_io_uring.Io.TimedAwaiters.Orders
