-- ===== src/Coroutine/Tests.antt =====
-- Runs of the code of coroutine/ on small inputs.
use cpp20_coroutine_io_uring.Common.{◌-◌, ◌^◌, ◌≡◌, refl, [], ◌∷◌, ◌++◌}
use cpp20_coroutine_io_uring.Coroutine.Sync.{new_mutex, AsyncSemaphore, AsyncConditionVariable}
use cpp20_coroutine_io_uring.Coroutine.Sync.Handover.{
  locks, unlocks, use_mutex, use_mutex-lockers, acquire_all, acquire_all_wrap,
}

-- The second coroutine locks while the first has not unlocked.
use_mutex-lockers_example :
    use_mutex (locks 1 ∷ locks 2 ∷ unlocks ∷ unlocks ∷ []) new_mutex ≡ (1 ∷ 2 ∷ [], new_mutex)
use_mutex-lockers_example = use_mutex-lockers (locks 1 ∷ locks 2 ∷ unlocks ∷ unlocks ∷ [])

abbrev one_permit : AsyncSemaphore
one_permit = record { count = 1; waiters = [] }

abbrev no_permit : AsyncSemaphore
no_permit = record { count = 0; waiters = [] }

acquire_all_wrap_example :
    acquire_all no_permit (1 ∷ 2 ∷ [])
    ≡ (2 ∷ [], record no_permit { count = 2 ^ 64 - 1; waiters = no_permit.waiters ++ 1 ∷ [] })
acquire_all_wrap_example = acquire_all_wrap no_permit 1 (2 ∷ []) refl

abbrev two_wait : AsyncConditionVariable
two_wait = record { waiters = 1 ∷ 2 ∷ [] }
