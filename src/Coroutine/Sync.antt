-- ===== src/Coroutine/Sync.antt =====
-- coroutine/sync.hpp: `AsyncMutex`, `AsyncSemaphore` and `AsyncConditionVariable`. A coroutine is its
-- number; a member function returns the coroutines that it lets run, in order. The awaiter of
-- `lock` and `acquire` is both its steps: `await_ready`, and `await_suspend` if that says no.
pub mod Handover
use cpp20_coroutine_io_uring.Common.{
  ℕ, ◌+◌, ◌-◌, ◌%◌, ◌^◌, Bool, true, false, not, List, [], ◌∷◌, ◌++◌, ltb, if◌then◌else◌,
}

pub record AsyncMutex : Type 0 where
  pub locked : Bool
  pub waiters : List ℕ

abbrev pub new_mutex : AsyncMutex
new_mutex = record { locked = false; waiters = [] }

unfoldable pub mutex_ready : AsyncMutex → Bool
mutex_ready m = not m.locked

-- `exchange(true)`: the coroutine resumes if the mutex was free, and waits if it was not.
unfoldable pub mutex_suspend : AsyncMutex → ℕ → List ℕ × AsyncMutex
mutex_suspend m co =
    if not m.locked
    then (co ∷ [], record m { locked = true })
    else ([], record m { waiters = m.waiters ++ co ∷ [] })

-- `co_await mutex.lock()`, where nothing comes between its two steps.
unfoldable pub lock : AsyncMutex → ℕ → List ℕ × AsyncMutex
unfolding mutex_ready mutex_suspend
lock m co = if mutex_ready m then (co ∷ [], m) else mutex_suspend m co

unfoldable pub unlock : AsyncMutex → List ℕ × AsyncMutex
unlock m = elim m.waiters [
  | [] ↦ ([], record m { locked = false })
  | next ∷ rest ↦ (next ∷ [], record m { waiters = rest })
]

pub record AsyncSemaphore : Type 0 where
  pub count : ℕ
  pub waiters : List ℕ

unfoldable pub semaphore_ready : AsyncSemaphore → Bool
semaphore_ready s = ltb 0 s.count

-- `count_` is a `size_t`: `fetch_sub(1)` at 0 leaves 2 ^ 64 - 1.
unfoldable pub semaphore_suspend : AsyncSemaphore → ℕ → List ℕ × AsyncSemaphore
semaphore_suspend s co =
    if ltb 0 s.count
    then (co ∷ [], record s { count = (s.count + 2 ^ 64 - 1) % 2 ^ 64 })
    else ([], record s { count = (s.count + 2 ^ 64 - 1) % 2 ^ 64; waiters = s.waiters ++ co ∷ [] })

unfoldable pub acquire : AsyncSemaphore → ℕ → List ℕ × AsyncSemaphore
unfolding semaphore_ready semaphore_suspend
acquire s co = if semaphore_ready s then (co ∷ [], s) else semaphore_suspend s co

unfoldable pub release : AsyncSemaphore → List ℕ × AsyncSemaphore
release s = elim s.waiters [
  | [] ↦ ([], record s { count = (s.count + 1) % 2 ^ 64 })
  | next ∷ rest ↦ (next ∷ [], record s { waiters = rest })
]

pub record AsyncConditionVariable : Type 0 where
  pub waiters : List ℕ

-- The coroutine is queued, then the mutex is unlocked; it always suspends.
unfoldable pub wait :
    AsyncConditionVariable → AsyncMutex → ℕ → List ℕ × AsyncConditionVariable × AsyncMutex
unfolding unlock
wait cv m co =
    let (resumed, m') = unlock m in (resumed, record cv { waiters = cv.waiters ++ co ∷ [] }, m')

unfoldable pub notify_one : AsyncConditionVariable → List ℕ × AsyncConditionVariable
notify_one cv = elim cv.waiters [
  | [] ↦ ([], cv)
  | next ∷ rest ↦ (next ∷ [], record cv { waiters = rest })
]

-- `while (!waiters_.empty())`: the loop on the queue, and what it resumes.
unfoldable pub drain : List ℕ → List ℕ
drain [] = []
drain (next ∷ rest) = next ∷ drain rest

unfoldable pub notify_all : AsyncConditionVariable → List ℕ × AsyncConditionVariable
unfolding drain
notify_all cv = (drain cv.waiters, record cv { waiters = [] })
